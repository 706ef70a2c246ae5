-- ===== src/Gitlab/Repositories.antt =====
-- gitlab/client_repositories_org.go and gitlab/client_repositories_user.go: the clients for the
-- repositories of a group and of a user. They share `createProject` and `reconcileRepository`. A
-- returned object is an `Option`, nil beside an error.
pub mod Branch
use go_git_providers.Prelude.{
  ℕ, Bool, true, false, Option, none, some, List, [], ◌∷◌, map, Str, codes, ◌==◌, nat_eq, list_eq,
  is_empty, if◌then◌else◌,
}
use go_git_providers.Errors.{Err, is_error, not_found, foreign, incorrect_user}
use go_git_providers.Exec.{
  Result, ok, err, check, Exec, lift, pure, Attempt, got, failed, attempt, ◌>>=◌, ◌>>◌,
}
use go_git_providers.Gitprovider.Info.{
  RepositoryInfo, repository_info, repository_equals, validate_and_default_info,
}
use go_git_providers.Gitprovider.Options.{RepositoryCreateOption, make_repository_create_options}
use go_git_providers.Gitprovider.Refs.{
  OrganizationRef, OrgRepositoryRef, UserRef, UserRepositoryRef,
}
use go_git_providers.Github.Repository.{Ref, org, user, repository}
use go_git_providers.Gitlab.Api.{Project, ProjectNamespace, User}
use go_git_providers.Gitlab.Client.{
  get_group_project, get_user_project, list_group_projects, list_user_projects, create_project,
  get_user, no_options,
}
use go_git_providers.Gitlab.Context.{ClientContext}
use go_git_providers.Gitlab.Project.{UserProject, get, set, update, repository_to_api, acted}
use go_git_providers.Gitlab.Util.{
  get_repo_path, validate_org_repository_ref, validate_organization_ref,
  validate_user_repository_ref, validate_user_ref,
}

-- What `Reconcile` returns: the object, whether an action was taken, and the error.
abbrev pub Outcome : Type 0
Outcome = Option UserProject × Bool × Option Err

-- `return resp, true, err`
unfoldable pub created_outcome : Attempt UserProject → Outcome
created_outcome (got u) = (some u, true, none)
created_outcome (failed e) = (none, true, some e)

-- `if len(groupName) > 0 { data.Namespace = … }`
unfoldable pub namespace_of : Str → Option ProjectNamespace
namespace_of group_name =
    if is_empty group_name then none else some (record { name = group_name; kind = []; other = [] })

-- `GetUserLogin` behind its call, and the error that replaces the call's.
unfoldable pub login_of : Attempt User → Result Str
login_of (failed e) = err (foreign (codes "unable to get owner from API"))
login_of (got u) = ok u.username

-- The owner of a project that was created.
unfoldable pub owner_login : Project → Result Str
owner_login p = elim p.owner [
  | none ↦ err (foreign (codes "returned API object doesn't have an owner"))
  | some o ↦ ok o.username
]

module _ {W : Type 0} (c : ClientContext W) where
  -- `createProject`
  unfoldable pub new_project :
      Ref → Str → RepositoryInfo → List RepositoryCreateOption → Exec W Project
  unfolding namespace_of
  new_project ref group_name req opts = do
    req' ← lift (validate_and_default_info req)
    lift (check (make_repository_create_options opts).1)
    create_project c
        (record (repository_to_api req' (repository ref)) { namespace = namespace_of group_name })
        (some (record no_options {
          initialize_with_readme = (make_repository_create_options opts).0.auto_init;
        }))

  -- `reconcileRepository` where the object was set.
  unfoldable pub apply_set : UserProject × Option Err → Exec W (UserProject × Bool × Option Err)
  apply_set (u, some e) = pure (u, false, some e)
  apply_set (u, none) = do v ← update c u; pure (acted v)

  -- `reconcileRepository`
  unfoldable pub reconcile_repository :
      UserProject → RepositoryInfo → Exec W (UserProject × Bool × Option Err)
  unfolding apply_set
  reconcile_repository actual req =
      let change = apply_set (set req actual) in
      if repository_equals req (get actual) then pure (actual, false, none) else change

  -- The shared body of the two `Reconcile` methods, given how the repository is got and created.
  unfoldable pub reconcile_attempt :
      Exec W UserProject → RepositoryInfo → Attempt UserProject → Exec W Outcome
  unfolding created_outcome reconcile_repository
  reconcile_attempt create req (got u) = do
    v ← reconcile_repository u req
    pure (some v.0, v.1, v.2)
  reconcile_attempt create req (failed e) =
      let creating : Exec W Outcome = attempt create >>= λ a. pure (created_outcome a) in
      if is_error e not_found then creating else pure (none, false, some e)

  unfoldable pub reconcile_valid :
      Exec W UserProject
      → (RepositoryInfo → Exec W UserProject)
      → Attempt RepositoryInfo
      → Exec W Outcome
  unfolding reconcile_attempt
  reconcile_valid get_it create_it (failed e) = pure (none, false, some e)
  reconcile_valid get_it create_it (got req) = do
    a ← attempt get_it
    reconcile_attempt (create_it req) req a

  unfoldable pub reconcile_with :
      Exec W UserProject → (RepositoryInfo → Exec W UserProject) → RepositoryInfo → Exec W Outcome
  unfolding reconcile_valid
  reconcile_with get_it create_it req =
      attempt (lift (validate_and_default_info req)) >>= reconcile_valid get_it create_it

  -- `(*OrgRepositoriesClient).Get`
  unfoldable pub org_get : OrgRepositoryRef → Exec W UserProject
  org_get ref = do
    lift (check (validate_org_repository_ref c.parse ref c.domain))
    p ← get_group_project c ref.organization_ref.organization ref.repository_name
    pure (record { p = p; ref = org ref })

  -- `(*OrgRepositoriesClient).List`
  unfoldable pub org_list : OrganizationRef → Exec W (List UserProject)
  org_list ref = do
    lift (check (validate_organization_ref c.parse ref c.domain))
    ps ← list_group_projects c ref.organization
    pure (
        map
          (λ p. record {
            p = p;
            ref = org (record { organization_ref = ref; repository_name = p.name; slug = [] });
          })
          ps)

  -- `(*OrgRepositoriesClient).Create`
  unfoldable pub org_create :
      OrgRepositoryRef → RepositoryInfo → List RepositoryCreateOption → Exec W UserProject
  unfolding new_project
  org_create ref req opts = do
    lift (check (validate_org_repository_ref c.parse ref c.domain))
    p ← new_project (org ref) ref.organization_ref.organization req opts
    pure (record { p = p; ref = org ref })

  -- `(*OrgRepositoriesClient).Reconcile`
  unfoldable pub org_reconcile :
      OrgRepositoryRef → RepositoryInfo → List RepositoryCreateOption → Exec W Outcome
  unfolding reconcile_with
  org_reconcile ref req opts = reconcile_with (org_get ref) (λ req'. org_create ref req' opts) req

  -- `(*UserRepositoriesClient).Get`
  unfoldable pub user_get : UserRepositoryRef → Exec W UserProject
  user_get ref = do
    lift (check (validate_user_repository_ref c.parse ref c.domain))
    p ← get_user_project c (get_repo_path (user ref))
    pure (record { p = p; ref = user ref })

  -- `(*UserRepositoriesClient).List`
  unfoldable pub user_list : UserRef → Exec W (List UserProject)
  user_list ref = do
    lift (check (validate_user_ref c.parse ref c.domain))
    ps ← list_user_projects c ref.user_login
    pure (
        map
          (λ p. record {
            p = p;
            ref = user (record { user_ref = ref; repository_name = p.name; slug = [] });
          })
          ps)

  -- `(*UserRepositoriesClient).Create`
  unfoldable pub user_create :
      UserRepositoryRef → RepositoryInfo → List RepositoryCreateOption → Exec W UserProject
  unfolding new_project login_of owner_login
  user_create ref req opts = do
    lift (check (validate_user_repository_ref c.parse ref c.domain))
    a ← attempt (get_user c)
    login ← lift (login_of a)
    lift (
        check (
          if ref.user_ref.user_login == login
          then none
          else some (incorrect_user ref.user_ref.user_login)))
    p ← new_project (user ref) [] req opts
    owner ← lift (owner_login p)
    pure (record {
      p = p;
      ref = user (record ref { user_ref = record (ref.user_ref) { user_login = owner } });
    })

  -- `(*UserRepositoriesClient).Reconcile`
  unfoldable pub user_reconcile :
      UserRepositoryRef → RepositoryInfo → List RepositoryCreateOption → Exec W Outcome
  unfolding reconcile_with
  user_reconcile ref req opts =
      reconcile_with (user_get ref) (λ req'. user_create ref req' opts) req
