-- ===== src/Gitea/Repositories.antt =====
-- gitea/client_repositories_org.go and gitea/client_repositories_user.go: the clients for the
-- repositories of an organization and of a user. They share `createRepository` and
-- `reconcileRepository`. A returned object is an `Option`, nil beside an error.
use go_git_providers.Prelude.{
  Bool, true, false, Option, none, some, List, [], map, Str, codes, ◌==◌, nat_eq, list_eq,
  if◌then◌else◌,
}
use go_git_providers.Errors.{Err, is_error, not_found, foreign, incorrect_user}
use go_git_providers.Exec.{
  Result, ok, err, check, Exec, lift, pure, Attempt, got, failed, attempt, ◌>>=◌, ◌>>◌,
}
use go_git_providers.Gitprovider.Info.{
  RepositoryInfo, repository_info, repository_equals, validate_and_default_info,
}
use go_git_providers.Gitprovider.Options.{
  RepositoryCreateOption, RepositoryCreateOptions, make_repository_create_options,
}
use go_git_providers.Gitprovider.Refs.{
  OrganizationRef, OrgRepositoryRef, UserRef, UserRepositoryRef,
}
use go_git_providers.Github.Repository.{Ref, org, user, identity, repository}
use go_git_providers.Gitea.Api.{
  Repository, CreateRepoOption, User, Answer, answered, refused, ClientContext,
}
use go_git_providers.Gitea.Repository.{
  UserRepository, get, set, update, repository_to_api, acted, get_repo, create_repo, list_org_repos,
  list_user_repos,
}
use go_git_providers.Gitea.Util.{
  validate_org_repository_ref, validate_organization_ref, validate_user_repository_ref,
  validate_user_ref,
}

-- What `Reconcile` returns: the object, whether an action was taken, and the error.
abbrev pub Outcome : Type 0
Outcome = Option UserRepository × Bool × Option Err

-- `return resp, true, err`
unfoldable pub created_outcome : Attempt UserRepository → Outcome
created_outcome (got u) = (some u, true, none)
created_outcome (failed e) = (none, true, some e)

-- `knownLicenseTemplateMap[t]`, which is `""` for a template that the map does not have
unfoldable pub known_license_template_map : Str → Str
known_license_template_map t =
    if t == codes "apache-2.0"
    then codes "Apache-2.0"
    else if t == codes "mit"
    then codes "MIT"
    else if t == codes "gpl-3.0"
    then codes "GPL-3.0-only"
    else []

unfoldable pub auto_init_of : Option Bool → Bool → Bool
auto_init_of none old = old
auto_init_of (some b) old = b

unfoldable pub license_of : Option Str → Str → Str
unfolding known_license_template_map
license_of none old = old
license_of (some t) old = known_license_template_map t

-- The options of `createRepository`, applied.
unfoldable pub apply_repo_create_options :
    RepositoryCreateOptions → CreateRepoOption → CreateRepoOption
unfolding auto_init_of license_of
apply_repo_create_options o opts = record opts {
  auto_init = auto_init_of o.auto_init opts.auto_init;
  license = license_of o.license_template opts.license;
}

-- `GetUserLogin` behind its call, and the error that replaces the call's.
unfoldable pub login_of : Answer User → Result Str
login_of (refused res e) = err (foreign (codes "unable to get owner from API"))
login_of (answered u) = ok u.user_name

-- The owner of a repository that was created.
unfoldable pub owner_login : Repository → Result Str
owner_login r = elim r.owner [
  | none ↦ err (foreign (codes "returned API object doesn't have an owner"))
  | some o ↦ ok o.user_name
]

module _ {W : Type 0} (c : ClientContext W) where
  -- `createRepository`
  unfoldable pub create_repository :
      Ref → Str → RepositoryInfo → List RepositoryCreateOption → Exec W Repository
  unfolding apply_repo_create_options
  create_repository ref org_name req opts = do
    req' ← lift (validate_and_default_info req)
    lift (check (make_repository_create_options opts).1)
    create_repo c org_name (
        apply_repo_create_options (make_repository_create_options opts).0
          (repository_to_api req' (repository ref)))

  -- `reconcileRepository` where the object was set.
  unfoldable pub apply_set :
      UserRepository × Option Err → Exec W (UserRepository × Bool × Option Err)
  apply_set (u, some e) = pure (u, false, some e)
  apply_set (u, none) = do v ← update c u; pure (acted v)

  -- `reconcileRepository`
  unfoldable pub reconcile_repository :
      UserRepository → RepositoryInfo → Exec W (UserRepository × Bool × Option Err)
  unfolding apply_set
  reconcile_repository actual req =
      let change = apply_set (set req actual) in
      if repository_equals req (get actual) then pure (actual, false, none) else change

  -- The shared body of the two `Reconcile` methods, given how the repository is got and created.
  unfoldable pub reconcile_attempt :
      Exec W UserRepository → RepositoryInfo → Attempt UserRepository → Exec W Outcome
  unfolding created_outcome reconcile_repository
  reconcile_attempt create req (got u) = do
    v ← reconcile_repository u req
    pure (some v.0, v.1, v.2)
  reconcile_attempt create req (failed e) =
      let creating : Exec W Outcome = attempt create >>= λ a. pure (created_outcome a) in
      if is_error e not_found then creating else pure (none, false, some e)

  unfoldable pub reconcile_valid :
      Exec W UserRepository
      → (RepositoryInfo → Exec W UserRepository)
      → Attempt RepositoryInfo
      → Exec W Outcome
  unfolding reconcile_attempt
  reconcile_valid get_it create_it (failed e) = pure (none, false, some e)
  reconcile_valid get_it create_it (got req) = do
    a ← attempt get_it
    reconcile_attempt (create_it req) req a

  unfoldable pub reconcile_with :
      Exec W UserRepository
      → (RepositoryInfo → Exec W UserRepository)
      → RepositoryInfo
      → Exec W Outcome
  unfolding reconcile_valid
  reconcile_with get_it create_it req =
      attempt (lift (validate_and_default_info req)) >>= reconcile_valid get_it create_it

  -- `(*OrgRepositoriesClient).Get`
  unfoldable pub org_get : OrgRepositoryRef → Exec W UserRepository
  org_get ref = do
    lift (check (validate_org_repository_ref c.parse ref c.domain))
    r ← get_repo c (identity (org ref)) ref.repository_name
    pure (record { r = r; ref = org ref })

  -- `(*OrgRepositoriesClient).List`
  unfoldable pub org_list : OrganizationRef → Exec W (List UserRepository)
  org_list ref = do
    lift (check (validate_organization_ref c.parse ref c.domain))
    rs ← list_org_repos c ref.organization
    pure (
        map
          (λ r. record {
            r = r;
            ref = org (record { organization_ref = ref; repository_name = r.name; slug = [] });
          })
          rs)

  -- `(*OrgRepositoriesClient).Create`
  unfoldable pub org_create :
      OrgRepositoryRef → RepositoryInfo → List RepositoryCreateOption → Exec W UserRepository
  unfolding create_repository
  org_create ref req opts = do
    lift (check (validate_org_repository_ref c.parse ref c.domain))
    r ← create_repository (org ref) ref.organization_ref.organization req opts
    pure (record { r = r; ref = org ref })

  -- `(*OrgRepositoriesClient).Reconcile`
  unfoldable pub org_reconcile :
      OrgRepositoryRef → RepositoryInfo → List RepositoryCreateOption → Exec W Outcome
  unfolding reconcile_with
  org_reconcile ref req opts = reconcile_with (org_get ref) (λ req'. org_create ref req' opts) req

  -- `(*UserRepositoriesClient).Get`
  unfoldable pub user_get : UserRepositoryRef → Exec W UserRepository
  user_get ref = do
    lift (check (validate_user_repository_ref c.parse ref c.domain))
    r ← get_repo c ref.user_ref.user_login ref.repository_name
    pure (record { r = r; ref = user ref })

  -- `(*UserRepositoriesClient).List`
  unfoldable pub user_list : UserRef → Exec W (List UserRepository)
  user_list ref = do
    lift (check (validate_user_ref c.parse ref c.domain))
    rs ← list_user_repos c ref.user_login
    pure (
        map
          (λ r. record {
            r = r;
            ref = user (record { user_ref = ref; repository_name = r.name; slug = [] });
          })
          rs)

  -- `(*UserRepositoriesClient).Create`
  unfoldable pub user_create :
      UserRepositoryRef → RepositoryInfo → List RepositoryCreateOption → Exec W UserRepository
  unfolding create_repository login_of owner_login
  user_create ref req opts = do
    lift (check (validate_user_repository_ref c.parse ref c.domain))
    a ← c.api.get_my_user_info
    login ← lift (login_of a)
    lift (
        check (
          if ref.user_ref.user_login == login
          then none
          else some (incorrect_user ref.user_ref.user_login)))
    r ← create_repository (user ref) [] req opts
    owner ← lift (owner_login r)
    pure (record {
      r = r;
      ref = user (record ref { user_ref = record (ref.user_ref) { user_login = owner } });
    })

  -- `(*UserRepositoriesClient).Reconcile`
  unfoldable pub user_reconcile :
      UserRepositoryRef → RepositoryInfo → List RepositoryCreateOption → Exec W Outcome
  unfolding reconcile_with
  user_reconcile ref req opts =
      reconcile_with (user_get ref) (λ req'. user_create ref req' opts) req
