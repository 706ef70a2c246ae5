-- ===== src/Github/OrgRepositories.antt =====
-- github/client_repositories_org.go and github/client_repositories_user.go: the clients for the
-- repositories of an organization and of a user. They share `createRepository` and
-- `reconcileRepository`. A returned object is an `Option`, nil beside an error.
pub mod Panics
pub mod Reconcile
pub mod Idle
pub mod Target
pub mod Settled
use go_git_providers.Prelude.{
  ℕ, String, Bool, true, false, not, Option, none, some, List, [], ◌∷◌, ◌++◌, map, Str, codes, ◌==◌,
  nat_eq, list_eq, if◌then◌else◌,
}
use go_git_providers.Errors.{Err, is_error, not_found, foreign, incorrect_user}
use go_git_providers.Exec.{
  Result, ok, err, check, deref, and_then, Exec, lift, fail, pure, Attempt, got, failed, attempt,
  settle, ◌>>=◌, ◌>>◌,
}
use go_git_providers.Gitprovider.Info.{
  RepositoryInfo, repository_info, repository_equals, validate_and_default_info,
}
use go_git_providers.Gitprovider.Options.{RepositoryCreateOption, make_repository_create_options}
use go_git_providers.Gitprovider.Refs.{
  OrganizationRef, OrgRepositoryRef, UserRef, UserRepositoryRef,
}
use go_git_providers.Github.Api.{Repository, User}
use go_git_providers.Github.Client.{
  get_repo, create_repo, list_org_repos, list_user_repos, get_user,
}
use go_git_providers.Github.Context.{ClientContext}
use go_git_providers.Github.Repository.{
  Ref, org, user, identity, repository, UserRepository, new_user_repository, get, set, update,
}
use go_git_providers.Github.Spec.{repository_to_api, apply_repo_create_options}
use go_git_providers.Github.Util.{
  validate_org_repository_ref, validate_organization_ref, validate_user_repository_ref,
  validate_user_ref,
}

-- What `Reconcile` returns: the object, whether an action was taken, and the error.
abbrev pub Outcome : Type 0
Outcome = Option UserRepository × Bool × Option Err

-- `return resp, true, err`
unfoldable pub created_outcome : Attempt UserRepository → Outcome
created_outcome (got u) = (some u, true, none)
created_outcome (failed e) = (none, true, some e)

-- The object of each listed repository; the name was checked to be there.
unfoldable pub objects : (Str → Ref) → List Repository → Result (List UserRepository)
objects ref_of [] = ok []
objects ref_of (r ∷ rs) =
    and_then (deref r.name)
      λ name. and_then (objects ref_of rs) (λ us. ok (new_user_repository r (ref_of name) ∷ us))

module _ {W : Type 0} (c : ClientContext W) where
  -- `createRepository`
  unfoldable pub create_repository :
      Ref → Str → RepositoryInfo → List RepositoryCreateOption → Exec W Repository
  unfolding repository
  create_repository ref org_name req opts = do
    req' ← lift (validate_and_default_info req)
    lift (check (make_repository_create_options opts).1)
    create_repo c org_name (
        apply_repo_create_options (repository_to_api req' (repository ref))
          (make_repository_create_options opts).0)

  -- `reconcileRepository` where the object was set.
  unfoldable pub apply_set :
      UserRepository × Option Err → Exec W (UserRepository × Bool × Option Err)
  apply_set (u, some e) = pure (u, false, some e)
  apply_set (u, none) = do v ← update c u; pure (v.0, true, v.1)

  -- `reconcileRepository`
  unfoldable pub reconcile_repository :
      UserRepository → RepositoryInfo → Exec W (UserRepository × Bool × Option Err)
  unfolding apply_set
  reconcile_repository actual req =
      if repository_equals req (get actual)
      then pure (actual, false, none)
      else apply_set (set req actual)

  -- The shared body of the two `Reconcile` methods, behind `ValidateAndDefaultInfo`, given how the
  -- repository is got and created.
  unfoldable pub reconcile_attempt :
      Exec W UserRepository → RepositoryInfo → Attempt UserRepository → Exec W Outcome
  unfolding created_outcome reconcile_repository
  reconcile_attempt create req (got u) = do
    v ← reconcile_repository u req
    pure (some v.0, v.1, v.2)
  reconcile_attempt create req (failed e) =
      let creating : Exec W Outcome = attempt create >>= λ a. pure (created_outcome a) in
      if is_error e not_found then creating else pure (none, false, some e)

  -- The request is validated and defaulted before anything is sent.
  unfoldable pub reconcile_valid :
      Exec W UserRepository
      → (RepositoryInfo → Exec W UserRepository)
      → Attempt RepositoryInfo
      → Exec W Outcome
  unfolding reconcile_attempt
  reconcile_valid get_it create_it (failed e) = pure (none, false, some e)
  reconcile_valid get_it create_it (got req) = do
    a ← attempt get_it
    reconcile_attempt (create_it req) req a

  unfoldable pub reconcile_with :
      Exec W UserRepository
      → (RepositoryInfo → Exec W UserRepository)
      → RepositoryInfo
      → Exec W Outcome
  unfolding reconcile_valid
  reconcile_with get_it create_it req =
      attempt (lift (validate_and_default_info req)) >>= reconcile_valid get_it create_it

  -- `(*OrgRepositoriesClient).Get`
  unfoldable pub org_get : OrgRepositoryRef → Exec W UserRepository
  org_get ref = do
    lift (check (validate_org_repository_ref c.parse ref c.domain))
    api_obj ← get_repo c (identity (org ref)) ref.repository_name
    pure (new_user_repository api_obj (org ref))

  -- `(*OrgRepositoriesClient).List`
  unfoldable pub org_list : OrganizationRef → Exec W (List UserRepository)
  unfolding objects
  org_list ref = do
    lift (check (validate_organization_ref c.parse ref c.domain))
    rs ← list_org_repos c ref.organization
    lift (
        objects (λ name. org (record { organization_ref = ref; repository_name = name; slug = [] }))
          rs)

  -- `(*OrgRepositoriesClient).Create`
  unfoldable pub org_create :
      OrgRepositoryRef → RepositoryInfo → List RepositoryCreateOption → Exec W UserRepository
  unfolding create_repository
  org_create ref req opts = do
    lift (check (validate_org_repository_ref c.parse ref c.domain))
    api_obj ← create_repository (org ref) ref.organization_ref.organization req opts
    pure (new_user_repository api_obj (org ref))

  -- `(*OrgRepositoriesClient).Reconcile`
  unfoldable pub org_reconcile :
      OrgRepositoryRef → RepositoryInfo → List RepositoryCreateOption → Exec W Outcome
  unfolding reconcile_with
  org_reconcile ref req opts = reconcile_with (org_get ref) (λ req'. org_create ref req' opts) req

  -- `(*UserRepositoriesClient).Get`
  unfoldable pub user_get : UserRepositoryRef → Exec W UserRepository
  user_get ref = do
    lift (check (validate_user_repository_ref c.parse ref c.domain))
    api_obj ← get_repo c ref.user_ref.user_login ref.repository_name
    pure (new_user_repository api_obj (user ref))

  -- `(*UserRepositoriesClient).List`
  unfoldable pub user_list : UserRef → Exec W (List UserRepository)
  unfolding objects
  user_list ref = do
    lift (check (validate_user_ref c.parse ref c.domain))
    rs ← list_user_repos c ref.user_login
    lift (objects (λ name. user (record { user_ref = ref; repository_name = name; slug = [] })) rs)

  -- `user.GetLogin()`: the empty string for nil
  abbrev get_login : User → Str
  get_login u = elim u.login [ none ↦ [] | some l ↦ l ]

  -- The owner of a repository that was created; `*owner.Login` panics on nil.
  unfoldable pub owner_login : Repository → Result Str
  owner_login r = elim r.owner [
    | none ↦ err (foreign (codes "returned API object doesn't have an owner"))
    | some o ↦ deref o.login
  ]

  -- `GetUserLogin`, whose error is replaced
  unfoldable pub login_of : Attempt User → Result Str
  login_of (failed e) = err (foreign (codes "unable to get owner from API"))
  login_of (got u) = ok (get_login u)

  -- `(*UserRepositoriesClient).Create`
  unfoldable pub user_create :
      UserRepositoryRef → RepositoryInfo → List RepositoryCreateOption → Exec W UserRepository
  unfolding create_repository owner_login login_of
  user_create ref req opts = do
    lift (check (validate_user_repository_ref c.parse ref c.domain))
    a ← attempt (get_user c)
    login ← lift (login_of a)
    lift (
        check (
          if ref.user_ref.user_login == login
          then none
          else some (incorrect_user ref.user_ref.user_login)))
    api_obj ← create_repository (user ref) [] req opts
    owner ← lift (owner_login api_obj)
    pure (
        new_user_repository api_obj
          (user (record ref { user_ref = record (ref.user_ref) { user_login = owner } })))

  -- `(*UserRepositoriesClient).Reconcile`
  unfoldable pub user_reconcile :
      UserRepositoryRef → RepositoryInfo → List RepositoryCreateOption → Exec W Outcome
  unfolding reconcile_with
  user_reconcile ref req opts =
      reconcile_with (user_get ref) (λ req'. user_create ref req' opts) req
