-- ===== src/Stash/Repositories.antt =====
-- stash/client_repositories_org.go and stash/client_repositories_user.go: the clients for the
-- repositories of a project and of a user. A returned object is an `Option`, nil beside an error.
pub mod Create
pub mod Settle
pub mod Init
use go_git_providers.Prelude.{
  ℕ, Bool, true, false, not, ◌&&◌, Option, none, some, List, [], ◌∷◌, ◌++◌, map, Str, codes,
  is_empty, slash, ◌==◌, nat_eq, list_eq, if◌then◌else◌,
}
use go_git_providers.Errors.{
  Err, wrap, sentinel, is_error, not_found, already_exists, stash_not_found, stash_already_exists,
}
use go_git_providers.Exec.{
  Result, check, deref, Exec, lift, pure, Attempt, got, failed, attempt, ◌>>=◌, ◌>>◌,
}
use go_git_providers.Gitprovider.Info.{RepositoryInfo, repository_equals}
use go_git_providers.Gitprovider.Options.{RepositoryCreateOption}
use go_git_providers.Gitprovider.Refs.{
  OrganizationRef, OrgRepositoryRef, UserRef, UserRepositoryRef, set_org_slug, set_user_slug,
}
use go_git_providers.Github.Repository.{Ref, org, user}
use go_git_providers.Stash.Types.{StashRepository, Branch}
use go_git_providers.Stash.Services.{on_error}
use go_git_providers.Stash.Services.Repositories
use go_git_providers.Stash.Services.Branches
use go_git_providers.Stash.Context.{
  StashContext, validate_org_repository_ref, validate_organization_ref,
  validate_user_repository_ref, validate_user_ref, validate_repository_api, validate_each,
  add_tilde, project_refs,
}
use go_git_providers.Stash.Repository.{UserRepository, get, set, update}
use go_git_providers.Stash.Repositories.Create.{create_repository}

-- What `Reconcile` returns: the object, whether an action was taken, and the error.
abbrev pub Outcome : Type 0
Outcome = Option UserRepository × Bool × Option Err

-- The slug that a repository is asked for: that of the reference, else the name.
unfoldable pub slug_or_name : Str → Str → Str
slug_or_name slug name = if is_empty slug then name else slug

-- `if errors.Is(err, ErrNotFound) { return gitprovider.ErrNotFound }; return fmt.Errorf(…)`, and
-- likewise for `ErrAlreadyExists`
unfoldable pub get_failed : Str → Str → Err → Err
get_failed key slug e =
    if is_error e stash_not_found
    then sentinel not_found
    else wrap "failed to get repository %s/%s: %w" (key ∷ slug ∷ []) e

unfoldable pub create_failed : Str → Str → Err → Err
create_failed key name e =
    if is_error e stash_already_exists
    then sentinel already_exists
    else wrap "failed to create repository %s/%s: %w" (key ∷ name ∷ []) e

unfoldable pub created_outcome : Attempt UserRepository → Outcome
created_outcome (got u) = (some u, true, none)
created_outcome (failed e) = (none, true, some e)

unfoldable pub updated_outcome :
    UserRepository → Attempt StashRepository → UserRepository × Bool × Option Err
updated_outcome u (failed e) = (u, false, some e)
updated_outcome u (got r) = (u, true, none)

module _ {W : Type 0} (c : StashContext W) where
  -- The body of the two `Get` methods behind the checks of the reference: the repository, and its
  -- default branch.
  unfoldable pub get_repository : Str → Str → Exec W StashRepository
  unfolding on_error Repositories.get Branches.default get_failed validate_repository_api
  get_repository key slug = do
    api_obj ← on_error (get_failed key slug) (Repositories.get c.client c.json key slug)
    lift (check (validate_repository_api api_obj))
    branch ←
        on_error (wrap "failed to get default branch for repository %s/%s: %w" (key ∷ slug ∷ []))
          (Branches.default c.client c.json key slug)
    pure (record api_obj { default_branch = branch.display_id })

  -- `(*OrgRepositoriesClient).Get`
  unfoldable pub org_get : OrgRepositoryRef → Exec W UserRepository
  unfolding get_repository slug_or_name validate_org_repository_ref set_org_slug
  org_get ref = do
    lift (check (validate_org_repository_ref c.parse ref c.host))
    api_obj ← get_repository ref.organization_ref.key (slug_or_name ref.slug ref.repository_name)
    pure (record { repository = api_obj; ref = org (set_org_slug api_obj.slug ref) })

  -- `(*UserRepositoriesClient).Get`
  unfoldable pub user_get : UserRepositoryRef → Exec W UserRepository
  unfolding get_repository slug_or_name validate_user_repository_ref validate_user_ref add_tilde
      set_user_slug
  user_get ref = do
    lift (check (validate_user_repository_ref c.parse ref c.host))
    lift (check (validate_user_ref c.parse ref.user_ref c.host))
    api_obj ←
        get_repository (add_tilde ref.user_ref.user_login)
          (slug_or_name ref.slug ref.repository_name)
    pure (record { repository = api_obj; ref = user (set_user_slug api_obj.slug ref) })

  -- `(*OrgRepositoriesClient).List`
  unfoldable pub org_list : OrganizationRef → Exec W (List UserRepository)
  unfolding on_error Repositories.all validate_organization_ref validate_each
      validate_repository_api
  org_list ref = do
    lift (check (validate_organization_ref c.parse ref c.host))
    api_objs ←
        on_error (wrap "failed to list repositories: %w" [])
          (Repositories.all c.client c.json c.fuel ref.key)
    lift (check (validate_each validate_repository_api api_objs))
    pure (
        map
          (λ r. record {
            repository = r;
            ref = org (record { organization_ref = ref; repository_name = r.name; slug = r.slug });
          })
          api_objs)

  -- `(*UserRepositoriesClient).List`
  unfoldable pub user_list : UserRef → Exec W (List UserRepository)
  unfolding on_error Repositories.all validate_user_ref validate_each validate_repository_api
      add_tilde
  user_list ref = do
    lift (check (validate_user_ref c.parse ref c.host))
    api_objs ←
        on_error (wrap "failed to list repositories for %s: %w" (add_tilde ref.user_login ∷ []))
          (Repositories.all c.client c.json c.fuel (add_tilde ref.user_login))
    lift (check (validate_each validate_repository_api api_objs))
    pure (
        map
          (λ r. record {
            repository = r;
            ref = user (record { user_ref = ref; repository_name = r.name; slug = r.slug });
          })
          api_objs)

  -- `(*OrgRepositoriesClient).Create`
  unfoldable pub org_create :
      OrgRepositoryRef → RepositoryInfo → List RepositoryCreateOption → Exec W UserRepository
  unfolding on_error create_repository create_failed validate_org_repository_ref set_org_slug
  org_create ref req opts = do
    lift (check (validate_org_repository_ref c.parse ref c.host))
    api_obj ←
        on_error (create_failed ref.organization_ref.key ref.repository_name)
          (create_repository c ref.organization_ref.key (org ref) req opts)
    pure (record { repository = api_obj; ref = org (set_org_slug api_obj.slug ref) })

  -- `(*UserRepositoriesClient).Create`: in the project of the client's user, whoever the reference
  -- names.
  unfoldable pub user_create :
      UserRepositoryRef → RepositoryInfo → List RepositoryCreateOption → Exec W UserRepository
  unfolding on_error create_repository create_failed validate_user_repository_ref add_tilde
      set_user_slug
  user_create ref req opts = do
    lift (check (validate_user_repository_ref c.parse ref c.host))
    api_obj ←
        on_error (create_failed (add_tilde ref.user_ref.user_login) ref.repository_name)
          (create_repository c (add_tilde c.client.username) (user ref) req opts)
    pure (record {
      repository = api_obj;
      ref = user (record (set_user_slug api_obj.slug ref) {
        user_ref = record (ref.user_ref) { user_login = api_obj.session.user_name };
      });
    })

  -- The branch that is asked for, where it differs from that of the object.
  unfoldable pub branch_to_set : Str → StashRepository → Str
  branch_to_set branch repo =
      if not (is_empty branch) && not (repo.default_branch == branch) then branch else []

  -- `reconcileRepository` where the object was set.
  unfoldable pub apply_set :
      RepositoryInfo → UserRepository × Option Err → Exec W (UserRepository × Bool × Option Err)
  unfolding update branch_to_set updated_outcome project_refs
  apply_set req (u, some e) = pure (u, false, some e)
  apply_set req (u, none) = do
    branch ← lift (deref req.default_branch)
    a ← attempt (
        update c (project_refs u.ref).0 (project_refs u.ref).1 u.repository
          (branch_to_set branch u.repository))
    pure (updated_outcome u a)

  -- the two `reconcileRepository` methods
  unfoldable pub reconcile_repository :
      UserRepository → RepositoryInfo → Exec W (UserRepository × Bool × Option Err)
  unfolding apply_set get set
  reconcile_repository actual req =
      if repository_equals req (get actual)
      then pure (actual, false, none)
      else apply_set req (set req actual)

  -- The shared body of the two `Reconcile` methods behind `Get`, given how the repository is
  -- created and how another error is wrapped.
  unfoldable pub reconcile_attempt :
      (Err → Err) → Exec W UserRepository → RepositoryInfo → Attempt UserRepository → Exec W Outcome
  unfolding created_outcome reconcile_repository
  reconcile_attempt f create req (got u) = do
    v ← reconcile_repository u req
    pure (some v.0, v.1, v.2)
  reconcile_attempt f create req (failed e) =
      let creating : Exec W Outcome = attempt create >>= λ a. pure (created_outcome a) in
      if is_error e not_found then creating else pure (none, false, some (f e))

  -- `(*OrgRepositoriesClient).Reconcile`
  unfoldable pub org_reconcile :
      OrgRepositoryRef → RepositoryInfo → List RepositoryCreateOption → Exec W Outcome
  unfolding reconcile_attempt org_get org_create
  org_reconcile ref req opts =
      attempt (org_get ref)
      >>= reconcile_attempt (wrap "unexpected error when reconciling repository: %w" [])
          (org_create ref req opts) req

  -- `(*UserRepositoriesClient).Reconcile`
  unfoldable pub user_reconcile :
      UserRepositoryRef → RepositoryInfo → List RepositoryCreateOption → Exec W Outcome
  unfolding reconcile_attempt user_get user_create add_tilde
  user_reconcile ref req opts =
      attempt (user_get ref)
      >>= reconcile_attempt
          (wrap "failed to reconcile repository %s/%s: %w"
            (add_tilde ref.user_ref.user_login ∷ ref.repository_name ∷ []))
          (user_create ref req opts) req
