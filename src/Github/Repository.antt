-- ===== src/Github/Repository.antt =====
-- github/resource_repository.go: the repository object with its mutable state. A method takes the
-- object and returns it as it is afterwards.
use go_git_providers.Prelude.{Bool, true, false, Option, none, some, [], Str, if◌then◌else◌}
use go_git_providers.Errors.{Err, is_error, not_found}
use go_git_providers.Exec.{Exec, lift, pure, Attempt, got, failed, attempt, ◌>>=◌}
use go_git_providers.Gitprovider.Info.{RepositoryInfo, repository_validate_info}
use go_git_providers.Gitprovider.Refs.{OrgRepositoryRef, UserRepositoryRef, organization_identity}
use go_git_providers.Github.Api.{Repository}
use go_git_providers.Github.Client.{mark_private, get_repo, create_repo, update_repo, delete_repo}
use go_git_providers.Github.Context.{ClientContext}
use go_git_providers.Github.Spec.{
  new_github_repository_spec, spec_equals, update_github_repository,
  update_api_obj_with_repository_info, repository_from_api,
}

-- The two structs that the object's `ref` can be.
pub data Ref : Type 0 where
  org : OrgRepositoryRef → Ref
  user : UserRepositoryRef → Ref

unfoldable pub identity : Ref → Str
identity (org r) = organization_identity r.organization_ref
identity (user r) = r.user_ref.user_login

unfoldable pub repository : Ref → Str
repository (org r) = r.repository_name
repository (user r) = r.repository_name

-- `orgRef.Organization` for an `OrgRepositoryRef`, else `""`
unfoldable pub org_name : Ref → Str
org_name (org r) = r.organization_ref.organization
org_name (user r) = []

-- `userRepository`, which `orgRepository` embeds
pub record UserRepository : Type 0 where
  pub r : Repository
  pub top_update : Option Repository
  pub ref : Ref

-- `newUserRepository`
abbrev pub new_user_repository : Repository → Ref → UserRepository
new_user_repository api_obj ref = record { r = api_obj; top_update = none; ref = ref }

-- `(*userRepository).Get`
unfoldable pub get : UserRepository → RepositoryInfo
unfolding repository_from_api
get u = repository_from_api u.r

-- `(*userRepository).Set`
unfoldable pub set : RepositoryInfo → UserRepository → UserRepository × Option Err
set info u = elim (repository_validate_info info) [
  | some e ↦ (u, some e)
  | none ↦ (record u { top_update = some (update_api_obj_with_repository_info info u.r) }, none)
]

-- How a call ends that overwrites the API object on success.
unfoldable pub overwrite : UserRepository → Attempt Repository → UserRepository × Option Err
overwrite u (failed e) = (u, some e)
overwrite u (got api_obj) = (record u { r = api_obj }, none)

module _ {W : Type 0} (c : ClientContext W) where
  -- `(*userRepository).Update`
  unfoldable pub update : UserRepository → Exec W (UserRepository × Option Err)
  unfolding overwrite
  update u = do
    a ← attempt (update_repo c (identity u.ref) (repository u.ref) u.top_update)
    pure (overwrite u a)

  -- The branch of `Reconcile` that creates the repository. `CreateRepo` sets the field `Private`
  -- of the object that it is given.
  unfoldable pub create_missing : UserRepository → Exec W (UserRepository × Bool × Option Err)
  unfolding overwrite
  create_missing u = do
    r ← lift (mark_private u.r)
    a ← attempt (create_repo c (org_name u.ref) u.r)
    let v = overwrite (record u { r = r }) a
    pure (v.0, true, v.1)

  -- The branch of `Reconcile` for a repository that exists.
  unfoldable pub reconcile_found :
      UserRepository → Repository → Exec W (UserRepository × Bool × Option Err)
  unfolding update
  reconcile_found u api_obj =
      let desired = new_github_repository_spec u.r in
      let actual = new_github_repository_spec api_obj in
      let top =
        update_github_repository (record { address = 0; value = desired })
          (record { address = 1; value = actual }) in
      let change : Exec W (UserRepository × Bool × Option Err) =
        update (record u { top_update = some top }) >>= λ v. pure (v.0, true, v.1) in
      if spec_equals desired actual then pure (u, false, none) else change

  unfoldable pub reconcile_after :
      UserRepository → Attempt Repository → Exec W (UserRepository × Bool × Option Err)
  unfolding create_missing reconcile_found
  reconcile_after u (got api_obj) = reconcile_found u api_obj
  reconcile_after u (failed e) =
      if is_error e not_found then create_missing u else pure (u, false, some e)

  -- `(*userRepository).Reconcile`
  unfoldable pub reconcile : UserRepository → Exec W (UserRepository × Bool × Option Err)
  unfolding reconcile_after
  reconcile u = attempt (get_repo c (identity u.ref) (repository u.ref)) >>= reconcile_after u

  -- `(*userRepository).Delete`
  unfoldable pub delete : UserRepository → Exec W Unit
  delete u = delete_repo c (identity u.ref) (repository u.ref)
