-- ===== src/Stash/Repository.antt =====
-- stash/resource_repository.go: the repository object with its mutable state; the calls that change
-- a repository, of stash/client_repositories_org.go, which objects and clients share. A method takes
-- the object and returns it as it is afterwards.
pub mod Public
use go_git_providers.Prelude.{
  Bool, true, false, ◌&&◌, not, Option, none, some, List, [], ◌∷◌, ◌++◌, Str, codes, is_empty, ◌==◌,
  nat_eq, list_eq, if◌then◌else◌,
}
use go_git_providers.Errors.{Err, wrap, or_else}
use go_git_providers.Exec.{Exec, pure, Attempt, got, failed, attempt, ◌>>=◌, ◌>>◌}
use go_git_providers.Gitprovider.Enums.Visibility
use go_git_providers.Gitprovider.Info.{RepositoryInfo, repository_validate_info}
use go_git_providers.Github.Repository.{Ref, org, user, repository}
use go_git_providers.Stash.Types.{StashRepository, no_repository}
use go_git_providers.Stash.Services.{on_error}
use go_git_providers.Stash.Services.Repositories
use go_git_providers.Stash.Services.Branches
use go_git_providers.Stash.Context.{StashContext, project_refs}

-- `userRepository`, which `orgRepository` embeds
pub record UserRepository : Type 0 where
  pub repository : StashRepository
  pub ref : Ref

-- `repositoryFromAPI`
unfoldable pub repository_from_api : StashRepository → RepositoryInfo
repository_from_api api_obj = record {
  description = some api_obj.description;
  default_branch = some api_obj.default_branch;
  visibility = some (if api_obj.public then Visibility.public else Visibility.private);
}

-- `*p` if it is not nil, else what was there
abbrev or_keep : {A : Type 0} → Option A → A → A
or_keep none a = a
or_keep (some b) a = b

-- `string(*repo.Visibility) == "true"`
unfoldable pub public_of : Option Str → Bool → Bool
public_of none public = public
public_of (some visibility) public = visibility == codes "true"

-- `repositoryInfoToAPIObj`
unfoldable pub repository_info_to_api_obj : RepositoryInfo → StashRepository → StashRepository
unfolding public_of
repository_info_to_api_obj repo api_obj = record api_obj {
  description = or_keep repo.description api_obj.description;
  public = public_of repo.visibility api_obj.public;
  default_branch = or_keep repo.default_branch api_obj.default_branch;
}

-- `repositoryToAPI`
unfoldable pub repository_to_api : RepositoryInfo → Ref → StashRepository
unfolding repository_info_to_api_obj repository
repository_to_api repo ref =
    repository_info_to_api_obj repo
      (record no_repository { name = repository ref; scm_id = codes "git" })

-- `(*userRepository).Get`
unfoldable pub get : UserRepository → RepositoryInfo
unfolding repository_from_api
get u = repository_from_api u.repository

-- `(*userRepository).Set`
unfoldable pub set : RepositoryInfo → UserRepository → UserRepository × Option Err
unfolding repository_info_to_api_obj
set info u = elim (repository_validate_info info) [
  | some e ↦ (u, some e)
  | none ↦ (record u { repository = repository_info_to_api_obj info u.repository }, none)
]

-- `fmt.Sprintf("refs/heads/%s", branch)`
abbrev pub heads : Str → Str
heads branch = codes "refs/heads/" ++ branch

module _ {W : Type 0} (c : StashContext W) where
  -- The second half of `update`: the default branch of what the server answered.
  unfoldable pub update_default_branch : Str → Str → Str → StashRepository → Exec W StashRepository
  unfolding on_error Branches.set_default
  update_default_branch org_key repo_slug branch_id api_obj =
      let change : Exec W StashRepository =
        on_error (wrap "failed to update default branch: %w" [])
          (Branches.set_default c.client c.json org_key repo_slug (heads branch_id))
        >> pure (record api_obj { default_branch = branch_id }) in
      if is_empty branch_id then pure api_obj else change

  -- `update`
  unfoldable pub update : Str → Str → StashRepository → Str → Exec W StashRepository
  unfolding on_error Repositories.update update_default_branch
  update org_key repo_slug repository branch_id = do
    api_obj ←
        on_error (wrap "failed to update repository: %w" [])
          (Repositories.update c.client c.json org_key repo_slug repository)
    update_default_branch org_key repo_slug branch_id
        (record api_obj { default_branch = repository.default_branch })

  -- `deleteRepository`
  unfoldable pub delete_repository : Str → Str → Exec W Unit
  unfolding on_error Repositories.delete
  delete_repository org_key repo_slug =
      on_error (wrap "failed to delete repository: %w" [])
        (Repositories.delete c.client c.json org_key repo_slug)

  -- How `Update` ends.
  unfoldable pub overwrite : UserRepository → Attempt StashRepository → UserRepository × Option Err
  overwrite u (failed e) = (u, some e)
  overwrite u (got api_obj) = (record u { repository = api_obj }, none)

  -- `Update` of `userRepository` and of `orgRepository`
  unfoldable pub update_object : UserRepository → Exec W (UserRepository × Option Err)
  unfolding update overwrite project_refs
  update_object u = do
    a ← attempt (update (project_refs u.ref).0 (project_refs u.ref).1 u.repository [])
    pure (overwrite u a)

  -- `Delete` of `userRepository` and of `orgRepository`
  unfoldable pub delete_object : UserRepository → Exec W Unit
  unfolding delete_repository project_refs
  delete_object u = delete_repository (project_refs u.ref).0 (project_refs u.ref).1
