-- ===== src/Stash/Repositories/Init.antt =====
-- stash/client_repositories_org.go: a new repository whose first commit cannot be made.
use go_git_providers.Prelude.{◌≡◌, true, false, Option, none, List, [], ◌∷◌, Str}
use go_git_providers.Errors.{Err}
use go_git_providers.Exec.{ok, err}
use go_git_providers.Gitprovider.Enums.License.{LicenseTemplate}
use go_git_providers.Gitprovider.Info.{RepositoryInfo, repository_info, validate_and_default_info}
use go_git_providers.Gitprovider.Options.{RepositoryCreateOption, make_repository_create_options}
use go_git_providers.Github.Repository.{Ref}
use go_git_providers.Stash.Types.{StashRepository, User}
use go_git_providers.Stash.Services.{on_error, map_error}
use go_git_providers.Stash.Services.Repositories
use go_git_providers.Stash.Services.Users
use go_git_providers.Stash.Git.{CommitFile, CreateCommit, with_files}
use go_git_providers.Stash.Context.{StashContext}
use go_git_providers.Stash.Repository.{repository_to_api}
use go_git_providers.Stash.Repositories.Create.{
  create_repository, initialize, wants_init, auto_init, init_repo, init_pushed, init_failed,
  initial_commit, readme, needs_branch, license_files,
}

module _ {W : Type 0} (c : StashContext W) where
  -- The first commit cannot be set up, and the repository is deleted for that: the error is lost.
  auto_init-deleted :
      (org_key branch : Str) (repo : StashRepository) (u : User) (commit : CreateCommit) (e : Err)
      (license : List CommitFile) (w v x y : W)
      → needs_branch branch ≡ false
      → initial_commit repo u (with_files (readme c repo ∷ license) ∷ []) ≡ ok commit
      → c.git.init_repository commit true v ≡ (err e, x)
      → Repositories.delete c.client c.json repo.project.key repo.slug x ≡ (ok tt, y)
      → (template : Option LicenseTemplate) → license_files c template w ≡ (ok license, v)
      → auto_init c org_key branch template repo u w ≡ (ok repo, y)
  unfolding auto_init init_repo init_pushed init_failed on_error map_error
  auto_init-deleted org_key branch repo u commit e license w v x y n i g d template l =
      rw (l, i, g, d, n)

  -- `createRepository` with `AutoInit`, with a license or without, for a request that is accepted and
  -- whose default branch need not be made: it is empty or `master`. The server creates the
  -- repository and knows its user, but the worktree of the first commit cannot be set up, and the
  -- repository is deleted for that. `createRepository` then returns the deleted repository, without
  -- an error.
  pub create_repository-deleted :
      (org_key : Str) (ref : Ref) (req req' : RepositoryInfo) (opts : List RepositoryCreateOption)
      (repo : StashRepository) (u : User) (license : List CommitFile) (commit : CreateCommit)
      (e : Err) (w created known licensed failed deleted : W)
      → validate_and_default_info req ≡ ok req'
      → (make_repository_create_options opts).1 ≡ none
      → wants_init (make_repository_create_options opts).0.auto_init ≡ true
      → needs_branch (repository_to_api req' ref).default_branch ≡ false
      → Repositories.create c.client c.json org_key (repository_to_api req' ref) w
        ≡ (ok repo, created)
      → Users.get c.client c.json repo.session.user_name created ≡ (ok u, known)
      → license_files c (make_repository_create_options opts).0.license_template known
        ≡ (ok license, licensed)
      → initial_commit repo u (with_files (readme c repo ∷ license) ∷ []) ≡ ok commit
      → c.git.init_repository commit true licensed ≡ (err e, failed)
      → Repositories.delete c.client c.json repo.project.key repo.slug failed ≡ (ok tt, deleted)
      → create_repository c org_key ref req opts w ≡ (ok repo, deleted)
  unfolding create_repository initialize on_error map_error
  create_repository-deleted org_key ref req req' opts repo u license commit e w created known
        licensed failed deleted v o a n k g l i f d =
      let z =
        auto_init-deleted org_key (repository_to_api req' ref).default_branch repo u commit e
          license known licensed failed deleted n i f d
          (make_repository_create_options opts).0.license_template l in
      rw (v, o, k, g, a) z
