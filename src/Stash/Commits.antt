-- ===== src/Stash/Commits.antt =====
-- stash/client_repository_branch.go and stash/client_repository_commit.go: branches and commits that
-- are made in a clone of the repository and pushed.
pub mod Dropped
use go_git_providers.Prelude.{Option, none, some, List, [], ◌∷◌, Str, codes}
use go_git_providers.Errors.{wrap}
use go_git_providers.Exec.{Result, ok, err, panic, out_of_fuel, Exec, pure, ◌>>=◌, ◌>>◌}
use go_git_providers.Github.Repository.{Ref}
use go_git_providers.Stash.Types.{StashRepository, User, CommitObject}
use go_git_providers.Stash.Services.{on_error}
use go_git_providers.Stash.Services.Repositories
use go_git_providers.Stash.Services.Users
use go_git_providers.Stash.Services.Commits
use go_git_providers.Stash.Git.{
  CommitFile, CreateCommit, GitCommitOptionsFunc, with_author, with_message, with_url, with_files,
  new_commit, create_commit, get_repo_http_ref,
}
use go_git_providers.Stash.Context.{StashContext, project_refs}

-- `commit, err := NewCommit(…)` where `err` is overwritten by the next call: nil beside an error.
unfoldable pub unless_failed : Result CreateCommit → Option CreateCommit
unless_failed (ok c) = some c
unless_failed _ = none

-- The commit of a user with a message, at the address of the repository.
unfoldable pub commit_of : User → Str → Str → List GitCommitOptionsFunc → Option CreateCommit
unfolding unless_failed new_commit with_author with_message with_url
commit_of u message url more = unless_failed (
    new_commit (
      with_author (record { date = 0; name = u.name; email = u.email_address })
      ∷ with_message message
      ∷ with_url url
      ∷ more))

module _ {W : Type 0} (c : StashContext W) (ref : Ref) where
  -- The repository and its user, with which both methods begin.
  unfoldable pub repository_and_user : Exec W (StashRepository × User)
  unfolding on_error Repositories.get Users.get project_refs
  repository_and_user = do
    repo ←
        on_error
          (wrap "failed to get repository %s/%s: %w"
            ((project_refs ref).0 ∷ (project_refs ref).1 ∷ []))
          (Repositories.get c.client c.json (project_refs ref).0 (project_refs ref).1)
    u ←
        on_error (wrap "failed to get user %s: %w" (repo.session.user_name ∷ []))
          (Users.get c.client c.json repo.session.user_name)
    pure (repo, u)

  -- `(*BranchClient).Create`
  unfoldable pub branch_create : Str → Str → Exec W Unit
  unfolding repository_and_user on_error commit_of create_commit get_repo_http_ref
  branch_create branch sha = do
    p ← repository_and_user
    let url = get_repo_http_ref p.0.clone
    r ← on_error (wrap "failed to clone repository: %w" []) (c.git.clone_repository url)
    on_error (wrap "failed to create branch: %w" []) (c.git.create_branch branch r sha)
    on_error (wrap "failed to create commit: %w" [])
        (create_commit c.git r [] (commit_of p.1 (codes "Create branch") url []))
    on_error (wrap "failed to push commit: %w" []) (c.git.push r)
    on_error (wrap "failed to cleanup: %w" []) (c.git.cleanup r.dir)

  -- `(*CommitClient).Create`
  unfoldable pub commit_create : Str → Str → List CommitFile → Exec W CommitObject
  unfolding repository_and_user on_error commit_of create_commit get_repo_http_ref with_files
      Commits.get project_refs
  commit_create branch message files = do
    p ← repository_and_user
    let url = get_repo_http_ref p.0.clone
    r ← on_error (wrap "failed to clone repository %s: %w" (url ∷ [])) (c.git.clone_repository url)
    sha ←
        on_error (wrap "failed to create commit: %w" [])
          (create_commit c.git r branch (commit_of p.1 message url (with_files files ∷ [])))
    on_error (wrap "failed to push commit: %w" []) (c.git.push r)
    commit ←
        on_error (wrap "failed to get commit %s: %w" (sha ∷ []))
          (Commits.get c.client c.json (project_refs ref).0 (project_refs ref).1 sha)
    on_error (wrap "failed to cleanup repository: %w" []) (c.git.cleanup r.dir)
    pure commit
