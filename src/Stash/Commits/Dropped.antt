-- ===== src/Stash/Commits/Dropped.antt =====
-- stash/client_repository_commit.go: a commit that `NewCommit` refuses.
use go_git_providers.Prelude.{◌≡◌, refl, ◌⊎◌, inl, inr, none, List, [], ◌∷◌, Str, codes}
use go_git_providers.Errors.{wrap, foreign}
use go_git_providers.Exec.{ok, err}
use go_git_providers.Github.Repository.{Ref}
use go_git_providers.Stash.Types.{StashRepository, User}
use go_git_providers.Stash.Services.{on_error, map_error}
use go_git_providers.Stash.Git.{
  CommitFile, Worktree, with_files, apply_commit_options, create_commit, get_repo_http_ref,
}
use go_git_providers.Stash.Context.{StashContext}
use go_git_providers.Stash.Commits.{commit_of, repository_and_user, commit_create}

-- A commit without a message, or without files, is nil.
commit_of-none :
    (u : User) (message url : Str) (files : List CommitFile)
    → (message ≡ []) ⊎ (files ≡ [])
    → commit_of u message url (with_files files ∷ []) ≡ none
unfolding commit_of apply_commit_options with_files
commit_of-none u message url files (inl e) = rw e
commit_of-none u [] url files (inr e) = refl
commit_of-none u (b ∷ message) [] files (inr e) = refl
commit_of-none u (b ∷ message) (d ∷ url) files (inr e) = rw e

module _ {W : Type 0} (c : StashContext W) (ref : Ref) where
  -- `(*CommitClient).Create` with an empty message or with no files, where the repository, its user
  -- and a clone can be had: the error of `NewCommit` is replaced by `commit must be provided`, and
  -- nothing is done behind the clone, which stays where it is.
  pub commit_create-dropped :
      (branch message : Str) (files : List CommitFile) (repo : StashRepository) (u : User)
      (r : Worktree) (w x y : W)
      → (message ≡ []) ⊎ (files ≡ [])
      → repository_and_user c ref w ≡ (ok (repo, u), x)
      → c.git.clone_repository (get_repo_http_ref repo.clone) x ≡ (ok r, y)
      → commit_create c ref branch message files w ≡ (
        err (wrap "failed to create commit: %w" [] (foreign (codes "commit must be provided"))),
        y,
      )
  unfolding commit_create create_commit on_error map_error
  commit_create-dropped branch message files repo u r w x y h p q =
      rw (p, q, commit_of-none u message (get_repo_http_ref repo.clone) files h)
