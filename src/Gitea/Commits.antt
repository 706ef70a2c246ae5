-- ===== src/Gitea/Commits.antt =====
-- gitea/client_repository_commit.go and gitea/resource_commit.go: the listing of commits.
pub mod Window
use go_git_providers.Prelude.{ℕ, Option, none, some, List, [], Str}
use go_git_providers.Exec.{Result, ok, and_then, deref, Exec}
use go_git_providers.Gitprovider.Contents.{CommitInfo}
use go_git_providers.Github.Repository.{Ref, identity, repository}
use go_git_providers.Gitea.Api.{Commit, ListCommitOptions, PageCall, ClientContext}
use go_git_providers.Gitea.Util.{all_pages}

abbrev text_or_empty : Option Str → Str
text_or_empty none = []
text_or_empty (some s) = s

-- `commitFromAPI`; the author is dereferenced.
unfoldable pub commit_from_api : Commit → Result CommitInfo
commit_from_api c = and_then (deref c.author) λ author. ok (record {
  sha = c.sha;
  tree_sha = text_or_empty c.tree_sha;
  author = author.0;
  message = text_or_empty c.message;
  created_at = author.1;
  url = c.url;
})

module _ {W : Type 0} (c : ClientContext W) (ref : Ref) where
  -- The call for a page: `allPages` sets the page of the options.
  unfoldable pub commit_pages : ListCommitOptions → PageCall W Commit
  commit_pages opts page =
      c.api.list_repo_commits (identity ref) (repository ref) (record opts { page = page })

  -- `listCommits`
  unfoldable pub list_commits : Str → ℕ → ℕ → Exec W (List Commit)
  unfolding commit_pages all_pages
  list_commits branch per_page page =
      all_pages c (commit_pages (record { page_size = per_page; page = page; sha = branch }))

  -- `(*CommitClient).ListPage`, on `listPage`
  unfoldable pub list_page : Str → ℕ → ℕ → Exec W (List Commit)
  unfolding list_commits
  list_page branch per_page page = list_commits branch per_page page
