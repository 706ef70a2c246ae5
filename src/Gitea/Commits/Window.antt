-- ===== src/Gitea/Commits/Window.antt =====
-- `ListPage` does not list a page.
use go_git_providers.Prelude.{ℕ, ◌≤◌, ◌≡◌, List, [], Str}
use go_git_providers.Exec.{ok}
use go_git_providers.Github.Repository.{Ref, identity, repository}
use go_git_providers.Gitea.Api.{Commit, ClientContext}
use go_git_providers.Gitea.Commits.{list_page, commit_pages}
use go_git_providers.Gitea.Util.{all_pages}
use go_git_providers.Gitea.Util.Pages.{Chain, pages_from-Chain}

module _ {W : Type 0} (c : ClientContext W) (ref : Ref) where
  -- Whatever page is asked for, `ListPage` returns the commits of all pages from the first on, where
  -- the fuel lasts for them.
  pub list_page-Chain :
      (branch : Str) (per_page page : ℕ) {n : ℕ} {w v : W} {objs : List Commit}
      → Chain c
          (λ p.
            c.api.list_repo_commits
              (identity ref)
              (repository ref)
              (record { page_size = per_page; page = p; sha = branch }))
          n
          1
          w
          objs
          v
      → n ≤ c.fuel
      → list_page c ref branch per_page page w ≡ (ok objs, v)
  unfolding list_page all_pages
  list_page-Chain branch per_page page h k =
      pages_from-Chain c
        (commit_pages c ref (record { page_size = per_page; page = page; sha = branch })) c.fuel []
        h k
