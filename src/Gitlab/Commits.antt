-- ===== src/Gitlab/Commits.antt =====
-- gitlab/client_repository_commit.go, gitlab/resource_commit.go and
-- gitlab/client_repository_branch.go: commits and branches.
use go_git_providers.Prelude.{
  ℕ, Option, none, some, List, [], map, Str, codes, is_empty, if◌then◌else◌,
}
use go_git_providers.Errors.{foreign}
use go_git_providers.Exec.{Result, ok, and_then, deref, Exec, fail}
use go_git_providers.Gitprovider.Contents.{CommitInfo, CommitFile}
use go_git_providers.Github.Repository.{Ref}
use go_git_providers.Gitlab.Api.{Commit, CommitActionOptions}
use go_git_providers.Gitlab.Client.{list_commits_page}
use go_git_providers.Gitlab.Context.{ClientContext}
use go_git_providers.Gitlab.Util.{get_repo_path}

-- `commitFromAPI`; the time is dereferenced.
unfoldable pub commit_from_api : Commit → Result CommitInfo
commit_from_api c = and_then (deref c.created_at) λ created_at. ok (record {
  sha = c.id;
  tree_sha = [];
  author = c.author_name;
  message = c.message;
  created_at = created_at;
  url = c.web_url;
})

-- `gitlab.FileCreate`, or `gitlab.FileDelete` where there is no content
unfoldable pub file_action : Option Str → Str
file_action none = codes "delete"
file_action (some content) = codes "create"

unfoldable pub commit_action : CommitFile → CommitActionOptions
unfolding file_action
commit_action f = record { action = file_action f.content; file_path = f.path; content = f.content }

module _ {W : Type 0} (c : ClientContext W) (ref : Ref) where
  -- `(*CommitClient).ListPage`, on `listPage`
  unfoldable pub list_page : Str → ℕ → ℕ → Exec W (List Commit)
  list_page branch per_page page = list_commits_page c (get_repo_path ref) branch per_page page

  -- `(*CommitClient).Create`
  unfoldable pub create : Str → Str → List CommitFile → Exec W Commit
  unfolding commit_action
  create branch message files =
      if is_empty files
      then fail (foreign (codes "no files added"))
      else c.api.commits_create (get_repo_path ref)
          (record { branch = branch; commit_message = message; actions = map commit_action files })

  -- `(*BranchClient).Create`
  unfoldable pub branch_create : Str → Str → Exec W Unit
  branch_create branch sha = c.api.branches_create (get_repo_path ref) branch sha
