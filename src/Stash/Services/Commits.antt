-- ===== src/Stash/Services/Commits.antt =====
-- stash/commits.go: `CommitsService`. The numbers of pages are not negative.
pub mod Window
use go_git_providers.Prelude.{
  ℕ, Bool, true, false, not, ◌&&◌, Option, none, some, List, [], ◌∷◌, ◌++◌, ◌+◌, ◌*◌, Str, codes,
  ◌==◌, nat_eq, list_eq, is_empty, if◌then◌else◌, leb, String,
}
use go_git_providers.Errors.{Err, wrap, sentinel, foreign, stash_not_found, or_else}
use go_git_providers.Strings.{itoa}
use go_git_providers.Exec.{Result, ok, err, Exec, check, lift, pure, ◌>>=◌, ◌>>◌}
use go_git_providers.Stash.Http.{
  HttpResponse, Pairs, RestClient, RequestOptionFunc, with_query, with_body, with_header,
  get_method, post_method, put_method, delete_method,
}
use go_git_providers.Stash.Types.{
  Session, session_of, StashRepository, Page, empty_page, PagingOptions, Codecs, GroupPermission,
  UserPermission, Project, User, no_user, Group, Branch, no_branch, NewBranch, CommitObject,
  no_commit, DeployKey, no_deploy_key, CreatePullRequest, PullRequest, no_pull_request, IdVersion,
  Encoded, encoded, unsupported,
}
use go_git_providers.Stash.Paging.{new_uri, new_keys_uri, add_paging, all_pages, first_page}
use go_git_providers.Stash.Services.{
  Texts, not_found_guard, bad_request_guard, both_guards, no_guard, decode, on_values, json_header,
  marshalled, exchange, exchange_with, fetch, run,
}
use go_git_providers.Stash.Services.Repositories.{projects_uri, repositories_uri, repositories_path}

abbrev pub commits_uri : Str
commits_uri = codes "commits"

abbrev pub set_session : Session → CommitObject → CommitObject
set_session session k = record k { session = session }

-- `if branch != "" { values.Add("until", branch) }`
unfoldable pub until_branch : Str → Pairs
until_branch branch = if is_empty branch then [] else (codes "until", branch) ∷ []

-- Where `ListPage` lets a page start.
unfoldable pub page_start : ℕ → ℕ → ℕ
page_start per_page page = if page == 0 then 0 else per_page * page + 1

module _ {W : Type 0} (c : RestClient W) (j : Codecs) where
  -- `(*CommitsService).List`
  unfoldable pub list : Str → Str → Str → Option PagingOptions → Exec W (Page CommitObject)
  unfolding fetch on_values both_guards with_query add_paging new_uri until_branch
  list project_key repository_slug branch opts =
      fetch c
        (record {
          creation = "list commits request creation failed: %w";
          call = "list commits failed: %w";
          decoding = "list commits for repository failed, unable to unmarshall repository json: %w";
        })
        j.commits empty_page (both_guards (codes "list commits failed: ")) (on_values set_session)
        get_method (repositories_path project_key (repository_slug ∷ commits_uri ∷ []))
        (with_query (add_paging (until_branch branch) opts) ∷ [])

  -- `(*CommitsService).ListPage`
  unfoldable pub list_page : Str → Str → Str → ℕ → ℕ → Exec W (List CommitObject)
  unfolding list page_start
  list_page project_key repository_slug branch per_page page = do
    commits ←
        list project_key repository_slug branch
          (some (record { start = page_start per_page page; limit = per_page }))
    pure commits.values

  -- `(*CommitsService).Get`
  unfoldable pub get : Str → Str → Str → Exec W CommitObject
  unfolding fetch both_guards new_uri
  get project_key repository_slug commit_id =
      fetch c
        (record {
          creation = "get commit request creation failed: %w";
          call = "get commit failed: %w";
          decoding = "get commit failed, unable to unmarshall json: %w";
        })
        j.commit no_commit (both_guards (codes "get commits failed: ")) set_session get_method
        (repositories_path project_key (repository_slug ∷ commits_uri ∷ commit_id ∷ [])) []
