-- ===== src/Stash/Services/PullRequests.antt =====
-- stash/pull_requests.go: `PullRequestsService`. The identifiers and versions are not negative.
use go_git_providers.Prelude.{
  ℕ, Option, none, some, List, [], ◌∷◌, ◌++◌, Str, codes, ◌==◌, nat_eq, list_eq, if◌then◌else◌,
}
use go_git_providers.Errors.{Err, sentinel, foreign, stash_not_found}
use go_git_providers.Strings.{itoa}
use go_git_providers.Exec.{Exec, check, lift, pure, ◌>>=◌, ◌>>◌}
use go_git_providers.Stash.Http.{
  HttpResponse, RestClient, RequestOptionFunc, with_query, with_body, with_header, get_method,
  post_method, put_method, delete_method,
}
use go_git_providers.Stash.Types.{
  Session, session_of, Page, empty_page, PagingOptions, Codecs, CreatePullRequest, PullRequest,
  no_pull_request, IdVersion, Encoded, encoded, unsupported,
}
use go_git_providers.Stash.Paging.{new_uri, add_paging, all_pages, first_page}
use go_git_providers.Stash.Services.{
  not_found_guard, both_guards, no_guard, decode, on_values, json_header, marshalled, exchange,
  fetch, run,
}
use go_git_providers.Stash.Services.Repositories.{repositories_path}

abbrev pull_requests_uri : Str
pull_requests_uri = codes "pull-requests"

abbrev merge_uri : Str
merge_uri = codes "merge"

abbrev pub set_session : Session → PullRequest → PullRequest
set_session session pr = record pr { session = session }

abbrev pulls_path : Str → Str → List Str → Str
pulls_path project_key repository_slug more =
    repositories_path project_key (repository_slug ∷ pull_requests_uri ∷ more)

-- The guard of `Update`; the error text shows the body.
unfoldable pub update_guard : Str → HttpResponse → Option Err
unfolding itoa
update_guard bytes resp =
    if resp.status_code == 200
    then none
    else if resp.status_code == 404
    then some (sentinel stash_not_found)
    else some (
        foreign (
          codes "update failed with status code "
          ++ itoa resp.status_code
          ++ codes ", error: "
          ++ bytes))

-- `WithBody(body)` in `Delete`, where the error of `marshallBody` is ignored: its body is then nil.
unfoldable pub with_version : Encoded → List RequestOptionFunc
unfolding with_body
with_version (encoded s) = with_body s ∷ []
with_version (unsupported reason) = []

module _ {W : Type 0} (c : RestClient W) (j : Codecs) where
  -- `(*PullRequestsService).List`
  unfoldable pub list : Str → Str → Option PagingOptions → Exec W (Page PullRequest)
  unfolding fetch on_values not_found_guard with_query add_paging new_uri
  list project_key repository_slug opts =
      fetch c
        (record {
          creation = "list pull requests request creation failed: %w";
          call = "list pull requests failed: %w";
          decoding = "list pull requests failed, unable to unmarshal pull request list json: %w";
        })
        j.pull_requests empty_page not_found_guard (on_values set_session) get_method
        (pulls_path project_key repository_slug []) (with_query (add_paging [] opts) ∷ [])

  -- `(*PullRequestsService).All`
  unfoldable pub all : ℕ → Str → Str → Exec W (List PullRequest)
  unfolding all_pages list
  all fuel project_key repository_slug =
      all_pages (λ opts. list project_key repository_slug (some opts)) fuel first_page []

  -- `(*PullRequestsService).Get`
  unfoldable pub get : Str → Str → ℕ → Exec W PullRequest
  unfolding fetch not_found_guard new_uri itoa
  get project_key repository_slug pr_id =
      fetch c
        (record {
          creation = "get pull request request creation failed: %w";
          call = "get pull request failed: %w";
          decoding = "get pull request failed, unable to unmarshal pull request json: %w";
        })
        j.pull_request no_pull_request not_found_guard set_session get_method
        (pulls_path project_key repository_slug (itoa pr_id ∷ [])) []

  -- `(*PullRequestsService).Create`
  unfoldable pub create : Str → Str → CreatePullRequest → Exec W PullRequest
  unfolding marshalled fetch with_body with_header new_uri
  create project_key repository_slug pr = do
    body ←
        lift (marshalled (codes "failed to marshall pull request: ") (j.of_create_pull_request pr))
    fetch c
        (record {
          creation = "create pull request request creation failed: %w";
          call = "create pull request failed: %w";
          decoding = "create pull request failed, unable to unmarshal pull json: %w";
        })
        j.pull_request no_pull_request no_guard set_session post_method
        (pulls_path project_key repository_slug []) (with_body body ∷ with_header json_header ∷ [])

  -- `(*PullRequestsService).Update`
  unfoldable pub update : Str → Str → PullRequest → Exec W PullRequest
  unfolding marshalled exchange update_guard decode with_body with_header new_uri itoa
  update project_key repository_slug pr = do
    body ← lift (marshalled (codes "failed to marshall pull request: ") (j.of_pull_request pr))
    reply ←
        exchange c
          (record {
            creation = "update pull request creation failed: %w";
            call = "update pull failed: %w";
            decoding = "create pull request failed, unable to unmarshal pull request json: %w";
          })
          put_method (pulls_path project_key repository_slug (itoa pr.id_version.id ∷ []))
          (with_body body ∷ with_header json_header ∷ [])
    lift (check (update_guard reply.bytes reply.resp))
    p ← lift (
        decode "create pull request failed, unable to unmarshal pull request json: %w"
          j.pull_request no_pull_request reply.bytes)
    pure (set_session (session_of reply.resp) p)

  -- `(*PullRequestsService).Merge`
  unfoldable pub merge : Str → Str → ℕ → ℕ → Exec W PullRequest
  unfolding fetch both_guards with_query with_header new_uri itoa
  merge project_key repository_slug pr_id version =
      fetch c
        (record {
          creation = "merge pull request request creation failed: %w";
          call = "merge pull request failed: %w";
          decoding = "merge pull  request failed, unable to unmarshal pull request json: %w";
        })
        j.pull_request no_pull_request (both_guards (codes "list commits failed: ")) set_session
        post_method (pulls_path project_key repository_slug (itoa pr_id ∷ merge_uri ∷ []))
        (with_query ((codes "version", itoa version) ∷ [])
          ∷ with_header ((codes "X-Atlassian-Token", codes "no-check") ∷ [])
          ∷ [])

  -- `(*PullRequestsService).Delete`
  unfoldable pub delete : Str → Str → IdVersion → Exec W Unit
  unfolding run not_found_guard with_version with_header new_uri itoa
  delete project_key repository_slug id_version =
      run c
        (record {
          creation = "delete pull request frequest creation failed: %w";
          call = "delete pull request for repository failed: %w";
          decoding = "";
        })
        not_found_guard delete_method
        (pulls_path project_key repository_slug (itoa id_version.id ∷ []))
        (with_version (j.of_version id_version.version) ++ with_header json_header ∷ [])
