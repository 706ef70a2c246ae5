-- ===== src/Gitlab/PullRequests.antt =====
-- gitlab/client_repository_pullrequest.go and gitlab/resource_pullrequest.go: merge requests. The
-- pauses between two polls are not modelled.
pub mod Polls
use go_git_providers.Prelude.{
  ℕ, zero, suc, Bool, true, false, Option, none, some, List, [], ◌∷◌, Str, codes, ◌==◌, nat_eq,
  list_eq, if◌then◌else◌,
}
use go_git_providers.Errors.{Err, foreign}
use go_git_providers.Exec.{Exec, lift, pure, fail, Attempt, got, failed, attempt, ◌>>=◌, ◌>>◌}
use go_git_providers.Gitprovider.Contents.{
  PullRequestInfo, MergeMethod, merge_method_merge, merge_method_squash,
}
use go_git_providers.Github.Repository.{Ref}
use go_git_providers.Gitlab.Api.{MergeRequest, AcceptMergeRequestOptions}
use go_git_providers.Gitlab.Context.{ClientContext}
use go_git_providers.Gitlab.Util.{get_repo_path}

abbrev pub merge_status_checking : Str
merge_status_checking = codes "checking"

abbrev pub merged_state : Str
merged_state = codes "merged"

-- `pullrequestFromAPI`
unfoldable pub pullrequest_from_api : MergeRequest → PullRequestInfo
pullrequest_from_api m = record {
  title = m.title;
  description = m.description;
  merged = m.state == merged_state;
  number = m.iid;
  web_url = m.web_url;
  source_branch = m.source_branch;
}

-- The `switch` over the merge method; the error's text is its format.
unfoldable pub accept_options : MergeMethod → Str → Option AcceptMergeRequestOptions
accept_options method message =
    if method == merge_method_squash
    then some (record {
      merge_commit_message = none;
      squash_commit_message = some message;
      squash = some true;
    })
    else if method == merge_method_merge
    then some (record {
      merge_commit_message = some message;
      squash_commit_message = none;
      squash = some false;
    })
    else none

-- `err != nil || mr.MergeStatus == mergeStatusChecking`
unfoldable pub is_pending : Attempt MergeRequest → Bool
is_pending (failed e) = true
is_pending (got m) = m.merge_status == merge_status_checking

abbrev pub unavailable : Err
unavailable = foreign (codes "merge status unavailable for pull request number: %d")

abbrev pub unknown_method : Err
unknown_method = foreign (codes "unknown merge method: %s")

module _ {W : Type 0} (c : ClientContext W) (ref : Ref) where
  -- `(*PullRequestClient).List`: one page.
  unfoldable pub list : Exec W (List MergeRequest)
  list = c.api.merge_requests_list (get_repo_path ref)

  -- `(*PullRequestClient).Create`
  unfoldable pub create : Str → Str → Str → Str → Exec W MergeRequest
  create title branch base_branch description =
      c.api.merge_requests_create (get_repo_path ref) (record {
        title = some title;
        source_branch = some branch;
        target_branch = some base_branch;
        description = some description;
      })

  -- `(*PullRequestClient).Edit`, given the field of the options
  unfoldable pub edit : ℕ → Option Str → Exec W MergeRequest
  edit number title = c.api.merge_requests_update (get_repo_path ref) number title

  -- `(*PullRequestClient).Get`
  unfoldable pub get : ℕ → Exec W MergeRequest
  get number = c.api.merge_requests_get (get_repo_path ref) number

  -- The loop of `waitForMergeRequestToBeMergeable`, with the rounds that are left.
  unfoldable pub poll : ℕ → ℕ → Exec W Unit
  unfolding is_pending
  poll number zero w = fail unavailable w
  poll number (suc rounds) w =
      let next = λ (a : Attempt MergeRequest).
        let rest : Exec W Unit = λ v. poll number rounds v in
        if is_pending a then rest else pure tt in
      (attempt (c.api.merge_requests_get (get_repo_path ref) number) >>= next) w

  -- `waitForMergeRequestToBeMergeable`
  unfoldable pub wait_for_merge_request_to_be_mergeable : ℕ → Exec W Unit
  unfolding poll
  wait_for_merge_request_to_be_mergeable number = poll number 10

  unfoldable pub accept : ℕ → Option AcceptMergeRequestOptions → Exec W Unit
  accept number none = fail unknown_method
  accept number (some opts) = c.api.merge_requests_accept (get_repo_path ref) number opts

  -- `(*PullRequestClient).Merge`
  unfoldable pub merge : ℕ → MergeMethod → Str → Exec W Unit
  unfolding wait_for_merge_request_to_be_mergeable accept accept_options
  merge number method message = do
    wait_for_merge_request_to_be_mergeable number
    accept number (accept_options method message)
