-- ===== src/Tests/Calls.antt =====
-- The GitHub client on the server with at most one repository, and on one that counts requests.
use go_git_providers.Prelude.{
  ℕ, suc, ◌≡◌, refl, ◌↔◌, Bool, true, false, none, some, [], ◌∷◌, codes, list_beq, arith,
}
use go_git_providers.Errors.{
  Err, sentinel, github_response, is_error, not_found, already_exists, errors_is, same,
  destructive_call_disallowed,
}
use go_git_providers.Exec.{ok, err}
use go_git_providers.Validation.{new, error}
use go_git_providers.Gitprovider.Enums.Known.{is_known}
use go_git_providers.Gitprovider.Enums.Visibility.{validate_repository_visibility}
use go_git_providers.Gitprovider.Info.{
  RepositoryInfo, repository_info, validate_and_default_info, append_if_set,
  repository_validate_info, repository_default,
}
use go_git_providers.Github.Api.{Repository, Listing}
use go_git_providers.Github.Client.{delete_repo, list_org_repos}
use go_git_providers.Github.Client.Listings.{delete_repo-disallowed, list_org_repos-HasPages}
use go_git_providers.Github.Context.{ClientContext}
use go_git_providers.Github.OrgRepositories.{org_reconcile}
use go_git_providers.Github.OrgRepositories.Idle.{Idle, org_reconcile-Idle_iff}
use go_git_providers.Github.OrgRepositories.Settled.{
  Stands, org_reconcile-settles, org_reconcile-restless,
}
use go_git_providers.Github.Repository.{UserRepository, new_user_repository, org, get}
use go_git_providers.Github.Util.{validate_org_repository_ref, handle_http_error, all_pages}
use go_git_providers.Github.Util.HttpErrors.{
  IsMissing, handle_http_error-keeps, handle_http_error-not_found,
}
use go_git_providers.Github.Util.Identity.{IsTopLevel, validate_org_repository_ref_iff}
use go_git_providers.Github.Util.Pages.{HasPages, last, more, FailsWith, all_pages-FailsWith}
use go_git_providers.Tests.Net.{plain_parse}
use go_git_providers.Tests.Urls.{flux}
use go_git_providers.Tests.Options.{request, request', request-accepted}
use go_git_providers.Tests.Hub.{
  Hub, missing, refusing, podinfo, two_pages, hub_server, client, podinfo_ref, podinfo-valid,
  podinfo-Stands,
}

org_reconcile-settles_example :
    (v : Hub) × (u : UserRepository) × (acted : Bool) × (org_reconcile client podinfo_ref request []
        (some podinfo)
      ≡ (ok (some u, acted, none), v))
    × (get u ≡ request')
    × (org_reconcile client podinfo_ref request [] v
        ≡ (ok (some (new_user_repository u.r (org podinfo_ref)), false, none), v))
org_reconcile-settles_example =
    org_reconcile-settles client hub_server (some podinfo) podinfo_ref request request' [] podinfo
      podinfo-Stands request-accepted refl

abbrev silent : RepositoryInfo
silent = record request { description = none }

abbrev silent' : RepositoryInfo
silent' = record request' { description = none }

silent-accepted : validate_and_default_info silent ≡ ok silent'
unfolding validate_and_default_info repository_validate_info repository_default append_if_set
    validate_repository_visibility error new is_known list_beq
silent-accepted = refl

org_reconcile-restless_example :
    (v : Hub) × (u : UserRepository) × (org_reconcile client podinfo_ref silent [] (some podinfo)
      ≡ (ok (some u, true, none), v))
    × Stands client hub_server v podinfo_ref u.r
    × (u.r.description ≡ some (codes "old"))
org_reconcile-restless_example =
    org_reconcile-restless client hub_server (some podinfo) podinfo_ref silent silent' [] podinfo
      (codes "old") podinfo-Stands silent-accepted refl refl

abbrev pub counting_client : ClientContext ℕ
counting_client = record {
  api = record {
    organizations_get = λ o w. (err (sentinel not_found), w);
    organizations_list = λ p w. (err (sentinel not_found), w);
    teams_list_team_members_by_slug = λ o t p w. (err (sentinel not_found), w);
    teams_list_teams = λ o p w. (err (sentinel not_found), w);
    teams_is_team_repo_by_slug = λ o t p r w. (err (sentinel not_found), w);
    teams_add_team_repo_by_slug = λ o t p r m w. (err (sentinel not_found), w);
    teams_remove_team_repo_by_slug = λ o t p r w. (err (sentinel not_found), w);
    users_get = λ w. (err (sentinel not_found), w);
    repositories_get = λ o n w. (err (sentinel not_found), w);
    repositories_list_by_org = λ o p w. (err (sentinel not_found), w);
    repositories_list = λ o p w. (err (sentinel not_found), w);
    repositories_create = λ o r w. (ok r, suc w);
    repositories_edit = λ o n u w. (err (sentinel not_found), w);
    repositories_delete = λ o n w. (ok tt, suc w);
    repositories_list_keys = λ o n p w. (err (sentinel not_found), w);
    repositories_create_key = λ o n k w. (ok k, suc w);
    repositories_delete_key = λ o n k w. (ok tt, suc w);
    repositories_list_teams = λ o n p w. (err (sentinel not_found), w);
  };
  domain = codes "github.com";
  destructive_actions = false;
  parse = plain_parse;
  fuel = 1;
}

abbrev as_wanted : Repository
as_wanted = record podinfo {
  description = request'.description;
  visibility = request'.visibility;
  default_branch = request'.default_branch;
}

org_reconcile-Idle_iff_example :
    (org_reconcile client podinfo_ref request' [] (some as_wanted)
      ≡ (ok (some (new_user_repository as_wanted (org podinfo_ref)), false, none), some as_wanted))
    ↔ Idle client podinfo_ref request'
        (some as_wanted)
        (some (new_user_repository as_wanted (org podinfo_ref)))
        none
        (some as_wanted)
org_reconcile-Idle_iff_example =
    org_reconcile-Idle_iff client podinfo_ref request' [] (some as_wanted)

delete_repo-disallowed_example :
    (e : Err) × (delete_repo client (codes "flux") (codes "podinfo") (some podinfo)
      ≡ (err e, some podinfo))
    × (is_error e destructive_call_disallowed ≡ true)
delete_repo-disallowed_example =
    delete_repo-disallowed client (codes "flux") (codes "podinfo") (some podinfo) refl

two_pages-HasPages : HasPages two_pages 2 0 none (podinfo ∷ podinfo ∷ []) none
two_pages-HasPages =
    more (podinfo ∷ [], 2) refl (omega arith) (last (podinfo ∷ [], 0) refl refl refl) refl

list_org_repos-HasPages_example :
    list_org_repos client (codes "flux") none ≡ (ok (podinfo ∷ podinfo ∷ []), none)
list_org_repos-HasPages_example =
    list_org_repos-HasPages client (codes "flux") 2 none none (podinfo ∷ podinfo ∷ [])
      two_pages-HasPages (omega arith) (podinfo-valid, (podinfo-valid, tt))

abbrev failing_pages : Listing Hub Repository
failing_pages p = refusing

all_pages-FailsWith_example :
    all_pages 1 failing_pages 0 [] none ≡ (err (handle_http_error (github_response missing)), none)
all_pages-FailsWith_example =
    all_pages-FailsWith failing_pages 1 [] (FailsWith.now refl) (omega arith)

missing-other : is_error (github_response missing) not_found ≡ false
unfolding errors_is same
missing-other = refl

handle_http_error-not_found_example :
    (is_error (handle_http_error (github_response missing)) not_found ≡ true)
    ↔ IsMissing (github_response missing)
handle_http_error-not_found_example =
    handle_http_error-not_found (github_response missing) missing-other

handle_http_error-keeps_example :
    is_error (handle_http_error (sentinel already_exists)) already_exists ≡ true
unfolding errors_is same
handle_http_error-keeps_example =
    handle_http_error-keeps (sentinel already_exists) already_exists refl

validate_org_repository_ref_iff_example :
    (validate_org_repository_ref plain_parse podinfo_ref (codes "github.com") ≡ none)
    ↔ (IsTopLevel flux (codes "github.com") × (false ≡ false))
validate_org_repository_ref_iff_example =
    validate_org_repository_ref_iff plain_parse podinfo_ref (codes "github.com")
