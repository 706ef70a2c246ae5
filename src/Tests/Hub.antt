-- ===== src/Tests/Hub.antt =====
-- A GitHub server with at most one repository.
use go_git_providers.Prelude.{
  zero, suc, ◌≡◌, refl, false, Option, none, some, [], ◌∷◌, codes, list_beq,
}
use go_git_providers.Errors.{github_response, GithubErrorResponse}
use go_git_providers.Exec.{ok, err, Exec}
use go_git_providers.Validation.{new, error}
use go_git_providers.Gitprovider.Enums.Visibility
use go_git_providers.Gitprovider.Enums.Known.{is_known}
use go_git_providers.Gitprovider.Enums.Visibility.{validate_repository_visibility}
use go_git_providers.Gitprovider.Info.{repository_info, append_if_set}
use go_git_providers.Gitprovider.Refs.{OrgRepositoryRef}
use go_git_providers.Github.Api.{Repository, empty_repository, GoGithub, Listing}
use go_git_providers.Github.Checks.{validate_repository_api, require_set}
use go_git_providers.Github.Context.{ClientContext}
use go_git_providers.Github.OrgRepositories.Settled.{Stands}
use go_git_providers.Github.Server.{Server, patch}
use go_git_providers.Github.Util.{validate_api_object, validate_org_repository_ref}
use go_git_providers.Github.Util.Identity.{validate_org_repository_ref_iff}
use go_git_providers.Tests.Net.{plain_parse}
use go_git_providers.Tests.Urls.{flux}

abbrev pub Hub : Type 0
Hub = Option Repository

abbrev pub missing : GithubErrorResponse
missing = record {
  response = record { status_code = 404 };
  text = codes "404 Not Found";
  message = codes "Not Found";
  documentation_url = [];
  errors = [];
}

abbrev pub hub_get : Exec Hub Repository
hub_get none = (err (github_response missing), none)
hub_get (some r) = (ok r, some r)

abbrev hub_edit : Option Repository → Exec Hub Repository
hub_edit (some u) (some r) = (ok (patch u r), some (patch u r))
hub_edit _ w = (err (github_response missing), w)

abbrev pub refusing : {A : Type 0} → Exec Hub A
refusing w = (err (github_response missing), w)

abbrev pub podinfo : Repository
podinfo = record empty_repository {
  name = some (codes "podinfo");
  description = some (codes "old");
  visibility = some Visibility.private;
}

-- Two pages, the second one numbered 2.
abbrev pub two_pages : Listing Hub Repository
two_pages zero w = (ok (podinfo ∷ [], 2), w)
two_pages (suc p) w = (ok (podinfo ∷ [], 0), w)

abbrev pub hub : GoGithub Hub
hub = record {
  organizations_get = λ o. refusing;
  organizations_list = λ p. refusing;
  teams_list_team_members_by_slug = λ o t p. refusing;
  teams_list_teams = λ o p. refusing;
  teams_is_team_repo_by_slug = λ o t p r. refusing;
  teams_add_team_repo_by_slug = λ o t p r m. refusing;
  teams_remove_team_repo_by_slug = λ o t p r. refusing;
  users_get = refusing;
  repositories_get = λ o n. hub_get;
  repositories_list_by_org = λ o. two_pages;
  repositories_list = λ o. two_pages;
  repositories_create = λ o r w. (ok r, some r);
  repositories_edit = λ o n u. hub_edit u;
  repositories_delete = λ o n w. (ok tt, none);
  repositories_list_keys = λ o n p. refusing;
  repositories_create_key = λ o n k w. (ok k, w);
  repositories_delete_key = λ o n k. refusing;
  repositories_list_teams = λ o n p. refusing;
}

abbrev pub hub_server : Server hub
hub_server = record {
  at = λ w o n. w;
  get_present = λ w o n r h. rw h;
  get_absent = λ w o n h. (missing, refl, rw h);
  edit_present = λ w o n r u h. (some (patch u r), rw h, refl);
}

abbrev pub client : ClientContext Hub
client = record {
  api = hub;
  domain = codes "github.com";
  destructive_actions = false;
  parse = plain_parse;
  fuel = 2;
}

abbrev pub podinfo_ref : OrgRepositoryRef
podinfo_ref = record { organization_ref = flux; repository_name = codes "podinfo"; slug = [] }

pub podinfo-valid : validate_repository_api podinfo ≡ none
unfolding validate_repository_api validate_api_object require_set append_if_set
    validate_repository_visibility error new is_known list_beq
podinfo-valid = refl

pub podinfo_ref-accepted :
    validate_org_repository_ref plain_parse podinfo_ref (codes "github.com") ≡ none
podinfo_ref-accepted =
    (validate_org_repository_ref_iff plain_parse podinfo_ref (codes "github.com")).1
      (record { same_domain = refl; has_domain = refl; has_name = refl; top = refl }, refl)

pub podinfo-Stands : Stands client hub_server (some podinfo) podinfo_ref podinfo
podinfo-Stands = record {
  accepted = podinfo_ref-accepted;
  stored = refl;
  taken = record { valid = podinfo-valid; others = tt };
}
