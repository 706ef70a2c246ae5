-- ===== src/Tests/Lab.antt =====
-- A GitLab server with one project: its keys, tokens, groups and merge requests.
use go_git_providers.Prelude.{
  inr, ℕ, zero, suc, ◌≡◌, ◌↔◌, refl, true, false, none, some, List, [], ◌∷◌, codes, Str, arith,
  list_beq, option_beq, list_eq, nat_eq, ◌+◌,
}
use go_git_providers.Errors.{
  Err, foreign, errors_is, is_error, sentinel, not_found, gitlab_not_found,
}
use go_git_providers.Exec.{ok, err, panic, got}
use go_git_providers.Validation.{new, error}
use go_git_providers.Gitprovider.Contents.{merge_method_squash}
use go_git_providers.Gitprovider.Info.{
  RepositoryInfo, DeployKeyInfo, DeployTokenInfo, deploy_token_info, validate_and_default_info,
  deploy_token_validate_info, deploy_token_default, require, repository_equals,
}
use go_git_providers.Gitprovider.Enums.Permission
use go_git_providers.Github.Checks.{first_error}
use go_git_providers.Github.Repository.{Ref, org}
use go_git_providers.Github.Util.Pages.{last, now}
use go_git_providers.Gitlab.Api.{Project, ProjectDeployKey, DeployToken, MergeRequest}
use go_git_providers.Gitlab.Client.{
  list_tokens, list_groups, list_group_projects, keep_active, is_active, validate_deploy_token_api,
  create_token, delete_token, get_user,
}
use go_git_providers.Gitlab.Client.Listings.{
  Active, none_left, kept, dropped, list_tokens-HasPages, list_group_projects-FailsWith,
}
use go_git_providers.Gitlab.Context.{ClientContext}
use go_git_providers.Gitlab.DeployKey
use go_git_providers.Gitlab.DeployToken.{client_reconcile, find_token}
use go_git_providers.Gitlab.DeployToken.Lost.{token_reconcile-lost}
use go_git_providers.Gitlab.NewClient.{GitlabClients, nil_client, new_client}
use go_git_providers.Gitlab.NewClient.Unknown.{new_client-unknown}
use go_git_providers.Gitprovider.ClientOptions.{no_options, make_client_options, apply_options}
use go_git_providers.Gitprovider.ClientOptions.Chain.{get_transport_chain}
use go_git_providers.Gitprovider.ClientOptions.Transport.{
  build_client_from_transport_chain, build_from,
}
use go_git_providers.Tests.Options.{transports}
use go_git_providers.Gitlab.Project.{UserProject, empty_project, get, repository_from_api}
use go_git_providers.Gitlab.PullRequests.{merge, accept, accept_options, is_pending, unavailable}
use go_git_providers.Gitlab.PullRequests.Polls.{checking, here, merge-Pending}
use go_git_providers.Gitlab.Repositories.{reconcile_repository}
use go_git_providers.Gitlab.Repositories.Branch.{
  SameEffect, with_branch, reconcile_repository-SameEffect,
}
use go_git_providers.Gitlab.TeamAccess.{get_gitlab_permission, get_git_provider_permission}
use go_git_providers.Gitlab.TeamAccess.Levels.{get_gitlab_permission_iff}
use go_git_providers.Gitlab.Util.{
  get_repo_path, validate_api_object, calling, returning, handle_http_error,
}
use go_git_providers.Gitlab.Util.HttpErrors.{no_page}
use go_git_providers.Tests.Hub.{podinfo_ref}
use go_git_providers.Tests.Net.{plain_parse}

-- The state counts the requests that change something.
abbrev lab : ClientContext ℕ
lab = record {
  api = nil_client;
  domain = codes "gitlab.com";
  ssh_domain = [];
  destructive_actions = false;
  parse = plain_parse;
  to_lower = λ s. s;
  error_text = λ e. [];
  fuel = 3;
}

abbrev ref : Ref
ref = org podinfo_ref

abbrev token : DeployToken
token = record {
  id = 7;
  name = codes "ci";
  username = codes "gitlab+deploy-token-7";
  token = [];
  expired = false;
  revoked = false;
}

abbrev revoked_token : DeployToken
revoked_token = record token { id = 6; revoked = true }

abbrev stored_key : ProjectDeployKey
stored_key = record { id = 5; title = codes "ci"; key = codes "ssh-rsa AAAA"; can_push = false }

abbrev token_client : ClientContext ℕ
token_client = record lab {
  api = record (lab.api) {
    deploy_tokens_list = λ name p w. (ok (revoked_token ∷ token ∷ [], 0), w);
    deploy_tokens_delete = λ name id w. (ok tt, suc w);
    deploy_tokens_create = λ name opts w. (err (foreign (codes "refused")), w);
  };
}

only-current : Active (revoked_token ∷ token ∷ []) (token ∷ [])
only-current = dropped revoked_token (inr refl) (kept token refl refl none_left)

list_tokens-HasPages_example :
    list_tokens token_client (codes "flux/podinfo") 0 ≡ (ok (token ∷ []), 0)
unfolding first_error validate_deploy_token_api validate_api_object require error new keep_active
    is_active
list_tokens-HasPages_example =
    list_tokens-HasPages token_client (codes "flux/podinfo") {ts = revoked_token ∷ token ∷ []}
      (last (revoked_token ∷ token ∷ [], 0) refl refl refl) (omega arith) only-current refl

abbrev missing_client : ClientContext ℕ
missing_client = record lab {
  api = record (lab.api) {
    groups_list = λ p w. (err (sentinel gitlab_not_found), w);
    groups_list_projects = λ name p w. (err (sentinel gitlab_not_found), w);
  };
}

list_group_projects-FailsWith_example :
    (e : Err) × (list_groups missing_client 0 ≡ (err e, 0))
    × (is_error e not_found ≡ true)
    × (list_group_projects missing_client (codes "flux") 0 ≡ (err (sentinel gitlab_not_found), 0))
    × (is_error (sentinel gitlab_not_found) not_found ≡ false)
list_group_projects-FailsWith_example =
    list_group_projects-FailsWith missing_client (codes "flux") (sentinel gitlab_not_found) no_page
      (now refl) (omega arith) (now refl) (omega arith)

abbrev wanted_key : DeployKeyInfo
wanted_key = record { name = codes "ci"; key = some (codes "ssh-rsa AAAA"); read_only = some true }

-- The key is stored just as it is wanted.
abbrev key_client : ClientContext ℕ
key_client = record lab {
  api = record (lab.api) {
    deploy_keys_list = λ name p w. (ok (stored_key ∷ [], 0), w);
    deploy_keys_delete = λ name id w. (ok tt, suc w);
    deploy_keys_add = λ name opts w. (ok stored_key, suc w);
  };
}

abbrev wanted_token : DeployTokenInfo
wanted_token = record { name = codes "ci"; username = []; token = [] }

token-accepted : validate_and_default_info wanted_token ≡ ok wanted_token
unfolding validate_and_default_info deploy_token_validate_info deploy_token_default require error
    new
token-accepted = refl

token-found : find_token (codes "ci") (token ∷ []) ≡ ok token
unfolding find_token list_beq
token-found = refl

token-deleted : delete_token token_client (get_repo_path ref) 7 0 ≡ (ok tt, 1)
unfolding delete_token calling returning
token-deleted = refl

token-refused :
    create_token token_client (get_repo_path ref) token 1 ≡ (err (foreign (codes "refused")), 1)
unfolding create_token calling handle_http_error errors_is
token-refused = refl

token_reconcile-lost_example :
    client_reconcile token_client ref wanted_token 0
    ≡ (ok (none, false, some (foreign (codes "refused"))), 1)
unfolding keep_active is_active first_error validate_deploy_token_api validate_api_object require
    error new
token_reconcile-lost_example =
    token_reconcile-lost token_client ref wanted_token wanted_token (token ∷ []) token
      (foreign (codes "refused")) 0 0 1 1 token-accepted
      (list_tokens-HasPages token_client (get_repo_path ref) {ts = revoked_token ∷ token ∷ []}
        (last (revoked_token ∷ token ∷ [], 0) refl refl refl) (omega arith) only-current refl)
      token-found (omega arith) token-deleted token-refused

get_gitlab_permission_iff_example :
    (get_gitlab_permission Permission.push ≡ ok 30)
    ↔ (get_git_provider_permission 30 ≡ ok Permission.push)
get_gitlab_permission_iff_example = get_gitlab_permission_iff Permission.push 30

abbrev project : Project
project = record empty_project {
  id = 3;
  name = codes "podinfo";
  visibility = codes "private";
  default_branch = codes "main";
}

abbrev actual : UserProject
actual = record { p = project; ref = ref }

abbrev wanted : RepositoryInfo
wanted = record {
  description = some [];
  default_branch = none;
  visibility = some (codes "private");
}

abbrev edit_client : ClientContext ℕ
edit_client = record lab {
  api = record (lab.api) { projects_edit = λ id opts w. (ok project, suc w) };
}

differs :
    (b : Str)
    → list_beq b (codes "main") ≡ false
    → repository_equals (with_branch b wanted) (get actual) ≡ false
unfolding repository_equals get repository_from_api option_beq
differs b h = ground arith

reconcile_repository-SameEffect_example :
    SameEffect
      (reconcile_repository edit_client actual (with_branch (codes "dev") wanted))
      (reconcile_repository edit_client actual (with_branch (codes "trunk") wanted))
unfolding list_beq
reconcile_repository-SameEffect_example =
    reconcile_repository-SameEffect edit_client actual wanted (codes "dev") (codes "trunk")
      (differs (codes "dev") refl) (differs (codes "trunk") refl)

abbrev checked : Str → MergeRequest
checked status = record {
  iid = 9;
  title = [];
  description = [];
  state = codes "opened";
  merge_status = status;
  web_url = [];
  source_branch = codes "dev";
}

-- The merge request can be merged at the second poll; the state counts the polls.
abbrev polled : ℕ → MergeRequest
polled zero = checked (codes "checking")
polled (suc n) = checked (codes "can_be_merged")

abbrev merge_client : ClientContext ℕ
merge_client = record lab {
  api = record (lab.api) {
    merge_requests_get = λ name n w. (ok (polled w), suc w);
    merge_requests_accept = λ name n opts w. (ok tt, w);
  };
}

first-pending : is_pending (got (polled 0)) ≡ true
unfolding is_pending list_beq
first-pending = refl

merge-Pending_example :
    ((left : ℕ) (m : MergeRequest) (u : ℕ)
      → 1 + suc left ≡ 10
      → merge_client.api.merge_requests_get (get_repo_path ref) 9 1 ≡ (ok m, u)
      → is_pending (got m) ≡ false
      → merge merge_client ref 9 merge_method_squash [] 0
        ≡ accept merge_client ref 9 (accept_options merge_method_squash []) u)
    × (suc zero ≡ 10 → merge merge_client ref 9 merge_method_squash [] 0 ≡ (err unavailable, 1))
merge-Pending_example =
    merge-Pending merge_client ref 9 merge_method_squash [] 1 0 1
      (checking (polled 0) refl first-pending here)

abbrev clients : GitlabClients (List ℕ) ℕ
clients = record {
  new_oauth_client = λ token http base. ok nil_client;
  new_pat_client = λ token http base. ok nil_client;
  new_basic_auth_client = λ username password http base. ok nil_client;
}

no_options-made : make_client_options {R = List ℕ} {L = ℕ} [] ≡ ok no_options
unfolding make_client_options apply_options
no_options-made = refl

no_options-built :
    build_client_from_transport_chain (get_transport_chain {L = ℕ} transports no_options) ≡ ok none
unfolding get_transport_chain build_client_from_transport_chain build_from
no_options-built = refl

new_client-unknown_example :
    (c : ClientContext ℕ) × (new_client {L = ℕ} transports clients
        (λ s. s)
        (λ e. [])
        plain_parse
        3
        []
        []
        (codes "secret")
        (codes "token")
        []
      ≡ ok c)
    × (c.domain ≡ [])
    × (get_user c 0 ≡ (panic, 0))
unfolding list_beq
new_client-unknown_example =
    new_client-unknown {L = ℕ} transports clients (λ s. s) (λ e. []) plain_parse 3 [] []
      (codes "secret") (codes "token") [] no_options none 0 refl refl refl no_options-made
      no_options-built
