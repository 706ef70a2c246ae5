-- ===== src/Tests/Tea.antt =====
-- A Gitea server: its keys, teams and commits.
use go_git_providers.Prelude.{
  ℕ, zero, suc, ◌≡◌, refl, true, false, none, some, [], ◌∷◌, codes, Str, arith,
}
use go_git_providers.Errors.{foreign}
use go_git_providers.Exec.{ok, panic, out_of_fuel, attempt, pure, ◌>>=◌}
use go_git_providers.Validation.{new, error}
use go_git_providers.Gitprovider.Enums.Visibility
use go_git_providers.Gitprovider.Info.{
  DeployKeyInfo, deploy_key_info, validate_and_default_info, deploy_key_validate_info,
  deploy_key_default, require,
}
use go_git_providers.Gitprovider.Refs.{OrganizationRef}
use go_git_providers.Github.Repository.{Ref, org}
use go_git_providers.Gitea.Api.{
  GiteaSdk, GiteaResponse, ClientContext, Page, DeployKey, Team, User, Commit,
}
use go_git_providers.Gitea.Commits.{list_page}
use go_git_providers.Gitea.Commits.Window.{list_page-Chain}
use go_git_providers.Gitea.DeployKey.{client_reconcile, create, creation}
use go_git_providers.Gitea.DeployKey.Quiet.{failed_listing-creates}
use go_git_providers.Gitea.Organizations.{team_get, list_org_teams}
use go_git_providers.Gitea.Organizations.Members.{team_get-endless}
use go_git_providers.Gitea.Repository.{UserRepository}
use go_git_providers.Gitea.Util.{all_pages, is_last}
use go_git_providers.Gitea.Util.Pages.{last, more, pages_from-Chain}
use go_git_providers.Tests.Hub.{podinfo_ref}
use go_git_providers.Tests.Net.{plain_parse}

abbrev sdk : GiteaSdk ℕ
sdk = record {
  get_repo = λ a b w. (panic, w);
  list_org_repos = λ a b w. (panic, w);
  list_user_repos = λ a b w. (panic, w);
  create_org_repo = λ a b w. (panic, w);
  create_repo = λ a w. (panic, w);
  edit_repo = λ a b c w. (panic, w);
  delete_repo = λ a b w. (panic, w);
  get_my_user_info = λ w. (panic, w);
  list_deploy_keys = λ a b c w. (panic, w);
  create_deploy_key = λ a b c w. (panic, w);
  delete_deploy_key = λ a b c w. (panic, w);
  check_repo_team = λ a b c w. (panic, w);
  get_repo_teams = λ a b w. (panic, w);
  add_repo_team = λ a b c w. (panic, w);
  remove_repo_team = λ a b c w. (panic, w);
  get_org = λ a w. (panic, w);
  list_my_orgs = λ a w. (panic, w);
  list_org_teams = λ a b w. (panic, w);
  list_team_members = λ a b w. (panic, w);
  list_repo_commits = λ a b c w. (panic, w);
}

abbrev tea : ClientContext ℕ
tea = record {
  api = sdk;
  domain = codes "gitea.com";
  destructive_actions = false;
  parse = plain_parse;
  error_text = λ e. [];
  fuel = 3;
}

abbrev ref : Ref
ref = org podinfo_ref

abbrev unavailable_page : Page DeployKey
unavailable_page = record {
  objects = [];
  response = some (record { status_code = 503; link = [] });
  error = some (foreign (codes "503"));
}

abbrev unavailable_client : ClientContext ℕ
unavailable_client = record tea {
  api = record (tea.api) { list_deploy_keys = λ o r p w. (ok unavailable_page, suc w) };
}

abbrev wanted : DeployKeyInfo
wanted = record { name = codes "ci"; key = some (codes "ssh-rsa AAAA"); read_only = some true }

wanted-accepted : validate_and_default_info wanted ≡ ok wanted
unfolding validate_and_default_info deploy_key_validate_info deploy_key_default require error new
wanted-accepted = refl

failed_listing-creates_example :
    client_reconcile unavailable_client ref wanted 0
    ≡ (attempt (create unavailable_client ref wanted) >>= λ a.
          pure (creation unavailable_client ref a))
        1
failed_listing-creates_example =
    failed_listing-creates unavailable_client ref wanted wanted 0 1 unavailable_page
      (foreign (codes "503")) (omega arith) wanted-accepted refl refl refl

abbrev linked : GiteaResponse
linked = record { status_code = 200; link = codes "<https://gitea.com?page=2>; rel=next" }

abbrev team : Team
team = record { id = 4; name = codes "devs"; permission = codes "write" }

abbrev members : Page User
members = record {
  objects = record { user_name = codes "alice" } ∷ [];
  response = some linked;
  error = none;
}

abbrev team_client : ClientContext ℕ
team_client = record tea {
  api = record (tea.api) {
    list_org_teams =
        λ o p w. (ok (record { objects = team ∷ []; response = none; error = none }), w);
    list_team_members = λ id p w. (ok members, w);
  };
}

abbrev flux : OrganizationRef
flux = podinfo_ref.organization_ref

teams-listed : list_org_teams team_client flux.organization 0 ≡ (ok (team ∷ []), 0)
unfolding list_org_teams all_pages is_last
teams-listed =
    pages_from-Chain team_client (team_client.api.list_org_teams flux.organization) 3 [] {p = 1}
      (last (record { objects = team ∷ []; response = none; error = none }) refl refl refl refl)
      (omega arith)

team_get-endless_example : team_get team_client flux (codes "devs") 0 ≡ (out_of_fuel, 0)
unfolding is_last
team_get-endless_example =
    team_get-endless team_client flux team [] 0 0 members teams-listed refl refl refl refl

abbrev commit : Str → Commit
commit sha = record { sha = sha; author = none; url = []; tree_sha = none; message = none }

abbrev first_page : Page Commit
first_page = record { objects = commit (codes "b") ∷ []; response = some linked; error = none }

abbrev second_page : Page Commit
second_page = record { objects = commit (codes "a") ∷ []; response = none; error = none }

abbrev page_at : ℕ → Page Commit
page_at zero = first_page
page_at (suc zero) = first_page
page_at (suc (suc n)) = second_page

abbrev commit_client : ClientContext ℕ
commit_client = record tea {
  api = record (tea.api) { list_repo_commits = λ o r opts w. (ok (page_at opts.page), w) };
}

list_page-Chain_example :
    list_page commit_client ref (codes "main") 1 2 0
    ≡ (ok (commit (codes "b") ∷ commit (codes "a") ∷ []), 0)
unfolding is_last
list_page-Chain_example =
    list_page-Chain commit_client ref (codes "main") 1 2
      (more first_page refl refl refl refl (last second_page refl refl refl refl)) (omega arith)

abbrev stored : UserRepository
stored = record {
  r = record {
    name = codes "podinfo";
    description = [];
    website = [];
    private = true;
    internal = false;
    template = false;
    has_issues = true;
    has_projects = false;
    has_wiki = false;
    default_branch = codes "main";
    allow_squash = true;
    allow_merge = true;
    allow_rebase = true;
    mirror = false;
    mirror_interval = [];
    owner = none;
    other = [];
    status = [];
  };
  ref = ref;
}
