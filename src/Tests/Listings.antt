-- ===== src/Tests/Listings.antt =====
-- Listings on the server with at most one repository.
use go_git_providers.Prelude.{ℕ, zero, suc, ◌≢◌, none}
use go_git_providers.Exec.{panic}
use go_git_providers.Github.Client.Panics.{NeverPanics}
use go_git_providers.Github.OrgRepositories.{org_list, user_list}
use go_git_providers.Github.OrgRepositories.Panics.{org_list-ne-panic, user_list-ne-panic}
use go_git_providers.Github.Organizations
use go_git_providers.Github.Organizations.{team_list}
use go_git_providers.Github.Organizations.Panics.{organization_list-ne-panic, team_list-ne-panic}
use go_git_providers.Tests.Hub.{two_pages, client, refusing}
use go_git_providers.Tests.Urls.{flux, me}

two_pages-NeverPanics : (p : ℕ) → NeverPanics (two_pages p)
two_pages-NeverPanics zero w = λ q. cc
two_pages-NeverPanics (suc p) w = λ q. cc

refusing-NeverPanics : {A : Type 0} → NeverPanics (refusing {A = A})
refusing-NeverPanics w = λ q. cc

org_list-ne-panic_example : (org_list client flux none).0 ≢ panic
org_list-ne-panic_example = org_list-ne-panic client flux two_pages-NeverPanics none

user_list-ne-panic_example : (user_list client me none).0 ≢ panic
user_list-ne-panic_example = user_list-ne-panic client me two_pages-NeverPanics none

organization_list-ne-panic_example : (Organizations.list client none).0 ≢ panic
organization_list-ne-panic_example =
    organization_list-ne-panic client (λ p. refusing-NeverPanics) none

team_list-ne-panic_example : (team_list client flux none).0 ≢ panic
team_list-ne-panic_example =
    team_list-ne-panic client flux (λ t p. refusing-NeverPanics) (λ p. refusing-NeverPanics) none
