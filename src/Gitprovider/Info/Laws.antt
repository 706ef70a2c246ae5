-- ===== src/Gitprovider/Info/Laws.antt =====
-- types_repository.go: when a request is valid, and what `Equals` compares.
use go_git_providers.Prelude.{
  ◌≡◌, refl, true, false, ◌↔◌, Option, none, some, Str, arith, ==_iff, nat_eq, list_eq, bool_eq,
  option_eq, is_empty,
}
use go_git_providers.Gitprovider.Enums.Known.{KnownIfSet}
use go_git_providers.Gitprovider.Enums.Visibility.{known_repository_visibility_values}
use go_git_providers.Gitprovider.Enums.Permission.{known_repository_permission_values}
use go_git_providers.Gitprovider.Info.{
  RepositoryInfo, repository_validate_info, repository_equals, TeamAccessInfo,
  team_access_validate_info, team_access_equals, DeployKeyInfo, bytes_of, deploy_key_validate_info,
  deploy_key_equals, DeployTokenInfo, deploy_token_equals,
}

-- Two repository requests are equal for the code exactly when all their fields are, an unset
-- field being equal to an unset one alone.
pub repository_equals_iff : (r a : RepositoryInfo) → (repository_equals r a ≡ true) ↔ (r ≡ a)
unfolding repository_equals
repository_equals_iff r a = (
  λ h. ground (
    arith,
    ==_iff r.description a.description,
    ==_iff r.default_branch a.default_branch,
    ==_iff r.visibility a.visibility,
  ),
  λ h. ground (
    arith,
    ==_iff r.description a.description,
    ==_iff r.default_branch a.default_branch,
    ==_iff r.visibility a.visibility,
  ),
)

pub team_access_equals_iff : (r a : TeamAccessInfo) → (team_access_equals r a ≡ true) ↔ (r ≡ a)
unfolding team_access_equals
team_access_equals_iff r a = (
  λ h. ground (arith, ==_iff r.name a.name, ==_iff r.permission a.permission),
  λ h. ground (arith, ==_iff r.name a.name, ==_iff r.permission a.permission),
)

pub deploy_key_equals_iff : (r a : DeployKeyInfo) → (deploy_key_equals r a ≡ true) ↔ (r ≡ a)
unfolding deploy_key_equals
deploy_key_equals_iff r a = (
  λ h. ground (arith, ==_iff r.name a.name, ==_iff r.key a.key, ==_iff r.read_only a.read_only),
  λ h. ground (arith, ==_iff r.name a.name, ==_iff r.key a.key, ==_iff r.read_only a.read_only),
)

pub deploy_token_equals_iff : (r a : DeployTokenInfo) → (deploy_token_equals r a ≡ true) ↔ (r ≡ a)
unfolding deploy_token_equals
deploy_token_equals_iff r a = (
  λ h. ground (arith, ==_iff r.name a.name, ==_iff r.username a.username, ==_iff r.token a.token),
  λ h. ground (arith, ==_iff r.name a.name, ==_iff r.username a.username, ==_iff r.token a.token),
)

visibility_iff :
    (v : Option Str)
    → (repository_validate_info
          (record { description = none; default_branch = none; visibility = v })
        ≡ none)
      ↔ KnownIfSet known_repository_visibility_values v
unfolding repository_validate_info
visibility_iff none = (λ h. tt, λ h. refl)
visibility_iff (some v) = (λ h. ground arith, λ h. ground arith)

-- A repository request is valid exactly when its visibility is unset or known.
pub repository_validate_info_iff :
    (r : RepositoryInfo)
    → (repository_validate_info r ≡ none)
      ↔ KnownIfSet known_repository_visibility_values r.visibility
unfolding repository_validate_info
repository_validate_info_iff r = visibility_iff r.visibility

permission_iff :
    (name : Str) (p : Option Str)
    → (team_access_validate_info (record { name = name; permission = p }) ≡ none)
      ↔ ((is_empty name ≡ false) × KnownIfSet known_repository_permission_values p)
unfolding team_access_validate_info
permission_iff name none = (λ h. (ground arith, tt), λ h. ground arith)
permission_iff name (some p) = (λ h. (ground arith, ground arith), λ h. ground arith)

-- A request for team access is valid exactly when the team is named and the permission is unset
-- or known.
pub team_access_validate_info_iff :
    (ta : TeamAccessInfo)
    → (team_access_validate_info ta ≡ none)
      ↔ ((is_empty ta.name ≡ false) × KnownIfSet known_repository_permission_values ta.permission)
team_access_validate_info_iff ta = permission_iff ta.name ta.permission

-- A deploy key is valid exactly when its name and its key are not empty.
pub deploy_key_validate_info_iff :
    (dk : DeployKeyInfo)
    → (deploy_key_validate_info dk ≡ none)
      ↔ ((is_empty dk.name ≡ false) × (is_empty (bytes_of dk.key) ≡ false))
unfolding deploy_key_validate_info
deploy_key_validate_info_iff dk = (λ h. ground arith, λ h. ground arith)
