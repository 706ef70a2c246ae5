-- ===== src/Github/Checks/Laws.antt =====
-- What the client demands of the objects that the server sends.
use go_git_providers.Prelude.{◌≡◌, ◌≢◌, refl, ◌↔◌, Option, none, some, Str, arith}
use go_git_providers.Gitprovider.Enums.Known.{KnownIfSet}
use go_git_providers.Gitprovider.Enums.Visibility.{known_repository_visibility_values}
use go_git_providers.Github.Api.{Repository, Key}
use go_git_providers.Github.Checks.{validate_repository_api, validate_deploy_key_api}

abbrev pub IsPresent {ℓ} : {A : Type ℓ} → Option A → Type 0
IsPresent none = ⊥
IsPresent (some a) = Unit

repository_parts :
    (n v : Option Str) (r : Repository)
    → (validate_repository_api (record r { name = n; visibility = v }) ≡ none)
      ↔ (IsPresent n × KnownIfSet known_repository_visibility_values v)
unfolding validate_repository_api
repository_parts none none r = (λ h. cc, λ h. absurd h.0)
repository_parts none (some v) r = (λ h. ground arith, λ h. absurd h.0)
repository_parts (some n) none r = (λ h. (tt, tt), λ h. refl)
repository_parts (some n) (some v) r = (λ h. (tt, ground arith), λ h. ground arith)

-- A repository is taken from the server exactly when it has a name and its visibility is unset or
-- known.
pub validate_repository_api_iff :
    (r : Repository)
    → (validate_repository_api r ≡ none)
      ↔ (IsPresent r.name × KnownIfSet known_repository_visibility_values r.visibility)
validate_repository_api_iff r = repository_parts r.name r.visibility r

-- A deploy key, exactly when its four fields are set.
pub validate_deploy_key_api_iff :
    (k : Key)
    → (validate_deploy_key_api k ≡ none)
      ↔ ((k.id ≢ none) × (k.title ≢ none) × (k.key ≢ none) × (k.read_only ≢ none))
unfolding validate_deploy_key_api
validate_deploy_key_api_iff k = (λ h. ground arith, λ h. ground arith)
