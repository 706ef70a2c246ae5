-- ===== src/Gitprovider/Options/Laws.antt =====
-- What the assembled creation options hold, and when they are refused.
use go_git_providers.Prelude.{◌≡◌, refl, ◌↔◌, Option, none, some, List, [], ◌∷◌, map, Str, arith}
use go_git_providers.Errors.{or_else}
use go_git_providers.Gitprovider.Enums.Known.{KnownIfSet}
use go_git_providers.Gitprovider.Enums.License.{known_license_template_values}
use go_git_providers.Gitprovider.Options.{
  RepositoryCreateOptions, apply_to_repository_create_options, validate_options, apply_all,
  make_repository_create_options,
}

-- The last value that is set in a list of optional values.
abbrev pub last_set {ℓ} : {A : Type ℓ} → Option A → List (Option A) → Option A
last_set o [] = o
last_set o (x ∷ xs) = last_set (or_else x o) xs

apply_all-last_set :
    (o : RepositoryCreateOptions) (opts : List RepositoryCreateOptions)
    → ((apply_all o (map apply_to_repository_create_options opts)).auto_init
        ≡ last_set o.auto_init (map (λ x. x.auto_init) opts))
      × ((apply_all o (map apply_to_repository_create_options opts)).license_template
          ≡ last_set o.license_template (map (λ x. x.license_template) opts))
unfolding apply_all apply_to_repository_create_options
apply_all-last_set o [] = (refl, refl)
apply_all-last_set o (x ∷ opts) = apply_all-last_set (apply_to_repository_create_options x o) opts

-- Made from option structs, each field holds the last value that one of them sets, and nothing if none sets it.
pub make_repository_create_options_fields :
    (opts : List RepositoryCreateOptions)
    → ((make_repository_create_options (map apply_to_repository_create_options opts)).0.auto_init
        ≡ last_set none (map (λ x. x.auto_init) opts))
      × ((make_repository_create_options
            (map apply_to_repository_create_options opts)).0.license_template
          ≡ last_set none (map (λ x. x.license_template) opts))
unfolding make_repository_create_options
make_repository_create_options_fields opts = apply_all-last_set _ opts

license_iff :
    (l : Option Str)
    → (validate_options (record { auto_init = none; license_template = l }) ≡ none)
      ↔ KnownIfSet known_license_template_values l
unfolding validate_options
license_iff none = (λ h. tt, λ h. refl)
license_iff (some t) = (λ h. ground arith, λ h. ground arith)

-- Validation accepts the creation options exactly when no license is set or a known one is.
pub validate_options_iff :
    (o : RepositoryCreateOptions)
    → (validate_options o ≡ none) ↔ KnownIfSet known_license_template_values o.license_template
unfolding validate_options
validate_options_iff o = license_iff o.license_template
