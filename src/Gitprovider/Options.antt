-- ===== src/Gitprovider/Options.antt =====
-- gitprovider/options.go: options for creating a repository.
pub mod Laws
use go_git_providers.Prelude.{Bool, Option, none, some, List, [], ◌∷◌, Str, codes}
use go_git_providers.Errors.{Err, or_else}
use go_git_providers.Validation.{Validator, new, append, error}
use go_git_providers.Gitprovider.Enums.License.{LicenseTemplate, validate_license_template}

pub record RepositoryCreateOptions : Type 0 where
  pub auto_init : Option Bool
  pub license_template : Option LicenseTemplate

-- The interface: anything that changes the target.
abbrev pub RepositoryCreateOption : Type 0
RepositoryCreateOption = RepositoryCreateOptions → RepositoryCreateOptions

-- `(*RepositoryCreateOptions).ApplyToRepositoryCreateOptions`: the fields that are set overwrite.
unfoldable pub apply_to_repository_create_options : RepositoryCreateOptions → RepositoryCreateOption
apply_to_repository_create_options opts target = record {
  auto_init = or_else opts.auto_init target.auto_init;
  license_template = or_else opts.license_template target.license_template;
}

unfoldable pub validate_license : Validator → Option LicenseTemplate → Validator
validate_license v none = v
validate_license v (some t) =
    append v (validate_license_template t) (some t) (codes "LicenseTemplate" ∷ [])

-- `(*RepositoryCreateOptions).ValidateOptions`
unfoldable pub validate_options : RepositoryCreateOptions → Option Err
unfolding new error append validate_license validate_license_template
validate_options opts =
    error (validate_license (new (codes "RepositoryCreateOptions")) opts.license_template)

-- the loop over the options
unfoldable pub apply_all :
    RepositoryCreateOptions → List RepositoryCreateOption → RepositoryCreateOptions
apply_all o [] = o
apply_all o (opt ∷ opts) = apply_all (opt o) opts

-- `MakeRepositoryCreateOptions`: the options come back beside the error.
unfoldable pub make_repository_create_options :
    List RepositoryCreateOption → RepositoryCreateOptions × Option Err
unfolding apply_all validate_options
make_repository_create_options opts =
    let o = apply_all (record { auto_init = none; license_template = none }) opts in
    (o, validate_options o)
