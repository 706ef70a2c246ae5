-- ===== src/Gitprovider/Enums/License.antt =====
-- gitprovider/enums.go: `LicenseTemplate`.
use go_git_providers.Prelude.{Option, List, [], ◌∷◌, Str, codes}
use go_git_providers.Errors.{Err}
use go_git_providers.Gitprovider.Enums.Known.{validate}

abbrev pub LicenseTemplate : Type 0
LicenseTemplate = Str

abbrev pub apache2 : LicenseTemplate
apache2 = codes "apache-2.0"

abbrev pub mit : LicenseTemplate
mit = codes "mit"

abbrev pub gpl3 : LicenseTemplate
gpl3 = codes "gpl-3.0"

abbrev pub known_license_template_values : List LicenseTemplate
known_license_template_values = apache2 ∷ mit ∷ gpl3 ∷ []

unfoldable pub validate_license_template : LicenseTemplate → Option Err
unfolding validate
validate_license_template t = validate known_license_template_values t
