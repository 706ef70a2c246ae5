-- ===== src/Gitprovider/Enums/Visibility.antt =====
-- gitprovider/enums.go: `RepositoryVisibility`.
use go_git_providers.Prelude.{Option, List, [], ◌∷◌, Str, codes}
use go_git_providers.Errors.{Err}
use go_git_providers.Gitprovider.Enums.Known.{validate}

abbrev pub RepositoryVisibility : Type 0
RepositoryVisibility = Str

abbrev pub public : RepositoryVisibility
public = codes "public"

abbrev pub internal : RepositoryVisibility
internal = codes "internal"

abbrev pub private : RepositoryVisibility
private = codes "private"

abbrev pub known_repository_visibility_values : List RepositoryVisibility
known_repository_visibility_values = public ∷ internal ∷ private ∷ []

unfoldable pub validate_repository_visibility : RepositoryVisibility → Option Err
unfolding validate
validate_repository_visibility r = validate known_repository_visibility_values r
