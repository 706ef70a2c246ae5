-- ===== src/Gitprovider/Enums/Permission.antt =====
-- gitprovider/enums.go: `RepositoryPermission`.
use go_git_providers.Prelude.{Option, List, [], ◌∷◌, Str, codes}
use go_git_providers.Errors.{Err}
use go_git_providers.Gitprovider.Enums.Known.{validate}

abbrev pub RepositoryPermission : Type 0
RepositoryPermission = Str

abbrev pub pull : RepositoryPermission
pull = codes "pull"

abbrev pub triage : RepositoryPermission
triage = codes "triage"

abbrev pub push : RepositoryPermission
push = codes "push"

abbrev pub maintain : RepositoryPermission
maintain = codes "maintain"

abbrev pub admin : RepositoryPermission
admin = codes "admin"

abbrev pub known_repository_permission_values : List RepositoryPermission
known_repository_permission_values = pull ∷ triage ∷ push ∷ maintain ∷ admin ∷ []

unfoldable pub validate_repository_permission : RepositoryPermission → Option Err
unfolding validate
validate_repository_permission p = validate known_repository_permission_values p
