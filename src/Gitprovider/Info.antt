-- ===== src/Gitprovider/Info.antt =====
-- gitprovider/types_repository.go and `ValidateAndDefaultInfo` of gitprovider/gitprovider.go: the
-- requests that describe a resource. A pointer field is an option; a `[]byte` is nil or bytes.
pub mod Laws
pub mod Defaulting
use go_git_providers.Prelude.{
  Bool, true, false, ◌&&◌, Option, none, some, List, [], ◌∷◌, Str, codes, ◌==◌, nat_eq, list_eq,
  bool_eq, option_eq, is_empty, if◌then◌else◌,
}
use go_git_providers.Errors.{Err, or_else}
use go_git_providers.Exec.{Result, ok, err, check, and_then}
use go_git_providers.Validation.{Validator, new, append, required, error}
use go_git_providers.Gitprovider.Enums.Visibility
use go_git_providers.Gitprovider.Enums.Visibility.{
  RepositoryVisibility, validate_repository_visibility,
}
use go_git_providers.Gitprovider.Enums.Permission
use go_git_providers.Gitprovider.Enums.Permission.{
  RepositoryPermission, validate_repository_permission,
}

-- The interface `DefaultedInfoRequest`, which holds `InfoRequest`.
pub record DefaultedInfoRequest (I : Type 0) : Type 0 where
  pub validate_info : I → Option Err
  pub default : I → I
  pub equals : I → I → Bool

-- `ValidateAndDefaultInfo`: the request behind the pointer, or the error.
unfoldable pub validate_and_default_info : {I : Type 0} ⦃r : DefaultedInfoRequest I⦄ → I → Result I
validate_and_default_info ⦃r⦄ info =
    and_then (check (r.validate_info info)) (λ _. ok (r.default info))

-- `if len(field) == 0 { validator.Required(name) }`
unfoldable pub require : Str → Str → Validator → Validator
unfolding required
require field name v = if is_empty field then required v (name ∷ []) else v

-- `if p != nil { validator.Append(validate(*p), *p, name) }`
unfoldable pub append_if_set : (Str → Option Err) → Option Str → Str → Validator → Validator
unfolding append
append_if_set validate none name v = v
append_if_set validate (some s) name v = append v (validate s) (some s) (name ∷ [])

pub record RepositoryInfo : Type 0 where
  pub description : Option Str
  pub default_branch : Option Str
  pub visibility : Option RepositoryVisibility

abbrev pub default_repository_visibility : RepositoryVisibility
default_repository_visibility = Visibility.private

abbrev pub default_repo_permission : RepositoryPermission
default_repo_permission = Permission.pull

abbrev pub default_branch_name : Str
default_branch_name = codes "main"

abbrev pub default_deploy_key_read_only : Bool
default_deploy_key_read_only = true

unfoldable pub repository_default : RepositoryInfo → RepositoryInfo
repository_default r = record r {
  visibility = or_else r.visibility (some default_repository_visibility);
  default_branch = or_else r.default_branch (some default_branch_name);
}

unfoldable pub repository_validate_info : RepositoryInfo → Option Err
unfolding new error append_if_set validate_repository_visibility
repository_validate_info r = error (
    append_if_set validate_repository_visibility r.visibility (codes "Visibility")
      (new (codes "Repository")))

-- `reflect.DeepEqual` of two values of the same struct type
unfoldable pub repository_equals : RepositoryInfo → RepositoryInfo → Bool
repository_equals r a =
    r.description == a.description
    && r.default_branch == a.default_branch
    && r.visibility == a.visibility

instance abbrev pub repository_info : DefaultedInfoRequest RepositoryInfo
repository_info = record {
  validate_info = repository_validate_info;
  default = repository_default;
  equals = repository_equals;
}

pub record TeamAccessInfo : Type 0 where
  pub name : Str
  pub permission : Option RepositoryPermission

unfoldable pub team_access_default : TeamAccessInfo → TeamAccessInfo
team_access_default ta = record ta {
  permission = or_else ta.permission (some default_repo_permission);
}

unfoldable pub team_access_validate_info : TeamAccessInfo → Option Err
unfolding new error require append_if_set validate_repository_permission
team_access_validate_info ta = error (
    append_if_set validate_repository_permission ta.permission (codes "Permission")
      (require ta.name (codes "Name") (new (codes "TeamAccess"))))

unfoldable pub team_access_equals : TeamAccessInfo → TeamAccessInfo → Bool
team_access_equals ta a = ta.name == a.name && ta.permission == a.permission

instance abbrev pub team_access_info : DefaultedInfoRequest TeamAccessInfo
team_access_info = record {
  validate_info = team_access_validate_info;
  default = team_access_default;
  equals = team_access_equals;
}

-- A slice of bytes: nil, or bytes. `len` of nil is 0.
abbrev pub Bytes : Type 0
Bytes = Option Str

abbrev pub bytes_of : Bytes → Str
bytes_of none = []
bytes_of (some s) = s

pub record DeployKeyInfo : Type 0 where
  pub name : Str
  pub key : Bytes
  pub read_only : Option Bool

unfoldable pub deploy_key_default : DeployKeyInfo → DeployKeyInfo
deploy_key_default dk = record dk {
  read_only = or_else dk.read_only (some default_deploy_key_read_only);
}

unfoldable pub deploy_key_validate_info : DeployKeyInfo → Option Err
unfolding new error require
deploy_key_validate_info dk = error (
    require (bytes_of dk.key) (codes "Key")
      (require dk.name (codes "Name") (new (codes "DeployKey"))))

unfoldable pub deploy_key_equals : DeployKeyInfo → DeployKeyInfo → Bool
deploy_key_equals dk a = dk.name == a.name && dk.key == a.key && dk.read_only == a.read_only

instance abbrev pub deploy_key_info : DefaultedInfoRequest DeployKeyInfo
deploy_key_info = record {
  validate_info = deploy_key_validate_info;
  default = deploy_key_default;
  equals = deploy_key_equals;
}

pub record DeployTokenInfo : Type 0 where
  pub name : Str
  pub username : Str
  pub token : Str

unfoldable pub deploy_token_default : DeployTokenInfo → DeployTokenInfo
deploy_token_default dk = dk

unfoldable pub deploy_token_validate_info : DeployTokenInfo → Option Err
unfolding new error require
deploy_token_validate_info dk = error (require dk.name (codes "Name") (new (codes "DeployToken")))

unfoldable pub deploy_token_equals : DeployTokenInfo → DeployTokenInfo → Bool
deploy_token_equals dk a = dk.name == a.name && dk.username == a.username && dk.token == a.token

instance abbrev pub deploy_token_info : DefaultedInfoRequest DeployTokenInfo
deploy_token_info = record {
  validate_info = deploy_token_validate_info;
  default = deploy_token_default;
  equals = deploy_token_equals;
}
