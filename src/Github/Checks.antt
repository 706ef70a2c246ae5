-- ===== src/Github/Checks.antt =====
-- The checks of server data: `validateRepositoryAPI` of github/resource_repository.go,
-- `validateOrganizationAPI` of resource_organization.go, `validateDeployKeyAPI` of
-- resource_deploykey.go, and the loops over listings of github/githubclient.go.
pub mod Laws
use go_git_providers.Prelude.{
  Bool, true, false, Option, none, some, List, [], ◌∷◌, Str, codes, String,
}
use go_git_providers.Errors.{Err, or_else, wrap, sentinel, invalid_server_data}
use go_git_providers.Exec.{Result, ok, err, check, and_then}
use go_git_providers.Validation.{Validator, required}
use go_git_providers.Gitprovider.Enums.Visibility.{validate_repository_visibility}
use go_git_providers.Gitprovider.Info.{append_if_set}
use go_git_providers.Github.Api.{Repository, Key, Organization, User, Team}
use go_git_providers.Github.Util.{validate_api_object}

-- `if p == nil { validator.Required(name) }`
unfoldable pub require_set : {A : Type 0} → Option A → Str → Validator → Validator
unfolding required
require_set none name v = required v (name ∷ [])
require_set (some a) name v = v

unfoldable pub validate_repository_api : Repository → Option Err
unfolding validate_api_object require_set append_if_set validate_repository_visibility
validate_repository_api r = validate_api_object (codes "GitHub.Repository") λ v.
    append_if_set validate_repository_visibility r.visibility (codes "Visibility")
      (require_set r.name (codes "Name") v)

unfoldable pub validate_organization_api : Organization → Option Err
unfolding validate_api_object require_set
validate_organization_api o =
    validate_api_object (codes "GitHub.Organization") (require_set o.login (codes "Login"))

unfoldable pub validate_deploy_key_api : Key → Option Err
unfolding validate_api_object require_set
validate_deploy_key_api k = validate_api_object (codes "GitHub.Key") λ v.
    require_set k.read_only (codes "ReadOnly") (
      require_set k.key (codes "Key")
        (require_set k.title (codes "Title") (require_set k.id (codes "ID") v)))

-- A listing is refused with the error of the first object that is invalid.
unfoldable pub first_error : {A : Type 0} → (A → Option Err) → List A → Option Err
first_error valid [] = none
first_error valid (a ∷ as') = or_else (valid a) (first_error valid as')

unfoldable pub validate_all : {A : Type 0} → (A → Option Err) → List A → Result (List A)
unfolding first_error
validate_all valid objs = and_then (check (first_error valid objs)) (λ _. ok objs)

-- `if apiObj.F == nil { return nil, fmt.Errorf("…%+v: %w", apiObj, ErrInvalidServerData) }`; the
-- object is not kept among the arguments.
unfoldable pub expect_set : {A : Type 0} → String → Option A → Option Err
expect_set format none = some (wrap format [] (sentinel invalid_server_data))
expect_set format (some a) = none

abbrev pub has_login : User → Option Err
has_login u = expect_set "didn't expect login to be nil for user: %+v: %w" u.login

abbrev pub has_slug : Team → Option Err
has_slug t = expect_set "didn't expect slug to be nil for team: %+v: %w" t.slug
