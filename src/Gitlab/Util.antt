-- ===== src/Gitlab/Util.antt =====
-- gitlab/util.go: references that GitLab supports, HTTP errors, pagination, checks of server data.
pub mod Pages
pub mod HttpErrors
use go_git_providers.Prelude.{
  ℕ, zero, suc, not, ◌||◌, Option, none, some, List, [], ◌∷◌, ◌++◌, Str, codes, ◌==◌, nat_eq,
  list_eq, is_empty, slash, if◌then◌else◌,
}
use go_git_providers.Strings.{contains}
use go_git_providers.Errors.{
  Err, sentinel, wrap, invalid_credentials, http, HttpError, GitlabErrorResponse, is_error,
  errors_as, is_gitlab_response, new_multi_error, or_else, domain_unsupported, no_provider_support,
  invalid_argument, not_found, already_exists, invalid_server_data, gitlab_not_found,
}
use go_git_providers.Exec.{Result, ok, err, panic, out_of_fuel, Exec, pure, ◌>>=◌}
use go_git_providers.Validation.{Validator, Target, new, error, validate_targets}
use go_git_providers.Gitprovider.Enums.Visibility.{validate_repository_visibility}
use go_git_providers.Gitprovider.Info.{require, append_if_set}
use go_git_providers.Gitprovider.Url.{UrlParser}
use go_git_providers.Gitprovider.Refs.{
  IdentityRef, UserRef, OrganizationRef, OrgRepositoryRef, UserRepositoryRef, identity_type_user,
  identity_type_organization, identity_type_suborganization, user_identity_ref,
  organization_identity_ref, org_repository_ref, user_repository_ref, user_validate_fields,
  organization_validate_fields, org_repository_validate_fields, user_repository_validate_fields,
}
use go_git_providers.Github.Api.{Listing}
use go_git_providers.Github.Repository.{Ref, identity, repository}
use go_git_providers.Gitlab.Api.{Project}

abbrev pub already_exists_magic_string : Str
already_exists_magic_string = codes "name: [has already been taken]"

abbrev pub already_shared_with_group : Str
already_shared_with_group = codes "already shared with this group"

abbrev pub default_branch_name : Str
default_branch_name = codes "main"

-- `getRepoPath`
unfoldable pub get_repo_path : Ref → Str
unfolding identity repository
get_repo_path ref = identity ref ++ (slash ∷ repository ref)

-- `validateIdentityFields`
unfoldable pub validate_identity_fields : IdentityRef → Str → Option Err
validate_identity_fields ref expected_domain =
    if not (ref.get_domain == expected_domain)
    then some (
        wrap "domain %q not supported by this client, expectedDomain %q: %w"
          (ref.get_domain ∷ expected_domain ∷ []) (sentinel domain_unsupported))
    else if ref.get_type == identity_type_organization || ref.get_type == identity_type_user
    then none
    else if ref.get_type == identity_type_suborganization
    then some
        (wrap "gitlab doesn't support sub-organizations: %w" [] (sentinel no_provider_support))
    else some (wrap "invalid identity type: %v: %w" (ref.get_type ∷ []) (sentinel invalid_argument))

-- `if err := validation.ValidateTargets(name, ref); err != nil { return err }`, and then the
-- identity
unfoldable pub validate_ref : Str → Target → IdentityRef → Str → Option Err
unfolding validate_targets validate_identity_fields
validate_ref name target ref expected_domain =
    or_else (validate_targets name (target ∷ [])) (validate_identity_fields ref expected_domain)

module _ (parse : UrlParser) where
  -- `validateUserRepositoryRef`, `validateOrgRepositoryRef`, `validateOrganizationRef`,
  -- `validateUserRef`
  unfoldable pub validate_user_repository_ref : UserRepositoryRef → Str → Option Err
  unfolding validate_ref user_repository_validate_fields
  validate_user_repository_ref ref =
      validate_ref (codes "UserRepositoryRef") (user_repository_validate_fields ref)
        (user_repository_ref parse ref).identity

  unfoldable pub validate_org_repository_ref : OrgRepositoryRef → Str → Option Err
  unfolding validate_ref org_repository_validate_fields
  validate_org_repository_ref ref =
      validate_ref (codes "OrgRepositoryRef") (org_repository_validate_fields ref)
        (org_repository_ref parse ref).identity

  unfoldable pub validate_organization_ref : OrganizationRef → Str → Option Err
  unfolding validate_ref organization_validate_fields
  validate_organization_ref ref =
      validate_ref (codes "OrganizationRef") (organization_validate_fields ref)
        (organization_identity_ref parse ref)

  unfoldable pub validate_user_ref : UserRef → Str → Option Err
  unfolding validate_ref user_validate_fields
  validate_user_ref ref =
      validate_ref (codes "UserRef") (user_validate_fields ref) (user_identity_ref parse ref)

-- `validateAPIObject`
unfoldable pub validate_api_object : Str → (Validator → Validator) → Option Err
unfolding new error
validate_api_object name fn = elim (error (fn (new name))) [
  | none ↦ none
  | some e ↦ some (new_multi_error e (sentinel invalid_server_data))
]

-- `validateProjectAPI`: it also sets the default branch of the object that it checks.
unfoldable pub validate_project_api : Project → Project × Option Err
unfolding validate_api_object require append_if_set validate_repository_visibility
validate_project_api p =
    let visibility = if is_empty p.visibility then none else some p.visibility in
    let branch = if is_empty p.default_branch then default_branch_name else p.default_branch in
    (
      record p { default_branch = branch },
      validate_api_object (codes "GitLab.Project") λ v.
          append_if_set validate_repository_visibility visibility (codes "Visibility")
            (require p.name (codes "Name") v),
    )

abbrev pub http_error_of : GitlabErrorResponse → HttpError
http_error_of r = record {
  response = r.response;
  error_message = r.text;
  message = r.message;
  documentation_url = [];
}

-- The branch of `handleHTTPError` for a `*gitlab.ErrorResponse`; 403, 401 and 404 are the status
-- codes.
unfoldable pub from_response : Err → GitlabErrorResponse → Err
unfolding contains
from_response e r =
    if r.response.status_code == 403 || r.response.status_code == 401
    then new_multi_error e (invalid_credentials (http_error_of r))
    else if r.response.status_code == 404
    then new_multi_error e (sentinel not_found)
    else if contains r.message already_exists_magic_string
    then new_multi_error e (sentinel already_exists)
    else new_multi_error e (http (http_error_of r))

-- Behind the test for `gitlab.ErrNotFound`.
unfoldable pub classify : Err → Option GitlabErrorResponse → Err
unfolding from_response
classify e none = e
classify e (some r) = from_response e r

-- `handleHTTPError` at a non-nil error; a nil error stays nil.
unfoldable pub handle_http_error : Err → Err
unfolding classify errors_as is_gitlab_response
handle_http_error e =
    if is_error e gitlab_not_found
    then new_multi_error e (sentinel not_found)
    else classify e (errors_as is_gitlab_response e)

-- `x, err := call(); if err != nil { return nil, onError(err) }`
unfoldable pub returning : {A : Type 0} → (Err → Err) → Result A → Result A
returning on_error (ok a) = ok a
returning on_error (err e) = err (on_error e)
returning on_error panic = panic
returning on_error out_of_fuel = out_of_fuel

unfoldable pub calling : {W A : Type 0} → (Err → Err) → Exec W A → Exec W A
unfolding returning
calling on_error m w = let (r, w') = m w in (returning on_error r, w')

-- `return err`
abbrev pub as_is : Err → Err
as_is e = e

module _ {W A : Type 0} where
  -- The loop that the functions `all…Pages` share, given what each returns for an error: the
  -- objects of each page are appended to those before, and the next page is asked for until there
  -- is none. The fuel is the number of pages.
  unfoldable pub all_pages : (Err → Err) → ℕ → Listing W A → ℕ → List A → Exec W (List A)
  unfolding calling
  all_pages on_error zero list page objs w = (out_of_fuel, w)
  all_pages on_error (suc fuel) list page objs w =
      let next = λ (p : List A × ℕ).
        let rest : Exec W (List A) = λ v. all_pages on_error fuel list p.1 (objs ++ p.0) v in
        if p.1 == 0 then pure (objs ++ p.0) else rest in
      (calling on_error (list page) >>= next) w

  -- `allGroupPages`
  unfoldable pub all_group_pages : ℕ → Listing W A → Exec W (List A)
  unfolding all_pages handle_http_error
  all_group_pages fuel list = all_pages handle_http_error fuel list 0 []

  -- `allSubgroupPages`, `allGroupProjectPages`, `allGroupMemberPages`, `allProjectPages`,
  -- `allProjectUserPages`, `allDeployKeyPages` and `allDeployTokenPages`
  unfoldable pub all_other_pages : ℕ → Listing W A → Exec W (List A)
  unfolding all_pages
  all_other_pages fuel list = all_pages as_is fuel list 0 []
