-- ===== src/Github/Util.antt =====
-- github/util.go: references that GitHub supports, HTTP errors, pagination, checks of server data.
pub mod HttpErrors
pub mod Identity
pub mod Pages
use go_git_providers.Prelude.{
  ℕ, zero, suc, Bool, true, false, not, ◌||◌, Option, none, some, List, [], ◌∷◌, ◌++◌, Str, codes,
  ◌==◌, nat_eq, list_eq, if◌then◌else◌,
}
use go_git_providers.Errors.{
  Err, sentinel, wrap, multi, rate_limit, invalid_credentials, http, HttpError, GithubErrorResponse,
  GithubRateLimitError, errors_as, is_github_rate_limit, is_github_response, new_multi_error,
  or_else, domain_unsupported, no_provider_support, invalid_argument, not_found, already_exists,
  invalid_server_data,
}
use go_git_providers.Exec.{
  Result, ok, err, panic, out_of_fuel, Exec, Attempt, got, failed, attempt, pure, fail, ◌>>=◌,
}
use go_git_providers.Validation.{Validator, Target, new, error, validate_targets}
use go_git_providers.Gitprovider.Url.{UrlParser}
use go_git_providers.Gitprovider.Refs.{
  IdentityRef, UserRef, OrganizationRef, OrgRepositoryRef, UserRepositoryRef, identity_type_user,
  identity_type_organization, identity_type_suborganization, user_identity_ref,
  organization_identity_ref, org_repository_ref, user_repository_ref, user_validate_fields,
  organization_validate_fields, org_repository_validate_fields, user_repository_validate_fields,
}
use go_git_providers.Github.Api.{Listing}

-- `validateIdentityFields`
unfoldable pub validate_identity_fields : IdentityRef → Str → Option Err
validate_identity_fields ref expected_domain =
    if not (ref.get_domain == expected_domain)
    then some (
        wrap "domain %q not supported by this client: %w" (ref.get_domain ∷ [])
          (sentinel domain_unsupported))
    else if ref.get_type == identity_type_organization || ref.get_type == identity_type_user
    then none
    else if ref.get_type == identity_type_suborganization
    then some
        (wrap "github doesn't support sub-organizations: %w" [] (sentinel no_provider_support))
    else some (wrap "invalid identity type: %v: %w" (ref.get_type ∷ []) (sentinel invalid_argument))

-- `if err := validation.ValidateTargets(name, ref); err != nil { return err }`, and then the
-- identity
unfoldable pub validate_ref : Str → Target → IdentityRef → Str → Option Err
unfolding validate_targets validate_identity_fields
validate_ref name target ref expected_domain =
    or_else (validate_targets name (target ∷ [])) (validate_identity_fields ref expected_domain)

module _ (parse : UrlParser) where
  -- `validateUserRepositoryRef`, `validateOrgRepositoryRef`, `validateOrganizationRef`,
  -- `validateUserRef`
  unfoldable pub validate_user_repository_ref : UserRepositoryRef → Str → Option Err
  unfolding validate_ref user_repository_validate_fields
  validate_user_repository_ref ref =
      validate_ref (codes "UserRepositoryRef") (user_repository_validate_fields ref)
        (user_repository_ref parse ref).identity

  unfoldable pub validate_org_repository_ref : OrgRepositoryRef → Str → Option Err
  unfolding validate_ref org_repository_validate_fields
  validate_org_repository_ref ref =
      validate_ref (codes "OrgRepositoryRef") (org_repository_validate_fields ref)
        (org_repository_ref parse ref).identity

  unfoldable pub validate_organization_ref : OrganizationRef → Str → Option Err
  unfolding validate_ref organization_validate_fields
  validate_organization_ref ref =
      validate_ref (codes "OrganizationRef") (organization_validate_fields ref)
        (organization_identity_ref parse ref)

  unfoldable pub validate_user_ref : UserRef → Str → Option Err
  unfolding validate_ref user_validate_fields
  validate_user_ref ref =
      validate_ref (codes "UserRef") (user_validate_fields ref) (user_identity_ref parse ref)

abbrev pub already_exists_magic_string : Str
already_exists_magic_string = codes "name already exists on this account"

abbrev pub rate_limit_doc_url : Str
rate_limit_doc_url = codes "https://developer.github.com/v3/#rate-limiting"

-- The loop over the validation errors of a response.
unfoldable pub any_message : Str → List Str → Bool
any_message magic [] = false
any_message magic (m ∷ ms) = m == magic || any_message magic ms

-- The branch for a `*github.RateLimitError`.
unfoldable pub from_rate_limit : Err → GithubRateLimitError → Err
from_rate_limit e r = new_multi_error e (
    rate_limit (record {
      http_error = record {
        response = r.response;
        error_message = r.text;
        message = r.message;
        documentation_url = rate_limit_doc_url;
      };
      limit = r.limit;
      remaining = r.remaining;
      reset = r.reset;
    }))

abbrev pub http_error_of : GithubErrorResponse → HttpError
http_error_of r = record {
  response = r.response;
  error_message = r.text;
  message = r.message;
  documentation_url = r.documentation_url;
}

-- The branch for a `*github.ErrorResponse`; 403, 401 and 404 are the status codes.
unfoldable pub from_response : Err → GithubErrorResponse → Err
unfolding any_message
from_response e r =
    if r.response.status_code == 403 || r.response.status_code == 401
    then new_multi_error e (invalid_credentials (http_error_of r))
    else if r.response.status_code == 404
    then new_multi_error e (sentinel not_found)
    else if any_message already_exists_magic_string r.errors
    then new_multi_error e (sentinel already_exists)
    else new_multi_error e (http (http_error_of r))

unfoldable pub classify : Err → Option GithubRateLimitError → Option GithubErrorResponse → Err
unfolding from_rate_limit from_response
classify e (some r) response = from_rate_limit e r
classify e none (some r) = from_response e r
classify e none none = e

-- `handleHTTPError` at a non-nil error; a nil error stays nil.
unfoldable pub handle_http_error : Err → Err
unfolding classify errors_as is_github_rate_limit is_github_response
handle_http_error e = classify e (errors_as is_github_rate_limit e) (errors_as is_github_response e)

-- `x, err := call(); if err != nil { return nil, handleHTTPError(err) }`
unfoldable pub handled : {A : Type 0} → Result A → Result A
unfolding handle_http_error
handled (ok a) = ok a
handled (err e) = err (handle_http_error e)
handled panic = panic
handled out_of_fuel = out_of_fuel

unfoldable pub calling : {W A : Type 0} → Exec W A → Exec W A
unfolding handled
calling m w = let (r, w') = m w in (handled r, w')

module _ {W A : Type 0} where
  -- `allPages`, with the function that it runs: the objects of each page are appended to those
  -- before, and the next page is asked for until there is none. The fuel is the number of pages.
  unfoldable pub all_pages : ℕ → Listing W A → ℕ → List A → Exec W (List A)
  unfolding calling
  all_pages zero list page objs w = (out_of_fuel, w)
  all_pages (suc fuel) list page objs w =
      let next = λ (p : List A × ℕ).
        let rest : Exec W (List A) = λ v. all_pages fuel list p.1 (objs ++ p.0) v in
        if p.1 == 0 then pure (objs ++ p.0) else rest in
      (calling (list page) >>= next) w

-- `validateAPIObject`
unfoldable pub validate_api_object : Str → (Validator → Validator) → Option Err
unfolding new error
validate_api_object name fn = elim (error (fn (new name))) [
  | none ↦ none
  | some e ↦ some (new_multi_error e (sentinel invalid_server_data))
]
