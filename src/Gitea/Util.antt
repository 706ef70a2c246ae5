-- ===== src/Gitea/Util.antt =====
-- gitea/util.go: references that Gitea supports, HTTP errors, pagination, checks of server data.
pub mod Pages
use go_git_providers.Prelude.{
  ℕ, zero, suc, ◌+◌, not, ◌||◌, Bool, true, false, Option, none, some, List, [], ◌∷◌, ◌++◌, Str,
  codes, ◌==◌, nat_eq, list_eq, is_empty, if◌then◌else◌,
}
use go_git_providers.Errors.{
  Err, sentinel, wrap, invalid_credentials, http, HttpError, new_multi_error, or_else,
  domain_unsupported, no_provider_support, invalid_argument, not_found, already_exists,
  invalid_server_data,
}
use go_git_providers.Exec.{Result, ok, err, out_of_fuel, Exec, lift, pure, fail, ◌>>=◌}
use go_git_providers.Validation.{Validator, Target, new, error, validate_targets}
use go_git_providers.Gitprovider.Url.{UrlParser}
use go_git_providers.Gitprovider.Refs.{
  IdentityRef, UserRef, OrganizationRef, OrgRepositoryRef, UserRepositoryRef, identity_type_user,
  identity_type_organization, identity_type_suborganization, user_identity_ref,
  organization_identity_ref, org_repository_ref, user_repository_ref, user_validate_fields,
  organization_validate_fields, org_repository_validate_fields, user_repository_validate_fields,
}
use go_git_providers.Gitea.Api.{
  GiteaResponse, Answer, answered, refused, Page, PageCall, ClientContext,
}

-- `validateIdentityFields`
unfoldable pub validate_identity_fields : IdentityRef → Str → Option Err
validate_identity_fields ref expected_domain =
    if not (ref.get_domain == expected_domain)
    then some (
        wrap "domain %q not supported by this client: %w" (ref.get_domain ∷ [])
          (sentinel domain_unsupported))
    else if ref.get_type == identity_type_organization || ref.get_type == identity_type_user
    then none
    else if ref.get_type == identity_type_suborganization
    then some (wrap "gitea doesn't support sub-organizations: %w" [] (sentinel no_provider_support))
    else some (wrap "invalid identity type: %v: %w" (ref.get_type ∷ []) (sentinel invalid_argument))

-- `if err := validation.ValidateTargets(name, ref); err != nil { return err }`, and then the
-- identity
unfoldable pub validate_ref : Str → Target → IdentityRef → Str → Option Err
unfolding validate_targets validate_identity_fields
validate_ref name target ref expected_domain =
    or_else (validate_targets name (target ∷ [])) (validate_identity_fields ref expected_domain)

module _ (parse : UrlParser) where
  -- `validateUserRepositoryRef`, `validateOrgRepositoryRef`, `validateOrganizationRef`,
  -- `validateUserRef`
  unfoldable pub validate_user_repository_ref : UserRepositoryRef → Str → Option Err
  unfolding validate_ref user_repository_validate_fields
  validate_user_repository_ref ref =
      validate_ref (codes "UserRepositoryRef") (user_repository_validate_fields ref)
        (user_repository_ref parse ref).identity

  unfoldable pub validate_org_repository_ref : OrgRepositoryRef → Str → Option Err
  unfolding validate_ref org_repository_validate_fields
  validate_org_repository_ref ref =
      validate_ref (codes "OrgRepositoryRef") (org_repository_validate_fields ref)
        (org_repository_ref parse ref).identity

  unfoldable pub validate_organization_ref : OrganizationRef → Str → Option Err
  unfolding validate_ref organization_validate_fields
  validate_organization_ref ref =
      validate_ref (codes "OrganizationRef") (organization_validate_fields ref)
        (organization_identity_ref parse ref)

  unfoldable pub validate_user_ref : UserRef → Str → Option Err
  unfolding validate_ref user_validate_fields
  validate_user_ref ref =
      validate_ref (codes "UserRef") (user_validate_fields ref) (user_identity_ref parse ref)

-- `validateAPIObject`
unfoldable pub validate_api_object : Str → (Validator → Validator) → Option Err
unfolding new error
validate_api_object name fn = elim (error (fn (new name))) [
  | none ↦ none
  | some e ↦ some (new_multi_error e (sentinel invalid_server_data))
]

-- The part of `handleHTTPError` behind the test for a response, given the text of the error.
unfoldable pub from_response : Str → Err → GiteaResponse → Err
from_response text e r =
    let http_err : HttpError = record {
      response = record { status_code = r.status_code };
      error_message = text;
      message = text;
      documentation_url = [];
    } in
    if r.status_code == 403 || r.status_code == 401
    then new_multi_error e (invalid_credentials http_err)
    else if r.status_code == 404
    then new_multi_error e (sentinel not_found)
    else if r.status_code == 409
    then new_multi_error e (sentinel already_exists)
    else if r.status_code == 422
    then new_multi_error e (sentinel already_exists)
    else new_multi_error e (http http_err)

module _ {W : Type 0} (c : ClientContext W) where
  -- `handleHTTPError` at a non-nil error; a nil error stays nil.
  unfoldable pub handle_http_error : Option GiteaResponse → Err → Err
  unfolding from_response
  handle_http_error none e = e
  handle_http_error (some r) e = from_response (c.error_text e) e r

  -- `if err != nil { return nil, handleHTTPError(res, err) }`
  unfoldable pub handled : {A : Type 0} → Answer A → Result A
  unfolding handle_http_error
  handled (answered a) = ok a
  handled (refused res e) = err (handle_http_error res e)

  unfoldable pub calling : {A : Type 0} → Exec W (Answer A) → Exec W A
  unfolding handled
  calling call = do a ← call; lift (handled a)

  -- `resp == nil || resp.Header.Get("Link") == ""`
  unfoldable pub is_last : Option GiteaResponse → Bool
  is_last none = true
  is_last (some r) = is_empty r.link

  -- `if err != nil { return handleHTTPError(resp, err) }`
  unfoldable pub unless_failed :
      {A : Type 0} → Option GiteaResponse → Option Err → Exec W A → Exec W A
  unfolding handle_http_error
  unless_failed res none next = next
  unless_failed res (some e) next = fail (handle_http_error res e)

  -- Behind one call: what `fn` returns for a page without objects is nil and nil, also where the
  -- call failed.
  unfoldable pub after_page : {A : Type 0} → Exec W (List A) → List A → Page A → Exec W (List A)
  unfolding is_last unless_failed
  after_page rest objs p =
      let collected = objs ++ p.objects in
      let next = if is_last p.response then pure collected else rest in
      let turn = unless_failed p.response p.error next in
      if is_empty p.objects then pure objs else turn

  -- `allPages`, with the function that all its callers give it. The fuel is the number of pages.
  unfoldable pub pages_from : {A : Type 0} → ℕ → PageCall W A → ℕ → List A → Exec W (List A)
  unfolding after_page
  pages_from zero list page objs w = (out_of_fuel, w)
  pages_from (suc fuel) list page objs w =
      (list page >>= λ p.
      after_page (λ v. pages_from fuel list (page + 1) (objs ++ p.objects) v) objs p)
        w

  -- The first page has the number 1, whatever the options said.
  unfoldable pub all_pages : {A : Type 0} → PageCall W A → Exec W (List A)
  unfolding pages_from
  all_pages list = pages_from c.fuel list 1 []
