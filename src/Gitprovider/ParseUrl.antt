-- ===== src/Gitprovider/ParseUrl.antt =====
-- gitprovider/repositoryref.go: parsing the URL of an organization, a user or a repository. A
-- slice index out of range is a panic.
pub mod Parts
pub mod Sound
pub mod RoundTrip
use go_git_providers.Prelude.{
  ℕ, Bool, true, false, ◌||◌, not, Option, none, some, List, [], ◌∷◌, ◌++◌, Str, codes, slash,
  is_empty, ◌==◌, nat_eq, list_eq, if◌then◌else◌,
}
use go_git_providers.Errors.{
  Err, sentinel, wrap, url_invalid, url_unsupported_scheme, url_unsupported_parts,
  url_missing_repo_name,
}
use go_git_providers.Exec.{Result, ok, err, panic, out_of_fuel, and_then, Attempt, got, failed}
use go_git_providers.Strings.{split, trim_prefix, trim_suffix}
use go_git_providers.Gitprovider.Url.{Url, UrlParser}
use go_git_providers.Gitprovider.Refs.{
  UserRef, OrganizationRef, OrgRepositoryRef, UserRepositoryRef,
}

-- Whether the loop over the parts meets an empty one.
unfoldable pub any_empty : List Str → Bool
any_empty [] = false
any_empty (p ∷ ps) = is_empty p || any_empty ps

-- Strip one leading and one trailing slash, and split by slash.
unfoldable pub path_parts : Str → List Str
unfolding split trim_prefix trim_suffix
path_parts path = split (trim_suffix (trim_prefix path (slash ∷ [])) (slash ∷ [])) slash

-- `parseURL` behind `url.Parse`
unfoldable pub check_url : Str → Attempt Url → Result (Url × List Str)
unfolding any_empty path_parts
check_url str (failed e) = err e
check_url str (got u) =
    if not (u.scheme == codes "https")
    then err (wrap "%w: %s" (str ∷ []) (sentinel url_unsupported_scheme))
    else if not (is_empty u.fragment) || not (is_empty u.raw_query) || not (is_empty u.user)
    then err (wrap "%w: %s" (str ∷ []) (sentinel url_unsupported_parts))
    else if any_empty (path_parts u.path)
    then err (wrap "%w: %s" (str ∷ []) (sentinel url_invalid))
    else ok (u, path_parts u.path)

module _ (parse : UrlParser) where
  -- `parseURL`
  unfoldable pub parse_url : Str → Result (Url × List Str)
  unfolding check_url
  parse_url str =
      if is_empty str
      then err (wrap "url cannot be empty: %w" [] (sentinel url_invalid))
      else check_url str (parse str)

-- `parts[0]` and `parts[1:]`
unfoldable pub to_organization : Url × List Str → Result OrganizationRef
to_organization (u, []) = panic
to_organization (u, p ∷ ps) =
    ok (record { domain = u.host; organization = p; key = []; sub_organizations = ps })

-- `orgInfoPtrToUserRef`
unfoldable pub org_info_ptr_to_user_ref : OrganizationRef → Result UserRef
org_info_ptr_to_user_ref o = elim o.sub_organizations [
  | [] ↦ ok (record { domain = o.domain; user_login = o.organization })
  | s ∷ ss ↦ err (sentinel url_invalid)
]

-- All but the last element, and the last one; nothing for an empty slice.
unfoldable pub split_last {ℓ} : {A : Type ℓ} → List A → Option (List A × A)
split_last [] = none
split_last (x ∷ xs) = elim (split_last xs) [ none ↦ some ([], x) | some (ys, y) ↦ some (x ∷ ys, y) ]

-- The last sub-organization is the repository.
unfoldable pub take_repository :
    Str → OrganizationRef → Option (List Str × Str) → Result (OrganizationRef × Str)
unfolding trim_suffix
take_repository r o none = err (wrap "%w: %s" (r ∷ []) (sentinel url_missing_repo_name))
take_repository r o (some (subs, name)) =
    ok (record o { sub_organizations = subs }, trim_suffix name (codes ".git"))

-- The handler `if err != nil { return nil, fmt.Errorf("%w: %s", …, s) }`.
unfoldable pub rewrap {ℓ} : {A : Type ℓ} → (Err → Err) → Str → Result A → Result A
rewrap f s (ok a) = ok a
rewrap f s (err e) = err (wrap "%w: %s" (s ∷ []) (f e))
rewrap f s panic = panic
rewrap f s out_of_fuel = out_of_fuel

module _ (parse : UrlParser) where
  -- `ParseOrganizationURL`
  unfoldable pub parse_organization_url : Str → Result OrganizationRef
  unfolding parse_url to_organization
  parse_organization_url o = and_then (parse_url parse o) to_organization

  -- `ParseUserURL`
  unfoldable pub parse_user_url : Str → Result UserRef
  unfolding parse_organization_url org_info_ptr_to_user_ref rewrap
  parse_user_url u =
      and_then (parse_organization_url u) (λ o. rewrap (λ e. e) u (org_info_ptr_to_user_ref o))

  -- `parseRepositoryURL`
  unfoldable pub parse_repository_url : Str → Result (OrganizationRef × Str)
  unfolding parse_organization_url split_last take_repository
  parse_repository_url r =
      and_then (parse_organization_url r)
        (λ o. take_repository r o (split_last o.sub_organizations))

  -- `ParseUserRepositoryURL`
  unfoldable pub parse_user_repository_url : Str → Result UserRepositoryRef
  unfolding parse_repository_url org_info_ptr_to_user_ref rewrap
  parse_user_repository_url r = and_then (parse_repository_url r) λ p.
      and_then (rewrap (λ _. sentinel url_invalid) r (org_info_ptr_to_user_ref p.0))
        (λ u. ok (record { user_ref = u; repository_name = p.1; slug = [] }))

  -- `ParseOrgRepositoryURL`
  unfoldable pub parse_org_repository_url : Str → Result OrgRepositoryRef
  unfolding parse_repository_url
  parse_org_repository_url r =
      and_then (parse_repository_url r)
        (λ p. ok (record { organization_ref = p.0; repository_name = p.1; slug = [] }))
