-- ===== src/Stash/Context.antt =====
-- stash/stash.go, and the validation of references and of server data of
-- stash/client_organizations.go, client_repositories_org.go, client_repositories_user.go and
-- client_repository_deploykey.go.
use go_git_providers.Prelude.{
  ℕ, not, ◌||◌, Option, none, some, List, [], ◌∷◌, Str, codes, ◌==◌, nat_eq, list_eq, if◌then◌else◌,
}
use go_git_providers.Errors.{
  Err, Errs, nil, cons, sentinel, wrap, collected, new_multi_error, or_else, domain_unsupported,
  no_provider_support, invalid_argument, invalid_server_data,
}
use go_git_providers.Exec.{Exec}
use go_git_providers.Validation.{Validator, Target, new, error, validate_targets}
use go_git_providers.Gitprovider.Info.{require}
use go_git_providers.Gitprovider.Url.{UrlParser}
use go_git_providers.Gitprovider.Refs.{
  IdentityRef, UserRef, OrganizationRef, OrgRepositoryRef, UserRepositoryRef, identity_type_user,
  identity_type_organization, identity_type_suborganization, user_identity_ref,
  organization_identity_ref, org_repository_ref, user_repository_ref, user_validate_fields,
  organization_validate_fields, org_repository_validate_fields, user_repository_validate_fields,
}
use go_git_providers.Github.Repository.{Ref, org, user}
use go_git_providers.Stash.Http.{RestClient}
use go_git_providers.Stash.Types.{
  Codecs, StashRepository, Project, User, GroupPermission, DeployKey,
}
use go_git_providers.Stash.Git.{Git}

-- `clientContext`. `download` is `downloadFile` of stash/git.go, `random` gives that many bytes of
-- `rand.Read`; `fuel` bounds the number of pages of a listing.
pub record StashContext (W : Type 0) : Type 0 where
  pub client : RestClient W
  pub json : Codecs
  pub git : Git W
  pub download : Str → Exec W Str
  pub random : ℕ → Exec W Str
  pub fuel : ℕ
  pub parse : UrlParser
  pub host : Str

-- `validateAPIObject`
unfoldable pub validate_api_object : Str → (Validator → Validator) → Option Err
unfolding new error
validate_api_object name fn = elim (error (fn (new name))) [
  | none ↦ none
  | some e ↦ some (new_multi_error e (sentinel invalid_server_data))
]

-- `validateIdentityFields`
unfoldable pub validate_identity_fields : IdentityRef → Str → Option Err
validate_identity_fields ref expected_domain =
    if not (ref.get_domain == expected_domain)
    then some (
        wrap "domain %q not supported by this client: %w" (ref.get_domain ∷ [])
          (sentinel domain_unsupported))
    else if ref.get_type == identity_type_organization || ref.get_type == identity_type_user
    then none
    else if ref.get_type == identity_type_suborganization
    then some (wrap "stash doesn't support sub-organizations: %w" [] (sentinel no_provider_support))
    else some (wrap "invalid identity type: %v: %w" (ref.get_type ∷ []) (sentinel invalid_argument))

-- `ValidateTargets` of one target, and then the identity
unfoldable pub validate_ref : Str → Target → IdentityRef → Str → Option Err
unfolding validate_targets validate_identity_fields
validate_ref name target ref expected_domain =
    or_else (validate_targets name (target ∷ [])) (validate_identity_fields ref expected_domain)

module _ (parse : UrlParser) where
  -- `validateUserRepositoryRef`, `validateOrgRepositoryRef`, `validateOrganizationRef`,
  -- `validateUserRef`
  unfoldable pub validate_user_repository_ref : UserRepositoryRef → Str → Option Err
  unfolding validate_ref user_repository_validate_fields
  validate_user_repository_ref ref =
      validate_ref (codes "UserRepositoryRef") (user_repository_validate_fields ref)
        (user_repository_ref parse ref).identity

  unfoldable pub validate_org_repository_ref : OrgRepositoryRef → Str → Option Err
  unfolding validate_ref org_repository_validate_fields
  validate_org_repository_ref ref =
      validate_ref (codes "OrgRepositoryRef") (org_repository_validate_fields ref)
        (org_repository_ref parse ref).identity

  unfoldable pub validate_organization_ref : OrganizationRef → Str → Option Err
  unfolding validate_ref organization_validate_fields
  validate_organization_ref ref =
      validate_ref (codes "OrganizationRef") (organization_validate_fields ref)
        (organization_identity_ref parse ref)

  unfoldable pub validate_user_ref : UserRef → Str → Option Err
  unfolding validate_ref user_validate_fields
  validate_user_ref ref =
      validate_ref (codes "UserRef") (user_validate_fields ref) (user_identity_ref parse ref)

unfoldable pub validate_repository_api : StashRepository → Option Err
unfolding validate_api_object require
validate_repository_api r =
    validate_api_object (codes "Stash.Repository")
      λ v. require r.slug (codes "Slug") (require r.name (codes "Name") v)

unfoldable pub validate_project_api : Project → Option Err
unfolding validate_api_object require
validate_project_api p =
    validate_api_object (codes "Stash.Project")
      λ v. require p.key (codes "Key") (require p.name (codes "Name") v)

unfoldable pub validate_user_api : User → Option Err
unfolding validate_api_object require
validate_user_api u = validate_api_object (codes "Stash.User") (require u.name (codes "Name"))

unfoldable pub validate_project_group_permission_api : GroupPermission → Option Err
unfolding validate_api_object require
validate_project_group_permission_api p =
    validate_api_object (codes "Stash.ProjectGroupPermission") (require p.group (codes "Name"))

unfoldable pub validate_deploy_key_api : DeployKey → Option Err
unfolding validate_api_object require
validate_deploy_key_api k =
    validate_api_object (codes "Stash.DeployKey")
      λ v. require k.label (codes "Key.Label") (require k.permission (codes "Permission") v)

-- The loop of a listing that collects the errors of the objects, and what it leaves in `errs`.
unfoldable pub validation_errors : {A : Type 0} → (A → Option Err) → List A → Errs
validation_errors valid [] = nil
validation_errors valid (a ∷ as') =
    let rest = validation_errors valid as' in elim (valid a) [ none ↦ rest | some e ↦ cons e rest ]

unfoldable pub collect : Errs → Option Err
collect nil = none
collect (cons e es) = some (collected (cons e es))

unfoldable pub validate_each : {A : Type 0} → (A → Option Err) → List A → Option Err
unfolding validation_errors collect
validate_each valid objs = collect (validation_errors valid objs)

-- `addTilde` of stash/client_repositories_user.go
unfoldable pub add_tilde : Str → Str
add_tilde [] = b'~' ∷ []
add_tilde (c ∷ s) = if c == b'~' then c ∷ s else b'~' ∷ c ∷ s

-- `getStashRefs` of stash/client_repositories_org.go: a reference to a user's repository has a slug
-- but no key.
unfoldable pub get_stash_refs : Ref → Str × Str
get_stash_refs (org r) = (r.organization_ref.key, r.slug)
get_stash_refs (user r) = (r.user_ref.user_login, r.slug)

-- `getStashRefs`, with the tilde for a user
unfoldable pub project_refs : Ref → Str × Str
unfolding add_tilde get_stash_refs
project_refs (org r) = get_stash_refs (org r)
project_refs (user r) = (add_tilde r.user_ref.user_login, (get_stash_refs (user r)).1)
