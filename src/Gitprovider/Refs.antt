-- ===== src/Gitprovider/Refs.antt =====
-- gitprovider/repositoryref.go: references to users, organizations and repositories, their
-- validation and their URLs.
pub mod Clone
pub mod Panics
use go_git_providers.Prelude.{
  Bool, true, false, ◌&&◌, Option, none, some, List, [], ◌∷◌, ◌++◌, Str, codes, slash, is_empty,
}
use go_git_providers.Exec.{Result, ok, and_then}
use go_git_providers.Strings.{join}
use go_git_providers.Validation.{Validator}
use go_git_providers.Gitprovider.Info.{require}
use go_git_providers.Gitprovider.Url.{UrlParser, get_domain_url}

abbrev pub IdentityType : Type 0
IdentityType = Str

abbrev pub identity_type_user : IdentityType
identity_type_user = codes "user"

abbrev pub identity_type_organization : IdentityType
identity_type_organization = codes "organization"

abbrev pub identity_type_suborganization : IdentityType
identity_type_suborganization = codes "suborganization"

-- The interfaces `IdentityRef` and `RepositoryRef`: what their methods answer. `string` may panic.
pub record IdentityRef : Type 0 where
  pub get_domain : Str
  pub get_identity : Str
  pub get_type : IdentityType
  pub string : Result Str

pub record RepositoryRef : Type 0 where
  pub identity : IdentityRef
  pub open identity use *
  pub get_repository : Str

pub record UserRef : Type 0 where
  pub domain : Str
  pub user_login : Str

pub record OrganizationRef : Type 0 where
  pub domain : Str
  pub organization : Str
  pub key : Str
  pub sub_organizations : List Str

pub record OrgRepositoryRef : Type 0 where
  pub organization_ref : OrganizationRef
  pub repository_name : Str
  pub slug : Str

pub record UserRepositoryRef : Type 0 where
  pub user_ref : UserRef
  pub repository_name : Str
  pub slug : Str

-- `(OrganizationRef).GetIdentity`
unfoldable pub organization_identity : OrganizationRef → Str
unfolding join
organization_identity o = join (o.organization ∷ o.sub_organizations) (slash ∷ [])

-- `(OrganizationRef).GetType`
unfoldable pub organization_type : OrganizationRef → IdentityType
organization_type o = elim o.sub_organizations [
  | [] ↦ identity_type_organization
  | s ∷ ss ↦ identity_type_suborganization
]

-- `SetKey`, `SetSlug`
unfoldable pub set_key : Str → OrganizationRef → OrganizationRef
set_key key o = record o { key = key }

unfoldable pub set_org_slug : Str → OrgRepositoryRef → OrgRepositoryRef
set_org_slug slug r = record r { slug = slug }

unfoldable pub set_user_slug : Str → UserRepositoryRef → UserRepositoryRef
set_user_slug slug r = record r { slug = slug }

-- `fmt.Sprintf("%s/%s", a, b)`
abbrev pub slashed : Str → Str → Str
slashed a b = a ++ (slash ∷ b)

module _ (parse : UrlParser) where
  -- the two `String` methods of identities
  unfoldable pub user_string : UserRef → Result Str
  user_string u = and_then (get_domain_url parse u.domain) (λ d. ok (slashed d u.user_login))

  unfoldable pub organization_string : OrganizationRef → Result Str
  organization_string o =
      and_then (get_domain_url parse o.domain) (λ d. ok (slashed d (organization_identity o)))

  -- the two `String` methods of repositories
  unfoldable pub org_repository_string : OrgRepositoryRef → Result Str
  unfolding organization_string
  org_repository_string r =
      and_then (organization_string r.organization_ref) (λ s. ok (slashed s r.repository_name))

  unfoldable pub user_repository_string : UserRepositoryRef → Result Str
  unfolding user_string
  user_repository_string r =
      and_then (user_string r.user_ref) (λ s. ok (slashed s r.repository_name))

  -- the references as values of the interfaces
  abbrev pub user_identity_ref : UserRef → IdentityRef
  user_identity_ref u = record {
    get_domain = u.domain;
    get_identity = u.user_login;
    get_type = identity_type_user;
    string = user_string u;
  }

  abbrev pub organization_identity_ref : OrganizationRef → IdentityRef
  organization_identity_ref o = record {
    get_domain = o.domain;
    get_identity = organization_identity o;
    get_type = organization_type o;
    string = organization_string o;
  }

  abbrev pub org_repository_ref : OrgRepositoryRef → RepositoryRef
  org_repository_ref r = record {
    identity = record (organization_identity_ref r.organization_ref) {
      string = org_repository_string r;
    };
    get_repository = r.repository_name;
  }

  abbrev pub user_repository_ref : UserRepositoryRef → RepositoryRef
  user_repository_ref r = record {
    identity = record (user_identity_ref r.user_ref) { string = user_repository_string r };
    get_repository = r.repository_name;
  }

-- the `ValidateFields` methods
unfoldable pub user_validate_fields : UserRef → Validator → Validator
unfolding require
user_validate_fields u v =
    require u.user_login (codes "UserLogin") (require u.domain (codes "Domain") v)

unfoldable pub organization_validate_fields : OrganizationRef → Validator → Validator
unfolding require
organization_validate_fields o v =
    require o.organization (codes "Organization") (require o.domain (codes "Domain") v)

unfoldable pub org_repository_validate_fields : OrgRepositoryRef → Validator → Validator
unfolding organization_validate_fields
org_repository_validate_fields r v =
    require r.repository_name (codes "RepositoryName")
      (organization_validate_fields r.organization_ref v)

unfoldable pub user_repository_validate_fields : UserRepositoryRef → Validator → Validator
unfolding user_validate_fields
user_repository_validate_fields r v =
    require r.repository_name (codes "RepositoryName") (user_validate_fields r.user_ref v)
