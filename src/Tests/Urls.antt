-- ===== src/Tests/Urls.antt =====
-- References and their URLs at concrete values.
use go_git_providers.Prelude.{◌≡◌, ◌≢◌, refl, ◌↔◌, [], ◌∷◌, Str, codes, list_beq, arith}
use go_git_providers.Exec.{ok, panic, Attempt, failed, and_then}
use go_git_providers.Errors.{foreign}
use go_git_providers.Strings.{split, onto_first, trim_prefix, trim_suffix, after_prefix}
use go_git_providers.Gitprovider.Url.{Url, IsHost, is_host_byte, is_path_byte}
use go_git_providers.Gitprovider.Enums.Transport
use go_git_providers.Gitprovider.Refs.{
  UserRef, OrganizationRef, OrgRepositoryRef, user_string, organization_string, org_repository_ref,
}
use go_git_providers.Gitprovider.Refs.Clone.{get_clone_url}
use go_git_providers.Gitprovider.Refs.Panics.{Refused, get_clone_url-panics}
use go_git_providers.Gitprovider.ParseUrl.{
  parse_organization_url, parse_user_url, parse_org_repository_url, parse_url, check_url, any_empty,
  path_parts, to_organization,
}
use go_git_providers.Gitprovider.ParseUrl.Parts.{IsName}
use go_git_providers.Gitprovider.ParseUrl.RoundTrip.{
  IsPlain, parse-organization_string, parse-user_string, parse-clone_url,
}
use go_git_providers.Gitprovider.ParseUrl.Sound.{
  IsAccepted, parse_organization_url-ok, parse_organization_url-ne-panic,
}
use go_git_providers.Tests.Net.{plain_parse, plain_parse-UrlLaws}

abbrev pub flux : OrganizationRef
flux = record {
  domain = codes "github.com";
  organization = codes "flux";
  key = [];
  sub_organizations = [];
}

abbrev nested : OrganizationRef
nested = record flux { sub_organizations = codes "a-b" ∷ codes "c" ∷ [] }

abbrev nested_repository : OrgRepositoryRef
nested_repository = record {
  organization_ref = nested;
  repository_name = codes "podinfo";
  slug = [];
}

abbrev pub me : UserRef
me = record { domain = codes "github.com"; user_login = codes "me" }

github_com-IsHost : IsHost (codes "github.com")
unfolding is_host_byte
github_com-IsHost = ground arith

abbrev nested_url : Str
nested_url = codes "https://github.com/flux/a-b/c"

nested-IsPlain : IsPlain nested
unfolding is_host_byte is_path_byte
nested-IsPlain = record {
  host = github_com-IsHost;
  names = (
    record { not_empty = refl; plain = ground arith; no_slash = ground arith },
    (
      record { not_empty = refl; plain = ground arith; no_slash = ground arith },
      (record { not_empty = refl; plain = ground arith; no_slash = ground arith }, tt),
    ),
  );
  no_key = refl;
}

podinfo-IsName : IsName (codes "podinfo")
unfolding is_path_byte is_host_byte
podinfo-IsName = record { not_empty = refl; plain = ground arith; no_slash = ground arith }

me-IsName : IsName (codes "me")
unfolding is_path_byte is_host_byte
me-IsName = record { not_empty = refl; plain = ground arith; no_slash = ground arith }

parse-organization_string_example :
    and_then (organization_string plain_parse nested) (parse_organization_url plain_parse)
    ≡ ok nested
parse-organization_string_example =
    parse-organization_string plain_parse plain_parse-UrlLaws nested nested-IsPlain

parse-user_string_example :
    and_then (user_string plain_parse me) (parse_user_url plain_parse) ≡ ok me
parse-user_string_example =
    parse-user_string plain_parse plain_parse-UrlLaws me github_com-IsHost me-IsName

parse-clone_url_example :
    and_then
      (get_clone_url (org_repository_ref plain_parse nested_repository) Transport.https)
      (parse_org_repository_url plain_parse)
    ≡ ok nested_repository
parse-clone_url_example =
    parse-clone_url plain_parse plain_parse-UrlLaws nested_repository nested-IsPlain podinfo-IsName
      refl

nested_url-parsed : parse_organization_url plain_parse nested_url ≡ ok nested
unfolding parse_organization_url parse_url check_url any_empty path_parts to_organization split
    onto_first trim_prefix trim_suffix after_prefix list_beq
nested_url-parsed = refl

parse_organization_url-ok_example :
    (u : Url) × IsAccepted plain_parse nested_url u (codes "flux" ∷ codes "a-b" ∷ codes "c" ∷ [])
    × (codes "github.com" ≡ u.host)
    × (◌≡◌ {A = Str} [] [])
parse_organization_url-ok_example =
    parse_organization_url-ok plain_parse nested_url nested nested_url-parsed

parse_organization_url-ne-panic_example :
    parse_organization_url plain_parse (codes "https://github.com/") ≢ panic
parse_organization_url-ne-panic_example =
    parse_organization_url-ne-panic plain_parse (codes "https://github.com/")

-- A parser that knows no port on an address, as `url.Parse` of "192.168.1.1:6443".
abbrev refuse : Str → Attempt Url
refuse s = failed (foreign (codes "first path segment in URL cannot contain colon"))

get_clone_url-panics_example :
    (get_clone_url (org_repository_ref refuse nested_repository) Transport.https ≡ panic)
    ↔ Refused refuse (codes "github.com")
get_clone_url-panics_example = get_clone_url-panics refuse nested_repository
