-- ===== src/Gitprovider/Refs/Panics.antt =====
-- gitprovider/util.go and gitprovider/repositoryref.go: when a URL cannot be printed.
use go_git_providers.Prelude.{◌≡◌, refl, ◌↔◌, ◌⊎◌, inl, inr, Str, arith, list_beq}
use go_git_providers.Errors.{Err}
use go_git_providers.Exec.{ok, panic, Attempt, got, failed}
use go_git_providers.Gitprovider.Enums.Transport
use go_git_providers.Gitprovider.Url.{Url, UrlParser, with_scheme, get_domain_url}
use go_git_providers.Gitprovider.Refs.{
  OrgRepositoryRef, organization_string, org_repository_string, org_repository_ref,
}
use go_git_providers.Gitprovider.Refs.Clone.{get_clone_url}

abbrev HasFailed : Attempt Url → Type 0
HasFailed a = (e : Err) × (a ≡ failed e)

-- The parser refuses the text.
abbrev pub Refused : UrlParser → Str → Type 0
Refused parse s = HasFailed (parse s)

with_scheme-cases :
    (d : Str) (a : Attempt Url)
    → ((s : Str) × (with_scheme d a ≡ ok s)) × ¬ (HasFailed a)
      ⊎ (with_scheme d a ≡ panic) × HasFailed a
unfolding with_scheme
with_scheme-cases d (got u) = inl ((_, refl), λ q. cc)
with_scheme-cases d (failed e) = inr (refl, (e, refl))

get_domain_url-cases :
    (parse : UrlParser) (d : Str)
    → ((a : Str) × (get_domain_url parse d ≡ ok a)) × ¬ (Refused parse d)
      ⊎ (get_domain_url parse d ≡ panic) × Refused parse d
unfolding get_domain_url
get_domain_url-cases parse d = with_scheme-cases d (parse d)

-- Asking for the HTTPS clone URL of an organization's repository panics exactly when the parser
-- refuses the organization's domain.
pub get_clone_url-panics :
    (parse : UrlParser) (r : OrgRepositoryRef)
    → (get_clone_url (org_repository_ref parse r) Transport.https ≡ panic)
      ↔ Refused parse r.organization_ref.domain
unfolding get_clone_url org_repository_string organization_string list_beq
get_clone_url-panics parse r = elim (get_domain_url-cases parse r.organization_ref.domain) [
  | inl p ↦ (λ h. absurd (ground (arith, p.0.1, h)), λ q. absurd (p.1 q))
  | inr p ↦ (λ h. p.1, λ q. rw (p.0))
]
