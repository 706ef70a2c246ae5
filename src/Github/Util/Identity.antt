-- ===== src/Github/Util/Identity.antt =====
-- Which references the GitHub client takes.
use go_git_providers.Prelude.{
  ◌≡◌, false, ◌↔◌, none, List, [], ◌∷◌, Str, is_empty, arith, ==_iff, nat_eq, list_eq, list_beq,
}
use go_git_providers.Gitprovider.Url.{UrlParser}
use go_git_providers.Gitprovider.Refs.{OrganizationRef, OrgRepositoryRef, organization_type}
use go_git_providers.Github.Util.{validate_org_repository_ref, validate_organization_ref}

-- An organization that GitHub has: at the client's domain, named, at the top level.
pub record IsTopLevel (o : OrganizationRef) (domain : Str) : Type 0 where
  pub same_domain : o.domain ≡ domain
  pub has_domain : is_empty o.domain ≡ false
  pub has_name : is_empty o.organization ≡ false
  pub top : o.sub_organizations ≡ []

module _ (parse : UrlParser) where
  organization_parts :
      (d n k : Str) (subs : List Str) (expected : Str)
      → (validate_organization_ref parse
            (record { domain = d; organization = n; key = k; sub_organizations = subs })
            expected
          ≡ none)
        ↔ (d ≡ expected) × (is_empty d ≡ false) × (is_empty n ≡ false) × (subs ≡ [])
  unfolding validate_organization_ref organization_type list_beq
  organization_parts d n k [] expected =
      (λ h. ground (arith, ==_iff d expected), λ h. ground (arith, ==_iff d expected))
  organization_parts d n k (s ∷ subs) expected =
      (λ h. ground (arith, ==_iff d expected), λ h. absurd (ground arith))

  repository_parts :
      (d n k q sl : Str) (subs : List Str) (expected : Str)
      → (validate_org_repository_ref parse
            (record {
              organization_ref = record {
                domain = d;
                organization = n;
                key = k;
                sub_organizations = subs;
              };
              repository_name = q;
              slug = sl;
            })
            expected
          ≡ none)
        ↔ (d ≡ expected)
          × (is_empty d ≡ false)
          × (is_empty n ≡ false)
          × (subs ≡ [])
          × (is_empty q ≡ false)
  unfolding validate_org_repository_ref organization_type list_beq
  repository_parts d n k q sl [] expected =
      (λ h. ground (arith, ==_iff d expected), λ h. ground (arith, ==_iff d expected))
  repository_parts d n k q sl (s ∷ subs) expected =
      (λ h. ground (arith, ==_iff d expected), λ h. absurd (ground arith))

  -- A reference to a repository is accepted exactly when it and its organization are named, the
  -- organization is at the top level, and the domain is the client's.
  pub validate_org_repository_ref_iff :
      (r : OrgRepositoryRef) (expected : Str)
      → (validate_org_repository_ref parse r expected ≡ none)
        ↔ (IsTopLevel r.organization_ref expected × (is_empty r.repository_name ≡ false))
  validate_org_repository_ref_iff r expected =
      let o = r.organization_ref in
      let p =
        repository_parts o.domain o.organization o.key r.repository_name r.slug o.sub_organizations
          expected in
      (
        λ h.
            let (a, b, c, d, e) = p.0 h in
            (record { same_domain = a; has_domain = b; has_name = c; top = d }, e),
        λ h. p.1 (h.0.same_domain, h.0.has_domain, h.0.has_name, h.0.top, h.1),
      )

  -- The same of an organization.
  pub validate_organization_ref_iff :
      (o : OrganizationRef) (expected : Str)
      → (validate_organization_ref parse o expected ≡ none) ↔ IsTopLevel o expected
  validate_organization_ref_iff o expected =
      let p = organization_parts o.domain o.organization o.key o.sub_organizations expected in
      (
        λ h.
            let (a, b, c, d) = p.0 h in
            record { same_domain = a; has_domain = b; has_name = c; top = d },
        λ h. p.1 (h.same_domain, h.has_domain, h.has_name, h.top),
      )
