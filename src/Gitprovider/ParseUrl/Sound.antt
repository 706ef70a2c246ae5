-- ===== src/Gitprovider/ParseUrl/Sound.antt =====
-- What a URL that was accepted looks like, and why one is refused.
use go_git_providers.Prelude.{
  ℕ, ◌≡◌, ◌≢◌, refl, sym, ◌∙◌, subst, true, false, inl, inr, Bool-cases, List, [], ◌∷◌, Str, codes,
  slash, is_empty, All, arith, ==_iff, nat_eq, list_eq, ◌==◌,
}
use go_git_providers.Exec.{Result, ok, err, panic, out_of_fuel, and_then, Attempt, got, failed}
use go_git_providers.Strings.{split, onto_first, trim_prefix, trim_suffix}
use go_git_providers.Strings.Laws.{Avoids}
use go_git_providers.Gitprovider.Url.{Url, UrlParser}
use go_git_providers.Gitprovider.Refs.{OrganizationRef}
use go_git_providers.Gitprovider.ParseUrl.{
  any_empty, path_parts, check_url, parse_url, parse_organization_url, to_organization,
}

-- Every part is non-empty and free of slashes.
abbrev pub ArePart : List Str → Type 0
ArePart = All (λ p. (is_empty p ≡ false) × Avoids slash p)

onto_first-Avoids :
    (c : ℕ) (ss : List Str)
    → c ≢ slash
    → All (Avoids slash) ss
    → All (Avoids slash) (onto_first c ss)
unfolding onto_first
onto_first-Avoids c [] h a = ((h, tt), tt)
onto_first-Avoids c (s ∷ ss) h a = ((h, a.0), a.1)

split-AllAvoid : (s : Str) → All (Avoids slash) (split s slash)
unfolding split
split-AllAvoid [] = (tt, tt)
split-AllAvoid (c ∷ s) = elim (Bool-cases (c == slash)) [
  | inl e ↦ rw e (tt, split-AllAvoid s)
  | inr e ↦ rw e (onto_first-Avoids c _ (λ p. ground (arith, p)) (split-AllAvoid s))
]

parts-ArePart : (ps : List Str) → any_empty ps ≡ false → All (Avoids slash) ps → ArePart ps
unfolding any_empty
parts-ArePart [] e h = tt
parts-ArePart (p ∷ ps) e h = ((ground arith, h.0), parts-ArePart ps (ground arith) h.1)

-- What `parseURL` accepts.
pub record IsAccepted (parse : UrlParser) (str : Str) (u : Url) (parts : List Str) : Type 0 where
  pub parsed : parse str ≡ got u
  pub not_empty : is_empty str ≡ false
  pub https : u.scheme ≡ codes "https"
  pub no_fragment : is_empty u.fragment ≡ true
  pub no_query : is_empty u.raw_query ≡ true
  pub no_user : is_empty u.user ≡ true
  pub path : parts ≡ path_parts u.path
  pub parts_ok : ArePart parts

path_parts-Avoids : (s : Str) → All (Avoids slash) (path_parts s)
unfolding path_parts
path_parts-Avoids s = split-AllAvoid (trim_suffix (trim_prefix s (slash ∷ [])) (slash ∷ []))

-- The tests of `parseURL` that an accepted URL has passed.
check_url_ok :
    (str : Str) (a : Attempt Url) (u : Url) (parts : List Str)
    → check_url str a ≡ ok (u, parts)
    → (a ≡ got u)
      × (u.scheme ≡ codes "https")
      × (is_empty u.fragment ≡ true)
      × (is_empty u.raw_query ≡ true)
      × (is_empty u.user ≡ true)
      × (parts ≡ path_parts u.path)
      × (any_empty parts ≡ false)
unfolding check_url
check_url_ok str (failed e) u parts h = cc
check_url_ok str (got v) u parts h = ground (arith, ==_iff v.scheme (codes "https"))

onto_first-cons : (c : ℕ) (ss : List Str) → (p : Str) × (ps : List Str) × (onto_first c ss ≡ p ∷ ps)
unfolding onto_first
onto_first-cons c [] = (c ∷ [], [], refl)
onto_first-cons c (s ∷ ss) = (c ∷ s, ss, refl)

split-cons : (s : Str) (c : ℕ) → (p : Str) × (ps : List Str) × (split s c ≡ p ∷ ps)
unfolding split
split-cons [] c = ([], [], refl)
split-cons (x ∷ s) c = elim (Bool-cases (x == c)) [
  | inl e ↦ ([], split s c, rw e)
  | inr e ↦ rw e (onto_first-cons x (split s c))
]

path_parts-cons : (s : Str) → (p : Str) × (ps : List Str) × (path_parts s ≡ p ∷ ps)
unfolding path_parts
path_parts-cons s = split-cons (trim_suffix (trim_prefix s (slash ∷ [])) (slash ∷ [])) slash

check_url-ne-panic :
    (str : Str) (a : Attempt Url) → and_then (check_url str a) to_organization ≢ panic
unfolding check_url to_organization
check_url-ne-panic str (failed e) h = cc
check_url-ne-panic str (got u) h = let (p, ps, e) = path_parts-cons u.path in ground (arith, e, h)

module _ (parse : UrlParser) where
  accepted :
      (str : Str) {r : Url × List Str}
      → parse_url parse str ≡ ok r
      → (is_empty str ≡ false) × (check_url str (parse str) ≡ ok r)
  unfolding parse_url
  accepted [] h = cc
  accepted (c ∷ str) h = (refl, h)

  -- An accepted URL is an HTTPS one without fragment, query and user, and its parts are non-empty
  -- and free of slashes.
  pub parse_url-IsAccepted :
      (str : Str) (u : Url) (parts : List Str)
      → parse_url parse str ≡ ok (u, parts)
      → IsAccepted parse str u parts
  parse_url-IsAccepted str u parts h =
      let p = accepted str h in
      let (a, b, c, d, e, f, g) = check_url_ok str (parse str) u parts p.1 in
      record {
        parsed = a;
        not_empty = p.0;
        https = b;
        no_fragment = c;
        no_query = d;
        no_user = e;
        path = f;
        parts_ok =
            parts-ArePart parts g (subst (All (Avoids slash)) (sym f) (path_parts-Avoids u.path));
      }

  -- An organization that was parsed comes of a text that `parseURL` accepts: it is named by the
  -- URL's host and by the parts of its path, and has no key.
  pub parse_organization_url-ok :
      (str : Str) (o : OrganizationRef)
      → parse_organization_url parse str ≡ ok o
      → (u : Url) × IsAccepted parse str u (o.organization ∷ o.sub_organizations)
        × (o.domain ≡ u.host)
        × (o.key ≡ [])
  unfolding parse_organization_url
  parse_organization_url-ok str o h = go (parse_url parse str) refl h
    where
      go :
          (r : Result (Url × List Str))
          → parse_url parse str ≡ r
          → and_then r to_organization ≡ ok o
          → (u : Url) × IsAccepted parse str u (o.organization ∷ o.sub_organizations)
            × (o.domain ≡ u.host)
            × (o.key ≡ [])
      go (ok (u, [])) e k = cc
      go (ok (u, p ∷ ps)) e k = (
        u,
        parse_url-IsAccepted str u _ (e ∙ ground (arith, k)),
        ground (arith, k),
        ground (arith, k),
      )
      go (err x) e k = cc
      go panic e k = cc
      go out_of_fuel e k = cc

  -- Parsing the URL of an organization does not panic: it never indexes an empty slice of parts.
  pub parse_organization_url-ne-panic : (str : Str) → parse_organization_url parse str ≢ panic
  unfolding parse_organization_url parse_url
  parse_organization_url-ne-panic [] h = cc
  parse_organization_url-ne-panic (c ∷ str) h = check_url-ne-panic (c ∷ str) (parse (c ∷ str)) h
