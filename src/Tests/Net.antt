-- ===== src/Tests/Net.antt =====
-- A parser of plain URLs that keeps the laws of `url.Parse`.
use go_git_providers.Prelude.{
  ℕ, ◌≡◌, refl, ap, subst, true, false, Bool-cases, inl, inr, [], ◌∷◌, ◌++◌, Str, codes, slash,
  ◌==◌, ==_iff, ==_refl, nat_eq, if◌then◌else◌,
}
use go_git_providers.Exec.{got}
use go_git_providers.Gitprovider.Url.{Url, UrlParser, UrlLaws, IsHost, is_host_byte, https_url}

-- The text before the first separator, and the rest from it on.
abbrev break_at : ℕ → Str → Str × Str
break_at sep [] = ([], [])
break_at sep (c ∷ s) =
    let rest = break_at sep s in if c == sep then ([], c ∷ s) else (c ∷ rest.0, rest.1)

abbrev relative : Str → Url
relative path = record (https_url [] path) { scheme = [] }

abbrev behind_scheme : Str → Str → Url
behind_scheme scheme (_ ∷ _ ∷ _ ∷ rest) =
    record (https_url (break_at slash rest).0 (break_at slash rest).1) { scheme = scheme }
behind_scheme scheme _ = relative []

abbrev of_parts : Str × Str → Url
of_parts (path, []) = relative path
of_parts (scheme, c ∷ rest) = behind_scheme scheme (c ∷ rest)

abbrev pub plain_parse : UrlParser
plain_parse s = got (of_parts (break_at b':' s))

other_byte : (sep c : ℕ) → is_host_byte sep ≡ false → is_host_byte c ≡ true → (c == sep) ≡ false
other_byte sep c h k = elim (Bool-cases (c == sep)) [
  | inl e ↦ let q = subst (λ x. is_host_byte x ≡ true) ((==_iff c sep).0 e) k in cc
  | inr n ↦ n
]

break_at-host : (sep : ℕ) (s : Str) → is_host_byte sep ≡ false → IsHost s → break_at sep s ≡ (s, [])
break_at-host sep [] h k = refl
break_at-host sep (c ∷ s) h k = rw (other_byte sep c h k.0) (rw (break_at-host sep s h k.1))

break_at-separator :
    (sep : ℕ) (s t : Str)
    → is_host_byte sep ≡ false
    → IsHost s
    → break_at sep (s ++ (sep ∷ t)) ≡ (s, sep ∷ t)
break_at-separator sep [] t h k = rw (==_refl sep)
break_at-separator sep (c ∷ s) t h k =
    rw (other_byte sep c h k.0) (rw (break_at-separator sep s t h k.1))

pub plain_parse-UrlLaws : UrlLaws plain_parse
unfolding is_host_byte
plain_parse-UrlLaws = record {
  parse_host =
      λ host h. (relative host, ap (λ p. got (of_parts p)) (break_at-host b':' host refl h), refl);
  parse_https = λ host path h k.
      ap (λ p. got (record (https_url p.0 p.1) { scheme = codes "https" }))
        (break_at-separator slash host path refl h);
}
