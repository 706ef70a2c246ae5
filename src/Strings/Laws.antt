-- ===== src/Strings/Laws.antt =====
-- Laws of the `strings` functions: splitting undoes joining, a suffix that was put on comes off.
use mathlib.Core.List.{reverse-append, reverse-reverse}
use go_git_providers.Prelude.{
  ℕ, ◌≡◌, ◌≢◌, refl, ap, ◌∙◌, some, List, [], ◌∷◌, ◌++◌, Str, All, arith, ==_refl, nat_eq,
}
use go_git_providers.Strings.{join, onto_first, split, after_prefix, trim_suffix}

-- No byte of the text is `c`.
abbrev pub Avoids : ℕ → Str → Type 0
Avoids c = All (λ x. x ≢ c)

pub after_prefix-append : (p s : Str) → after_prefix (p ++ s) p ≡ some s
unfolding after_prefix
after_prefix-append [] s = refl
after_prefix-append (c ∷ p) s = rw ==_refl (after_prefix-append p s)

-- The suffix that was appended comes off again.
pub trim_suffix-append : (s suffix : Str) → trim_suffix (s ++ suffix) suffix ≡ s
unfolding trim_suffix
trim_suffix-append s suffix = rw (reverse-append, after_prefix-append, reverse-reverse)

split-Avoids : (s : Str) (c : ℕ) → Avoids c s → split s c ≡ s ∷ []
unfolding split onto_first
split-Avoids [] c h = refl
split-Avoids (x ∷ s) c h = ground (arith, h.0, split-Avoids s c h.1)

split-append : (s t : Str) (c : ℕ) → Avoids c s → split (s ++ (c ∷ t)) c ≡ s ∷ split t c
unfolding split onto_first
split-append [] t c h = rw ==_refl
split-append (x ∷ s) t c h = ground (arith, h.0, split-append s t c h.1)

-- Pieces without the separator, at least one of them, are what splitting their join gives.
pub split-join :
    (p : Str) (ps : List Str) (c : ℕ)
    → All (Avoids c) (p ∷ ps)
    → split (join (p ∷ ps) (c ∷ [])) c ≡ p ∷ ps
unfolding join
split-join p [] c h = split-Avoids p c h.0
split-join p (q ∷ ps) c h = split-append p _ c h.0 ∙ ap (λ l. p ∷ l) (split-join q ps c h.1)
