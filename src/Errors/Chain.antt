-- ===== src/Errors/Chain.antt =====
-- `errors.Is` on a tree of errors, against an inductive reading of "somewhere in the tree".
use mathlib.Core.Bool.{decide}
use go_git_providers.Prelude.{
  ◌≡◌, refl, sym, subst, true, ◌||◌, ◌↔◌, ◌⊎◌, inl, inr, Bool, String, List, Str, arith,
}
use go_git_providers.Errors.{
  Sentinel, Sentinel-discrete, same, Err, Errs, sentinel, wrap, multi, collected, nil, cons,
  errors_is, errors_is_any, is_error, the,
}

-- A sentinel stands in an error: it is the error, is wrapped by it, or stands in one of the
-- errors that a `MultiError` or a collection holds.
mutual
  pub data Holds (s : Sentinel) : Err → Type 0 where
    itself : Holds s (sentinel s)
    wrapped : {f : String} {args : List Str} {e : Err} → Holds s e → Holds s (wrap f args e)
    among : {es : Errs} → HoldsAny s es → Holds s (multi es)
    gathered : {es : Errs} → HoldsAny s es → Holds s (collected es)

  pub data HoldsAny (s : Sentinel) : Errs → Type 0 where
    first : {e : Err} {es : Errs} → Holds s e → HoldsAny s (cons e es)
    later : {e : Err} {es : Errs} → HoldsAny s es → HoldsAny s (cons e es)

pub same_iff : (a b : Sentinel) → (same a b ≡ true) ↔ (a ≡ b)
unfolding same
same_iff a b = elim (Sentinel-discrete a b) as (λ d. (decide d ≡ true) ↔ (a ≡ b)) [
  | yes p ↦ (λ h. p, λ h. refl)
  | no p ↦ (λ h. cc, λ h. absurd (p h))
]

pub or_cases : (a b : Bool) → a || b ≡ true → (a ≡ true) ⊎ (b ≡ true)
or_cases a b h = ground arith

or_true : (a : Bool) → a || true ≡ true
or_true a = ground arith

mutual
  unfolding errors_is

  is_error→Holds : (e : Err) (s : Sentinel) → errors_is e (the s) ≡ true → Holds s e
  is_error→Holds (sentinel t) s h =
      subst (λ x. Holds s (sentinel x)) (sym ((same_iff t s).0 h)) itself
  is_error→Holds (wrap f args e) s h = wrapped (is_error→Holds e s h)
  is_error→Holds (multi es) s h = among (any→HoldsAny es s h)
  is_error→Holds (collected es) s h = gathered (any→HoldsAny es s h)
  is_error→Holds _ s h = cc

  any→HoldsAny : (es : Errs) (s : Sentinel) → errors_is_any es (the s) ≡ true → HoldsAny s es
  any→HoldsAny nil s h = cc
  any→HoldsAny (cons e es) s h = elim (or_cases _ _ h) [
    | inl p ↦ first (is_error→Holds e s p)
    | inr p ↦ later (any→HoldsAny es s p)
  ]

mutual
  unfolding errors_is

  Holds→is_error : {e : Err} {s : Sentinel} → Holds s e → errors_is e (the s) ≡ true
  Holds→is_error {s = s} itself = (same_iff s s).1 refl
  Holds→is_error (wrapped h) = Holds→is_error h
  Holds→is_error (among h) = HoldsAny→any h
  Holds→is_error (gathered h) = HoldsAny→any h

  HoldsAny→any : {es : Errs} {s : Sentinel} → HoldsAny s es → errors_is_any es (the s) ≡ true
  HoldsAny→any (first h) = rw (Holds→is_error h) refl
  HoldsAny→any (later h) = rw (HoldsAny→any h) (or_true _)

-- `errors.Is` with a sentinel answers true exactly when the sentinel stands somewhere in the tree
-- of wrapped and collected errors.
pub is_error-iff-Holds : (e : Err) (s : Sentinel) → (is_error e s ≡ true) ↔ Holds s e
is_error-iff-Holds e s = (λ h. is_error→Holds e s h, λ h. Holds→is_error h)
