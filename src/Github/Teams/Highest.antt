-- ===== src/Github/Teams/Highest.antt =====
-- `getPermissionFromMap`: Go iterates over a map in no particular order.
use mathlib.Core.Logic.{∥∥₁_elim}
use mathlib.Core.List.{Permᴰ, Perm}
use go_git_providers.Prelude.{
  ℕ, ◌≤◌, ◌≡◌, ◌≢◌, refl, ap, ◌∙◌, subst, Bool, true, false, Bool-cases, ◌⊎◌, inl, inr, Option,
  none, some, List, [], ◌∷◌, Str, arith, ==_iff, ltb, nat_eq, list_eq,
}
use go_git_providers.Gitprovider.Enums.Permission
use go_git_providers.Github.Teams.{
  permission_priority, better, consider, consider_all, get_permission_from_map, Best,
}

-- No two permissions have the same priority.
priority-injective :
    (p q : Str) (n : ℕ) → permission_priority p ≡ some n → permission_priority q ≡ some n → p ≡ q
unfolding permission_priority
priority-injective p q n h k = ground (
  arith,
  ==_iff p Permission.pull,
  ==_iff p Permission.triage,
  ==_iff p Permission.push,
  ==_iff p Permission.maintain,
  ==_iff p Permission.admin,
  ==_iff q Permission.pull,
  ==_iff q Permission.triage,
  ==_iff q Permission.push,
  ==_iff q Permission.maintain,
  ==_iff q Permission.admin,
)

compare_cases : (m n : ℕ) → (m ≡ n) ⊎ (m ≢ n)
compare_cases m n = ground arith

better-swap :
    (p q : Str) (m n : Option ℕ) (best : Best)
    → permission_priority p ≡ m
    → permission_priority q ≡ n
    → better p m (better q n best) ≡ better q n (better p m best)
unfolding better
better-swap p q none n best h k = refl
better-swap p q (some m) none best h k = refl
better-swap p q (some m) (some n) (b, l) h k = elim (compare_cases m n) [
  | inl e ↦ let e' = priority-injective p q n (h ∙ ap some e) k in ground (arith, e, e')
  | inr ne ↦ ground (arith, ne)
]

consider-swap :
    (a b : Str × Bool) (best : Best) → consider a (consider b best) ≡ consider b (consider a best)
unfolding consider
consider-swap (p, false) b best = refl
consider-swap (p, true) (q, false) best = refl
consider-swap (p, true) (q, true) best =
    better-swap p q (permission_priority p) (permission_priority q) best refl refl

consider_all-Permᴰ :
    {xs ys : List (Str × Bool)} (best : Best)
    → Permᴰ xs ys
    → consider_all xs best ≡ consider_all ys best
unfolding consider_all
consider_all-Permᴰ best Permᴰ.nil = refl
consider_all-Permᴰ best (Permᴰ.cons {a = a} {b = b} {l₂ = ys} e d) =
    consider_all-Permᴰ (consider a best) d ∙ ap (λ x. consider_all ys (consider x best)) e
consider_all-Permᴰ best (Permᴰ.swap {a = a} {b = b} {a' = a'} {b' = b'} {l = l} e f) =
    ap (λ s. consider_all l s) (consider-swap b a best)
    ∙ ap (λ x. consider_all l (consider x (consider b best))) e
    ∙ ap (λ x. consider_all l (consider b' (consider x best))) f
consider_all-Permᴰ best (Permᴰ.trans d e) = consider_all-Permᴰ best d ∙ consider_all-Permᴰ best e

Permission-set : IsSet (Option Str)
Permission-set = hlevel

-- The permission that is found does not depend on the order in which the map is iterated over.
pub get_permission_from_map-Perm :
    {xs ys : List (Str × Bool)}
    → Perm xs ys
    → get_permission_from_map xs ≡ get_permission_from_map ys
unfolding get_permission_from_map
get_permission_from_map-Perm p =
    ∥∥₁_elim p (Permission-set _ _) (λ d. ap (λ b. b.0) (consider_all-Permᴰ (none, 0) d))

-- The map holds the key with the value true.
abbrev pub HasTrue : Str → List (Str × Bool) → Type 0
HasTrue p [] = ⊥
HasTrue p ((q, b) ∷ xs) = (p ≡ q) × (b ≡ true) ⊎ HasTrue p xs

-- The variables of the loop fit together.
abbrev Ranked : Best → Type 0
Ranked (none, l) = l ≡ 0
Ranked (some q, l) = permission_priority q ≡ some l

better-Ranked :
    (p : Str) (o : Option ℕ) (best : Best)
    → permission_priority p ≡ o
    → Ranked best
    → Ranked (better p o best) × (best.1 ≤ (better p o best).1)
unfolding better
better-Ranked p none best h r = (r, omega arith)
better-Ranked p (some n) (b, l) h r = elim (Bool-cases (ltb l n)) [
  | inl e ↦ rw e (h, ground arith)
  | inr e ↦ rw e (r, omega arith)
]

consider-Ranked :
    (x : Str × Bool) (best : Best)
    → Ranked best
    → Ranked (consider x best) × (best.1 ≤ (consider x best).1)
unfolding consider
consider-Ranked (p, false) best r = (r, omega arith)
consider-Ranked (p, true) best r = better-Ranked p (permission_priority p) best refl r

consider_all-Ranked :
    (xs : List (Str × Bool)) (best : Best)
    → Ranked best
    → Ranked (consider_all xs best) × (best.1 ≤ (consider_all xs best).1)
unfolding consider_all
consider_all-Ranked [] best r = (r, omega arith)
consider_all-Ranked (x ∷ xs) best r =
    let (a, b) = consider-Ranked x best r in
    let (c, d) = consider_all-Ranked xs (consider x best) a in (c, omega arith)

better-reaches : (p : Str) (n : ℕ) (best : Best) → n ≤ (better p (some n) best).1
unfolding better
better-reaches p n best = ground arith

consider-reaches :
    (p : Str) (n : ℕ) (best : Best)
    → permission_priority p ≡ some n
    → n ≤ (consider (p, true) best).1
unfolding consider
consider-reaches p n best h = rw h (better-reaches p n best)

consider_all-reaches :
    (xs : List (Str × Bool)) (best : Best) (p : Str) (n : ℕ)
    → Ranked best
    → HasTrue p xs
    → permission_priority p ≡ some n
    → n ≤ (consider_all xs best).1
unfolding consider_all
consider_all-reaches [] best p n r m h = absurd m
consider_all-reaches ((q, b) ∷ xs) best p n r (inl (e, t)) h =
    let a = consider-Ranked (q, b) best r in
    let d = consider_all-Ranked xs (consider (q, b) best) (a.0) in
    let g : n ≤ (consider (q, b) best).1 =
      rw t (consider-reaches q n best (subst (λ z. permission_priority z ≡ some n) e h)) in
    omega (arith, d.1, g)
consider_all-reaches ((q, b) ∷ xs) best p n r (inr m) h =
    consider_all-reaches xs (consider (q, b) best) p n (consider-Ranked (q, b) best r).0 m h

priority-positive : (p : Str) (n : ℕ) → permission_priority p ≡ some n → 1 ≤ n
unfolding permission_priority
priority-positive p n h = ground arith

highest :
    (best : Best) (n : ℕ)
    → Ranked best
    → 1 ≤ n
    → n ≤ best.1
    → (q : Str) × (m : ℕ) × (best.0 ≡ some q) × (permission_priority q ≡ some m) × (n ≤ m)
highest (none, l) n r a b = absurd (omega (arith, r, a, b))
highest (some q, l) n r a b = (q, l, refl, r, b)

-- Where the map grants a known permission, the answer is a permission of at least its priority.
pub get_permission_from_map-highest :
    (xs : List (Str × Bool)) (p : Str) (n : ℕ)
    → HasTrue p xs
    → permission_priority p ≡ some n
    → (q : Str) × (m : ℕ) × (get_permission_from_map xs ≡ some q)
      × (permission_priority q ≡ some m)
      × (n ≤ m)
unfolding get_permission_from_map
get_permission_from_map-highest xs p n h k =
    highest (consider_all xs (none, 0)) n (consider_all-Ranked xs (none, 0) refl).0
      (priority-positive p n k) (consider_all-reaches xs (none, 0) p n refl h k)

-- The permission that the loop holds is the one that it began with, or is granted by the map.
consider-granted :
    (x : Str × Bool) (best : Best) (q : Str)
    → (consider x best).0 ≡ some q
    → (best.0 ≡ some q) ⊎ ((q ≡ x.0) × (x.1 ≡ true))
unfolding consider better
consider-granted (p, false) best q h = inl h
consider-granted (p, true) best q h = ground arith

consider_all-granted :
    (xs : List (Str × Bool)) (best : Best) (q : Str)
    → (consider_all xs best).0 ≡ some q
    → (best.0 ≡ some q) ⊎ HasTrue q xs
unfolding consider_all
consider_all-granted [] best q h = inl h
consider_all-granted (x ∷ xs) best q h = elim (consider_all-granted xs (consider x best) q h) [
  | inr m ↦ inr (inr m)
  | inl e ↦ elim (consider-granted x best q e) [ inl e' ↦ inl e' | inr m ↦ inr (inl m) ]
]

-- A permission that is found is one that the map grants.
pub get_permission_from_map-granted :
    (xs : List (Str × Bool)) (q : Str) → get_permission_from_map xs ≡ some q → HasTrue q xs
unfolding get_permission_from_map
get_permission_from_map-granted xs q h = elim (consider_all-granted xs (none, 0) q h) [
  | inl e ↦ cc
  | inr m ↦ m
]
