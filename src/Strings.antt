-- ===== src/Strings.antt =====
-- What the code uses of Go's standard package `strings`, on byte strings.
pub mod Laws
use go_git_providers.Prelude.{
  ℕ, ◌+◌, ◌/◌, ◌%◌, Bool, true, false, ◌||◌, Option, none, some, List, [], ◌∷◌, ◌++◌, reverse, Str,
  ◌==◌, nat_eq, if◌then◌else◌,
}

-- `strings.Join`
unfoldable pub join : List Str → Str → Str
join [] sep = []
join (s ∷ []) sep = s
join (s ∷ t ∷ ss) sep = s ++ (sep ++ join (t ∷ ss) sep)

-- One more byte in front of the first piece.
unfoldable pub onto_first : ℕ → List Str → List Str
onto_first c [] = (c ∷ []) ∷ []
onto_first c (s ∷ ss) = (c ∷ s) ∷ ss

-- `strings.Split` at a separator of one byte
unfoldable pub split : Str → ℕ → List Str
unfolding onto_first
split [] sep = [] ∷ []
split (c ∷ s) sep = let rest = split s sep in if c == sep then [] ∷ rest else onto_first c rest

-- What follows a prefix, if the text begins with it.
unfoldable pub after_prefix : Str → Str → Option Str
after_prefix s [] = some s
after_prefix [] (p ∷ ps) = none
after_prefix (c ∷ s) (p ∷ ps) = let rest = after_prefix s ps in if c == p then rest else none

abbrev or_whole : Str → Option Str → Str
or_whole s none = s
or_whole s (some t) = t

-- `strings.TrimPrefix`
unfoldable pub trim_prefix : Str → Str → Str
unfolding after_prefix
trim_prefix s prefix = or_whole s (after_prefix s prefix)

-- `strings.TrimSuffix`
unfoldable pub trim_suffix : Str → Str → Str
unfolding trim_prefix
trim_suffix s suffix = reverse (trim_prefix (reverse s) (reverse suffix))

-- `strings.HasPrefix`
unfoldable pub has_prefix : Str → Str → Bool
unfolding after_prefix
has_prefix s prefix = elim (after_prefix s prefix) [ none ↦ false | some t ↦ true ]

-- `strings.Replace(s, old, "", -1)` for a non-empty `old`, which is a first byte and a rest: the
-- hits are taken from the left and do not overlap. The fuel is the length of the text.
unfoldable pub remove_from : ℕ → Str → Str → Str
unfolding after_prefix
remove_from ℕ.zero s old = s
remove_from (ℕ.suc fuel) [] old = []
remove_from (ℕ.suc fuel) (c ∷ s) old = elim (after_prefix (c ∷ s) old) [
  | some rest ↦ remove_from fuel rest old
  | none ↦ c ∷ remove_from fuel s old
]

-- `strings.Contains` for a non-empty text to look for
unfoldable pub contains : Str → Str → Bool
unfolding has_prefix
contains [] part = has_prefix [] part
contains (c ∷ s) part = has_prefix (c ∷ s) part || contains s part

-- `strconv.Itoa` of a number that is not negative, with fuel for its digits.
unfoldable pub digits : ℕ → ℕ → Str → Str
digits ℕ.zero n text = text
digits (ℕ.suc fuel) n text =
    let rest = digits fuel (n / 10) ((b'0' + n % 10) ∷ text) in
    if n / 10 == 0 then (b'0' + n % 10) ∷ text else rest

unfoldable pub itoa : ℕ → Str
unfolding digits
itoa n = digits (n + 1) n []
