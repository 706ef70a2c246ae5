-- ===== src/Gitprovider/Enums/Known.antt =====
-- gitprovider/enums.go: a typed string and the map of its known values. The values of the map are
-- empty, so it is the list of its keys.
use go_git_providers.Prelude.{
  ◌≡◌, Bool, true, false, Option, none, some, List, [], ◌∷◌, Str, ◌==◌, nat_eq, list_eq, ◌||◌,
  if◌then◌else◌,
}
use go_git_providers.Errors.{Err, sentinel, field_enum_invalid}

-- `_, ok := known[v]`
unfoldable pub is_known : List Str → Str → Bool
is_known [] v = false
is_known (k ∷ ks) v = v == k || is_known ks v

-- The body of the three `Validate…` functions.
unfoldable pub validate : List Str → Str → Option Err
validate known v = if is_known known v then none else some (sentinel field_enum_invalid)

-- An optional value is one of the known ones, if it is set.
abbrev pub KnownIfSet : List Str → Option Str → Type 0
KnownIfSet known none = Unit
KnownIfSet known (some v) = is_known known v ≡ true
