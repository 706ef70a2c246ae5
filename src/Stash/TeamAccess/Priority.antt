-- ===== src/Stash/TeamAccess/Priority.antt =====
-- stash/resource_teamaccess.go: permissions of Stash, their priorities, and those of the provider.
use go_git_providers.Prelude.{
  ◌≡◌, refl, sym, ap, ◌∙◌, ℕ, ◌≤◌, ◌⊎◌, inl, inr, Option, none, some, List, [], ◌∷◌, Str, arith,
  ==_iff, nat_eq, list_eq, list_beq,
}
use go_git_providers.Exec.{ok}
use go_git_providers.Gitprovider.Enums.Permission
use go_git_providers.Gitprovider.Enums.Permission.{RepositoryPermission}
use go_git_providers.Stash.DeployKey.{stash_permission_read, stash_permission_write}
use go_git_providers.Stash.TeamAccess.{
  stash_permission_admin, stash_priority, priority_of, raise, get_stash_permission_from_map,
  get_stash_permission, find_stash_permission, stash_permission_at, access_of,
  get_git_provider_permission, permission_at,
}

-- A priority is at least as high as that of each key.
abbrev pub IsAbove : ℕ → List Str → Type 0
IsAbove n [] = Unit
IsAbove n (key ∷ keys) =
    ((p : ℕ) → priority_of key stash_priority ≡ some p → p ≤ n) × IsAbove n keys

-- A priority is that of one of the keys.
abbrev pub Reached : ℕ → List Str → Type 0
Reached n [] = ⊥
Reached n (key ∷ keys) = (priority_of key stash_priority ≡ some n) ⊎ Reached n keys

raise-le : (o : Option ℕ) (n : ℕ) → n ≤ raise o n
unfolding raise
raise-le none n = omega arith
raise-le (some p) n = ground arith

raise-above : (o : Option ℕ) (n p : ℕ) → o ≡ some p → p ≤ raise o n
unfolding raise
raise-above none n p h = cc
raise-above (some q) n p h = ground arith

raise-reached : (o : Option ℕ) (n : ℕ) → (raise o n ≡ n) ⊎ (o ≡ some (raise o n))
unfolding raise
raise-reached none n = inl refl
raise-reached (some p) n = ground arith

from_map-le : (keys : List Str) (n : ℕ) → n ≤ get_stash_permission_from_map keys n
unfolding get_stash_permission_from_map
from_map-le [] n = omega arith
from_map-le (key ∷ keys) n =
    let a = from_map-le keys (raise (priority_of key stash_priority) n) in
    let b = raise-le (priority_of key stash_priority) n in omega arith

from_map-IsAbove : (keys : List Str) (n : ℕ) → IsAbove (get_stash_permission_from_map keys n) keys
unfolding get_stash_permission_from_map
from_map-IsAbove [] n = tt
from_map-IsAbove (key ∷ keys) n = (
  λ p h.
      let a = from_map-le keys (raise (priority_of key stash_priority) n) in
      let b = raise-above (priority_of key stash_priority) n p h in omega arith,
  from_map-IsAbove keys (raise (priority_of key stash_priority) n),
)

from_map-Reached :
    (keys : List Str) (n : ℕ)
    → (get_stash_permission_from_map keys n ≡ n)
      ⊎ Reached (get_stash_permission_from_map keys n) keys
unfolding get_stash_permission_from_map
from_map-Reached [] n = inl refl
from_map-Reached (key ∷ keys) n =
    elim (from_map-Reached keys (raise (priority_of key stash_priority) n)) [
      | inr r ↦ inr (inr r)
      | inl e ↦ elim (raise-reached (priority_of key stash_priority) n) [
        | inl z ↦ inl (e ∙ z)
        | inr z ↦ inr (inl (z ∙ ap some (sym e)))
      ]
    ]

-- The result of `getStashPermissionFromMap`, which goes over a map in any order, is at least the
-- priority of every permission of the map, and is 0 or the priority of one of them.
pub get_stash_permission_from_map-greatest :
    (keys : List Str)
    → let n = get_stash_permission_from_map keys 0 in IsAbove n keys × ((n ≡ 0) ⊎ Reached n keys)
get_stash_permission_from_map-greatest keys = (from_map-IsAbove keys 0, from_map-Reached keys 0)

-- What `getStashPermission` finds.
granted :
    (p : RepositoryPermission) (s : Str)
    → get_stash_permission p ≡ ok s
    → ((p ≡ Permission.pull) × (s ≡ stash_permission_read))
      ⊎ ((p ≡ Permission.push) × (s ≡ stash_permission_write))
      ⊎ ((p ≡ Permission.admin) × (s ≡ stash_permission_admin))
unfolding get_stash_permission find_stash_permission stash_permission_at
granted p s h = ground (
  arith,
  ==_iff Permission.pull p,
  ==_iff Permission.triage p,
  ==_iff Permission.push p,
  ==_iff Permission.maintain p,
  ==_iff Permission.admin p,
)

-- A permission that can be granted on a repository, as Stash spells it, is read back as the permission
-- that it was granted for; of the five permissions, only `pull`, `push` and `admin` can be granted.
pub get_stash_permission-access_of :
    (permission : RepositoryPermission) (s name : Str)
    → get_stash_permission permission ≡ ok s
    → (access_of name (s ∷ []) ≡ ok (record { name = name; permission = some permission }))
      × ((permission ≡ Permission.pull)
          ⊎ (permission ≡ Permission.push)
          ⊎ (permission ≡ Permission.admin))
unfolding access_of get_stash_permission_from_map raise priority_of get_git_provider_permission
    permission_at list_beq
get_stash_permission-access_of p s name h = elim (granted p s h) [
  | inl (e, k) ↦ (rw (k, e), inl e)
  | inr (inl (e, k)) ↦ (rw (k, e), inr (inl e))
  | inr (inr (e, k)) ↦ (rw (k, e), inr (inr e))
]
