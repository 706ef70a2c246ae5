-- ===== src/Tests/Teams.antt =====
-- Permissions of teams at concrete values.
use mathlib.Core.List.{Permᴰ}
use go_git_providers.Prelude.{
  ℕ, ◌≡◌, ◌≤◌, refl, Bool, true, inl, inr, some, List, [], ◌∷◌, Str, list_beq,
}
use go_git_providers.Gitprovider.Enums.Permission
use go_git_providers.Github.Teams.{
  permission_priority, better, consider, consider_all, get_permission_from_map,
}
use go_git_providers.Github.Teams.Highest.{
  HasTrue, get_permission_from_map-Perm, get_permission_from_map-highest,
  get_permission_from_map-granted,
}

abbrev pull_push : List (Str × Bool)
pull_push = (Permission.pull, true) ∷ (Permission.push, true) ∷ []

abbrev push_pull : List (Str × Bool)
push_pull = (Permission.push, true) ∷ (Permission.pull, true) ∷ []

get_permission_from_map-Perm_example :
    get_permission_from_map pull_push ≡ get_permission_from_map push_pull
get_permission_from_map-Perm_example = get_permission_from_map-Perm ∣ Permᴰ.swap refl refl ∣₁

pull-priority : permission_priority Permission.pull ≡ some 1
unfolding permission_priority list_beq
pull-priority = refl

get_permission_from_map-highest_example :
    (q : Str) × (m : ℕ) × (get_permission_from_map push_pull ≡ some q)
    × (permission_priority q ≡ some m)
    × (1 ≤ m)
get_permission_from_map-highest_example =
    get_permission_from_map-highest push_pull Permission.pull 1 (inr (inl (refl, refl)))
      pull-priority

push-found : get_permission_from_map pull_push ≡ some Permission.push
unfolding get_permission_from_map consider_all consider better permission_priority list_beq
push-found = refl

get_permission_from_map-granted_example : HasTrue Permission.push pull_push
get_permission_from_map-granted_example =
    get_permission_from_map-granted pull_push Permission.push push-found
