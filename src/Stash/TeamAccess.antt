-- ===== src/Stash/TeamAccess.antt =====
-- stash/client_repository_teamaccess.go and stash/resource_teamaccess.go: what the groups of a project
-- may do with one of its repositories. Go's iteration over a map takes any order; here it is that of
-- the first insertion.
pub mod Priority
pub mod Reconcile
use go_git_providers.Prelude.{
  ℕ, zero, suc, Bool, true, false, not, ◌&&◌, ◌||◌, ◌/◌, ◌%◌, ◌+◌, Option, none, some, List, [],
  ◌∷◌, ◌++◌, map, Str, codes, is_empty, ◌==◌, nat_eq, list_eq, if◌then◌else◌, leb, ltb,
}
use go_git_providers.Errors.{
  Err, Errs, nil, cons, wrap, sentinel, is_error, not_found, stash_not_found,
  invalid_permission_level, no_provider_support,
}
use go_git_providers.Exec.{
  Result, ok, err, panic, out_of_fuel, and_then, check, deref, Exec, lift, fail, pure, Attempt, got,
  failed, attempt, ◌>>=◌, ◌>>◌,
}
use go_git_providers.Stash.Services.{on_error}
use go_git_providers.Github.Repository.{Ref, org, user}
use go_git_providers.Gitprovider.Enums.Permission
use go_git_providers.Gitprovider.Enums.Permission.{RepositoryPermission}
use go_git_providers.Gitprovider.Info.{
  TeamAccessInfo, team_access_info, team_access_equals, team_access_validate_info,
  validate_and_default_info,
}
use go_git_providers.Stash.Types.{no_session, GroupPermission}
use go_git_providers.Stash.Services.Permissions.{
  get_repository_group_permission, all_repository_groups_permission,
  update_repository_group_permission,
}
use go_git_providers.Stash.Services.Projects.{
  get_project_group_permission, all_project_groups_permission,
}
use go_git_providers.Stash.Context.{StashContext, get_stash_refs}
use go_git_providers.Stash.DeployKey.{stash_permission_read, stash_permission_write}

abbrev pub stash_permission_admin : Str
stash_permission_admin = codes "REPO_ADMIN"

-- `permissionPriority`
abbrev pub permission_priority : List (ℕ × RepositoryPermission)
permission_priority =
    (10, Permission.pull)
    ∷ (20, Permission.triage)
    ∷ (30, Permission.push)
    ∷ (40, Permission.maintain)
    ∷ (50, Permission.admin)
    ∷ []

-- `stashPriority`
abbrev pub stash_priority : List (Str × ℕ)
stash_priority =
    (stash_permission_read, 10) ∷ (stash_permission_write, 30) ∷ (stash_permission_admin, 50) ∷ []

-- `priority, ok := stashPriority[key]`
unfoldable pub priority_of : Str → List (Str × ℕ) → Option ℕ
priority_of key [] = none
priority_of key (p ∷ ps) = let rest = priority_of key ps in if p.0 == key then some p.1 else rest

-- `permissionPriority[permissionLevel]`
unfoldable pub permission_at : ℕ → List (ℕ × RepositoryPermission) → Option RepositoryPermission
permission_at level [] = none
permission_at level (p ∷ ps) =
    let rest = permission_at level ps in if p.0 == level then some p.1 else rest

-- `getGitProviderPermission`
unfoldable pub get_git_provider_permission : ℕ → Result RepositoryPermission
unfolding permission_at
get_git_provider_permission level = elim (permission_at level permission_priority) [
  | none ↦ err (sentinel invalid_permission_level)
  | some p ↦ ok p
]

-- One round of the loop of `getStashPermissionFromMap`.
unfoldable pub raise : Option ℕ → ℕ → ℕ
raise none last = last
raise (some priority) last = if ltb last priority then priority else last

-- `getStashPermissionFromMap`; the map is the list of its keys, whose values are true.
unfoldable pub get_stash_permission_from_map : List Str → ℕ → ℕ
unfolding raise priority_of
get_stash_permission_from_map [] last_priority = last_priority
get_stash_permission_from_map (key ∷ keys) last_priority =
    get_stash_permission_from_map keys (raise (priority_of key stash_priority) last_priority)

-- The inner loop of `getStashPermission`.
unfoldable pub stash_permission_at : ℕ → List (Str × ℕ) → Option Str
stash_permission_at key [] = none
stash_permission_at key (p ∷ ps) =
    let rest = stash_permission_at key ps in if p.1 == key then some p.0 else rest

-- `getStashPermission`
unfoldable pub find_stash_permission :
    RepositoryPermission → List (ℕ × RepositoryPermission) → Result Str
unfolding stash_permission_at
find_stash_permission permission [] = err (sentinel invalid_permission_level)
find_stash_permission permission (p ∷ ps) =
    let rest = find_stash_permission permission ps in
    let here : Result Str = elim (stash_permission_at p.0 stash_priority) [
      | none ↦ rest
      | some s ↦ ok s
    ] in
    if p.1 == permission then here else rest

unfoldable pub get_stash_permission : RepositoryPermission → Result Str
unfolding find_stash_permission
get_stash_permission permission = find_stash_permission permission permission_priority

-- The permission on the repository that one on its project amounts to.
unfoldable pub from_project : Str → List Str
from_project permission =
    if permission == codes "PROJECT_READ"
    then stash_permission_read ∷ []
    else if permission == codes "PROJECT_WRITE"
    then stash_permission_write ∷ []
    else if permission == codes "PROJECT_ADMIN"
    then stash_permission_admin ∷ []
    else []

-- A result that may be missing; `ErrNotFound` is not reported.
unfoldable pub unless_missing : {A : Type 0} → (Err → Err) → Attempt A → Result (Option A)
unless_missing f (got a) = ok (some a)
unless_missing f (failed e) = if is_error e stash_not_found then ok none else err (f e)

abbrev repo_failed : Err → Err
repo_failed e = wrap "failed to get repository team access: %w" [] e

abbrev org_failed : Err → Err
org_failed e = wrap "failed to get organisation team access: %w" [] e

-- The keys of `perMap`; nothing where neither the repository nor the project knows the group.
unfoldable pub permission_keys : Option GroupPermission → Option GroupPermission → Result (List Str)
unfolding from_project
permission_keys none none = err (sentinel stash_not_found)
permission_keys (some r) none = ok (r.permission ∷ [])
permission_keys none (some o) = ok (from_project o.permission)
permission_keys (some r) (some o) = ok (r.permission ∷ from_project o.permission)

-- `namePermissions[name] = append(namePermissions[name], perm)`
unfoldable pub add_permission : Str → Str → List (Str × List Str) → List (Str × List Str)
add_permission name perm [] = (name, perm ∷ []) ∷ []
add_permission name perm (p ∷ ps) =
    let rest = add_permission name perm ps in
    if p.0 == name then (p.0, p.1 ++ perm ∷ []) ∷ ps else p ∷ rest

unfoldable pub add_all : Str → List Str → List (Str × List Str) → List (Str × List Str)
unfolding add_permission
add_all name [] m = m
add_all name (p ∷ ps) m = add_all name ps (add_permission name p m)

-- the two loops that fill the map
unfoldable pub add_groups :
    (Str → List Str) → List GroupPermission → List (Str × List Str) → List (Str × List Str)
unfolding add_all
add_groups levels [] m = m
add_groups levels (g ∷ gs) m = add_groups levels gs (add_all g.group (levels g.permission) m)

abbrev or_empty : {A : Type 0} → Option (List A) → List A
or_empty none = []
or_empty (some as') = as'

unfoldable pub name_permissions :
    Option (List GroupPermission) → Option (List GroupPermission) → Result (List (Str × List Str))
unfolding add_groups from_project
name_permissions none none = err (sentinel stash_not_found)
name_permissions repo_perms org_perms = ok (
    add_groups from_project (or_empty org_perms)
      (add_groups (λ p. p ∷ []) (or_empty repo_perms) []))

-- `teamAccess` with the highest of the permissions
unfoldable pub access_of : Str → List Str → Result TeamAccessInfo
unfolding get_git_provider_permission get_stash_permission_from_map
access_of name keys = elim (get_git_provider_permission (get_stash_permission_from_map keys 0)) [
  | ok p ↦ ok (record { name = name; permission = some p })
  | err e ↦ err e
  | panic ↦ panic
  | out_of_fuel ↦ out_of_fuel
]

unfoldable pub access_list : List (Str × List Str) → Result (List TeamAccessInfo)
unfolding access_of
access_list [] = ok []
access_list (p ∷ ps) =
    and_then (access_of p.0 p.1) λ t. and_then (access_list ps) (λ ts. ok (t ∷ ts))

-- What `Reconcile` returns.
abbrev pub Outcome : Type 0
Outcome = Option TeamAccessInfo × Bool × Option Err

unfoldable pub created_outcome : Attempt TeamAccessInfo → Outcome
created_outcome (got t) = (some t, true, none)
created_outcome (failed e) = (none, true, some e)

module _ {W : Type 0} (c : StashContext W) (ref : Ref) where
  -- `(*TeamAccessClient).Get`
  unfoldable pub get : Str → Exec W TeamAccessInfo
  unfolding get_repository_group_permission get_project_group_permission unless_missing
      permission_keys access_of get_stash_refs
  get name = do
    a ← attempt (
        get_repository_group_permission c.client c.json (get_stash_refs ref).0
          (get_stash_refs ref).1 name)
    repo_perm ← lift (unless_missing repo_failed a)
    b ← attempt (get_project_group_permission c.client c.json (get_stash_refs ref).0 name)
    org_perm ← lift (unless_missing org_failed b)
    keys ← lift (permission_keys repo_perm org_perm)
    lift (access_of name keys)

  -- `(*TeamAccessClient).List`
  unfoldable pub list : Exec W (List TeamAccessInfo)
  unfolding all_repository_groups_permission all_project_groups_permission unless_missing
      name_permissions access_list get_stash_refs
  list = do
    a ← attempt (
        all_repository_groups_permission c.client c.json c.fuel (get_stash_refs ref).0
          (get_stash_refs ref).1)
    repo_perms ← lift (unless_missing (wrap "failed to get repository teams access: %w" []) a)
    b ← attempt (all_project_groups_permission c.client c.json c.fuel (get_stash_refs ref).0)
    org_perms ← lift (unless_missing (wrap "failed to get organisation teams access: %w" []) b)
    m ← lift (name_permissions repo_perms org_perms)
    lift (access_list m)

  -- `(*TeamAccessClient).Create`
  unfoldable pub create : TeamAccessInfo → Exec W TeamAccessInfo
  unfolding get_stash_permission update_repository_group_permission on_error get get_stash_refs
  create team = do
    p ← lift (deref team.permission)
    permission ← lift (get_stash_permission p)
    on_error (wrap "failed to update repository team access: %w" []) (
        update_repository_group_permission c.client c.json (get_stash_refs ref).0
          (get_stash_refs ref).1
          (record { session = no_session; group = team.name; permission = permission }))
    on_error (wrap "failed to get team access: %w" []) (get team.name)

  -- `Set` and `Create` behind a difference
  unfoldable pub updated_outcome : TeamAccessInfo → Attempt TeamAccessInfo → Outcome
  updated_outcome actual (failed e) = (some actual, false, some e)
  updated_outcome actual (got t) = (some actual, true, none)

  unfoldable pub set_and_create : TeamAccessInfo → TeamAccessInfo → Option Err → Exec W Outcome
  unfolding create updated_outcome
  set_and_create req actual (some e) = pure (some actual, false, some e)
  set_and_create req actual none = attempt (create req) >>= λ a. pure (updated_outcome req a)

  unfoldable pub reconcile_attempt : TeamAccessInfo → Attempt TeamAccessInfo → Exec W Outcome
  unfolding create created_outcome set_and_create
  reconcile_attempt req (failed e) =
      let creating : Exec W Outcome = attempt (create req) >>= λ a. pure (created_outcome a) in
      if is_error e not_found then creating else pure (none, false, some e)
  reconcile_attempt req (got actual) =
      if team_access_equals req actual
      then pure (some actual, false, none)
      else set_and_create req actual (team_access_validate_info req)

  unfoldable pub reconcile_valid : Attempt TeamAccessInfo → Exec W Outcome
  unfolding get reconcile_attempt
  reconcile_valid (failed e) = pure (none, false, some e)
  reconcile_valid (got req) = attempt (get req.name) >>= reconcile_attempt req

  -- `(*TeamAccessClient).Reconcile`
  unfoldable pub reconcile : TeamAccessInfo → Exec W Outcome
  unfolding reconcile_valid
  reconcile req = attempt (lift (validate_and_default_info req)) >>= reconcile_valid
