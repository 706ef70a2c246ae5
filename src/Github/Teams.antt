-- ===== src/Github/Teams.antt =====
-- github/resource_teamaccess.go and github/client_repository_teamaccess.go: the access of teams to a
-- repository. A method of the object takes it and returns it as it is afterwards.
pub mod Highest
use go_git_providers.Prelude.{
  ℕ, Bool, true, false, Option, none, some, List, [], ◌∷◌, Str, ◌==◌, ltb, nat_eq, list_eq,
  option_eq, if◌then◌else◌,
}
use go_git_providers.Errors.{Err, is_error, not_found}
use go_git_providers.Exec.{
  Result, ok, err, check, deref, and_then, Exec, lift, fail, pure, Attempt, got, failed, attempt,
  ◌>>=◌, ◌>>◌,
}
use go_git_providers.Gitprovider.Enums.Permission
use go_git_providers.Gitprovider.Enums.Permission.{RepositoryPermission}
use go_git_providers.Gitprovider.Info.{
  TeamAccessInfo, team_access_info, team_access_validate_info, team_access_equals,
  validate_and_default_info,
}
use go_git_providers.Github.Api.{Team}
use go_git_providers.Github.Client.{get_team_permissions, list_repo_teams, add_team, remove_team}
use go_git_providers.Github.Context.{ClientContext}
use go_git_providers.Github.Repository.{Ref, identity, repository}

-- `permissionPriority`
unfoldable pub permission_priority : RepositoryPermission → Option ℕ
permission_priority p =
    if p == Permission.pull
    then some 1
    else if p == Permission.triage
    then some 2
    else if p == Permission.push
    then some 3
    else if p == Permission.maintain
    then some 4
    else if p == Permission.admin
    then some 5
    else none

-- The variables of the loop: the permission, and its priority.
abbrev pub Best : Type 0
Best = Option RepositoryPermission × ℕ

unfoldable pub better : RepositoryPermission → Option ℕ → Best → Best
better p none best = best
better p (some priority) best = if ltb best.1 priority then (some p, priority) else best

unfoldable pub consider : Str × Bool → Best → Best
unfolding better permission_priority
consider (key, false) best = best
consider (key, true) best = better key (permission_priority key) best

unfoldable pub consider_all : List (Str × Bool) → Best → Best
unfolding consider
consider_all [] best = best
consider_all (entry ∷ entries) best = consider_all entries (consider entry best)

-- `getPermissionFromMap`: the entries in the order in which `range` happens to yield them.
unfoldable pub get_permission_from_map : List (Str × Bool) → Option RepositoryPermission
unfolding consider_all
get_permission_from_map permission_map = (consider_all permission_map (none, 0)).0

-- `(*teamAccess).Set`
unfoldable pub set : TeamAccessInfo → TeamAccessInfo → TeamAccessInfo × Option Err
set info ta = elim (team_access_validate_info info) [ some e ↦ (ta, some e) | none ↦ (info, none) ]

module _ {W : Type 0} (c : ClientContext W) (ref : Ref) where
  -- `(*TeamAccessClient).Get`
  unfoldable pub get : Str → Exec W TeamAccessInfo
  unfolding get_permission_from_map
  get name = do
    permission_map ← get_team_permissions c (identity ref) (repository ref) name
    pure (record { name = name; permission = get_permission_from_map permission_map })

  -- The loop of `List`; the slug is dereferenced.
  unfoldable pub get_all : List Team → Exec W (List TeamAccessInfo)
  unfolding get
  get_all [] = pure []
  get_all (t ∷ ts) = do slug ← lift (deref t.slug); ta ← get slug; tas ← get_all ts; pure (ta ∷ tas)

  -- `(*TeamAccessClient).List`
  unfoldable pub list : Exec W (List TeamAccessInfo)
  unfolding get_all
  list = do ts ← list_repo_teams c (identity ref) (repository ref); get_all ts

  -- `*req.Permission`, which defaulting has set
  unfoldable pub create_valid : TeamAccessInfo → Exec W TeamAccessInfo
  create_valid req = do
    permission ← lift (deref req.permission)
    add_team c (identity ref) (repository ref) req.name permission
    pure req

  -- `(*TeamAccessClient).Create`
  unfoldable pub create : TeamAccessInfo → Exec W TeamAccessInfo
  unfolding create_valid
  create req = do req' ← lift (validate_and_default_info req); create_valid req'

  -- `(*teamAccess).Delete`
  unfoldable pub delete : TeamAccessInfo → Exec W Unit
  delete ta = remove_team c (identity ref) (repository ref) ta.name

  -- A method with a result `error` returns the object beside it.
  abbrev pub Changed : Type 0
  Changed = TeamAccessInfo × Option Err

  -- `if err != nil { return err }; return ta.Set(resp.Get())`
  unfoldable pub take : TeamAccessInfo → Attempt TeamAccessInfo → Changed
  unfolding set
  take ta (failed e) = (ta, some e)
  take ta (got info) = set info ta

  -- `(*teamAccess).Update`
  unfoldable pub update : TeamAccessInfo → Exec W Changed
  unfolding take create
  update ta = do a ← attempt (create ta); pure (take ta a)

  unfoldable pub reconcile_after :
      TeamAccessInfo → Attempt TeamAccessInfo → Exec W (TeamAccessInfo × Bool × Option Err)
  unfolding update
  reconcile_after ta (failed e) =
      let create_it : Exec W (TeamAccessInfo × Bool × Option Err) =
        attempt (create ta) >>= λ a. pure ((take ta a).0, true, (take ta a).1) in
      if is_error e not_found then create_it else pure (ta, false, some e)
  reconcile_after ta (got actual) =
      let change : Exec W (TeamAccessInfo × Bool × Option Err) =
        update ta >>= λ v. pure (v.0, true, v.1) in
      if team_access_equals ta actual then pure (ta, false, none) else change

  -- `(*teamAccess).Reconcile`
  unfoldable pub reconcile : TeamAccessInfo → Exec W (TeamAccessInfo × Bool × Option Err)
  unfolding reconcile_after
  reconcile ta = do a ← attempt (get ta.name); reconcile_after ta a

  -- What `(*TeamAccessClient).Reconcile` returns.
  abbrev pub Outcome : Type 0
  Outcome = Option TeamAccessInfo × Bool × Option Err

  unfoldable pub creation : Attempt TeamAccessInfo → Outcome
  creation (got ta) = (some ta, true, none)
  creation (failed e) = (none, true, some e)

  unfoldable pub apply_set : TeamAccessInfo × Option Err → Exec W Outcome
  unfolding update
  apply_set (ta, some e) = pure (some ta, false, some e)
  apply_set (ta, none) = do v ← update ta; pure (some v.0, true, v.1)

  unfoldable pub client_after : TeamAccessInfo → Attempt TeamAccessInfo → Exec W Outcome
  unfolding creation apply_set
  client_after req (failed e) =
      let create_it : Exec W Outcome = attempt (create req) >>= λ a. pure (creation a) in
      if is_error e not_found then create_it else pure (none, false, some e)
  client_after req (got actual) =
      let change = apply_set (set req actual) in
      if team_access_equals req actual then pure (some actual, false, none) else change

  unfoldable pub client_valid : Attempt TeamAccessInfo → Exec W Outcome
  unfolding client_after
  client_valid (failed e) = pure (none, false, some e)
  client_valid (got req) = do a ← attempt (get req.name); client_after req a

  -- `(*TeamAccessClient).Reconcile`
  unfoldable pub client_reconcile : TeamAccessInfo → Exec W Outcome
  unfolding client_valid
  client_reconcile req = do a ← attempt (lift (validate_and_default_info req)); client_valid a
