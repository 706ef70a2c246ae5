-- ===== src/Gitlab/TeamAccess.antt =====
-- gitlab/resource_teamaccess.go and gitlab/client_repository_teamaccess.go: the access of groups to
-- a project. A method of the object takes it and returns it as it is afterwards.
pub mod Levels
use go_git_providers.Prelude.{
  ℕ, zero, suc, Bool, true, false, Option, none, some, List, [], ◌∷◌, Str, ◌==◌, nat_eq, list_eq,
  if◌then◌else◌,
}
use go_git_providers.Strings.{contains}
use go_git_providers.Errors.{Err, sentinel, is_error, not_found, invalid_permission_level}
use go_git_providers.Exec.{
  Result, ok, err, out_of_fuel, deref, Exec, lift, pure, Attempt, got, failed, attempt, ◌>>=◌, ◌>>◌,
}
use go_git_providers.Gitprovider.Enums.Permission
use go_git_providers.Gitprovider.Enums.Permission.{RepositoryPermission}
use go_git_providers.Gitprovider.Info.{
  TeamAccessInfo, team_access_info, team_access_validate_info, team_access_equals,
  validate_and_default_info,
}
use go_git_providers.Github.Repository.{Ref, identity, repository}
use go_git_providers.Gitlab.Api.{SharedGroup, by_path, by_number}
use go_git_providers.Gitlab.Client.{
  get_group, get_group_project, get_user_project, share_project, unshare_project,
}
use go_git_providers.Gitlab.Context.{ClientContext}
use go_git_providers.Gitlab.Util.{get_repo_path, already_shared_with_group}

-- `getGitProviderPermission`: the entries of `permissionPriority`
unfoldable pub get_git_provider_permission : ℕ → Result RepositoryPermission
get_git_provider_permission level =
    if level == 10
    then ok Permission.pull
    else if level == 20
    then ok Permission.triage
    else if level == 30
    then ok Permission.push
    else if level == 40
    then ok Permission.maintain
    else if level == 50
    then ok Permission.admin
    else err (sentinel invalid_permission_level)

-- `getGitlabPermission`: no two entries have the same value, so the order in which `range` yields
-- them does not matter.
unfoldable pub get_gitlab_permission : RepositoryPermission → Result ℕ
get_gitlab_permission p =
    if p == Permission.pull
    then ok 10
    else if p == Permission.triage
    then ok 20
    else if p == Permission.push
    then ok 30
    else if p == Permission.maintain
    then ok 40
    else if p == Permission.admin
    then ok 50
    else err (sentinel invalid_permission_level)

-- The loop of `Get`: the level of the first entry for the group.
unfoldable pub find_level : ℕ → List SharedGroup → Result ℕ
find_level id [] = err (sentinel not_found)
find_level id (g ∷ gs) =
    let rest = find_level id gs in if g.group_id == id then ok g.group_access_level else rest

-- `strings.Replace(s, " ", "", -1)`
unfoldable pub without_spaces : Str → Str
without_spaces [] = []
without_spaces (c ∷ s) = let rest = without_spaces s in if c == 32 then rest else c ∷ rest

-- `(*teamAccess).Set`
unfoldable pub set : TeamAccessInfo → TeamAccessInfo → TeamAccessInfo × Option Err
set info ta = elim (team_access_validate_info info) [ some e ↦ (ta, some e) | none ↦ (info, none) ]

-- A method with a result `error` returns the object beside it.
abbrev pub Changed : Type 0
Changed = TeamAccessInfo × Option Err

-- `if err != nil { return err }; return ta.Set(resp.Get())`
unfoldable pub take : TeamAccessInfo → Attempt TeamAccessInfo → Changed
unfolding set
take ta (failed e) = (ta, some e)
take ta (got info) = set info ta

module _ {W : Type 0} (c : ClientContext W) (ref : Ref) where
  -- `(*TeamAccessClient).Get`
  unfoldable pub get : Str → Exec W TeamAccessInfo
  unfolding find_level get_git_provider_permission
  get team_name = do
    team ← get_group c (by_path team_name)
    project ← get_group_project c (identity ref) (repository ref)
    level ← lift (find_level team.id project.shared_with_groups)
    permission ← lift (get_git_provider_permission level)
    pure (record { name = team_name; permission = some permission })

  -- The loop of `List`.
  unfoldable pub get_all : List SharedGroup → Exec W (List TeamAccessInfo)
  unfolding get_git_provider_permission without_spaces
  get_all [] = pure []
  get_all (g ∷ gs) = do
    permission ← lift (get_git_provider_permission g.group_access_level)
    group ← get_group c (by_number g.group_id)
    tas ← get_all gs
    pure (record { name = without_spaces group.full_name; permission = some permission } ∷ tas)

  -- `(*TeamAccessClient).List`
  unfoldable pub list : Exec W (List TeamAccessInfo)
  unfolding get_all
  list = do project ← get_user_project c (get_repo_path ref); get_all project.shared_with_groups

  -- `(*TeamAccessClient).Create`; defaulting has set `req.Permission`.
  unfoldable pub create : TeamAccessInfo → Exec W TeamAccessInfo
  unfolding get_gitlab_permission
  create req = do
    req' ← lift (validate_and_default_info req)
    group ← get_group c (by_path req'.name)
    permission ← lift (deref req'.permission)
    level ← lift (get_gitlab_permission permission)
    share_project c (get_repo_path ref) group.id level
    pure req'

  -- `(*teamAccess).Delete`; `Update` makes the same two calls.
  unfoldable pub delete : TeamAccessInfo → Exec W Unit
  delete ta = do
    group ← get_group c (by_path ta.name)
    unshare_project c (get_repo_path ref) group.id

  unfoldable pub released : Exec W Changed → TeamAccessInfo → Attempt (Unit {0}) → Exec W Changed
  released again ta (failed e) = pure (ta, some e)
  released again ta (got _) = again

  unfoldable pub update_after :
      Exec W Changed → TeamAccessInfo → Attempt TeamAccessInfo → Exec W Changed
  unfolding released delete take contains
  update_after again ta (failed e) =
      let release : Exec W Changed = attempt (delete ta) >>= released again ta in
      if contains (c.error_text e) already_shared_with_group
      then release
      else pure (take ta (failed e))
  update_after again ta (got info) = pure (take ta (got info))

  -- `(*teamAccess).Update`, which calls itself. The fuel bounds the depth.
  unfoldable pub update : ℕ → TeamAccessInfo → Exec W Changed
  unfolding update_after create
  update zero ta w = (out_of_fuel, w)
  update (suc fuel) ta w = (attempt (create ta) >>= update_after (λ v. update fuel ta v) ta) w

  unfoldable pub reconcile_after :
      TeamAccessInfo → Attempt TeamAccessInfo → Exec W (TeamAccessInfo × Bool × Option Err)
  unfolding update
  reconcile_after ta (failed e) =
      let create_it : Exec W (TeamAccessInfo × Bool × Option Err) =
        attempt (create ta) >>= λ a. pure ((take ta a).0, true, (take ta a).1) in
      if is_error e not_found then create_it else pure (ta, false, some e)
  reconcile_after ta (got actual) =
      let change : Exec W (TeamAccessInfo × Bool × Option Err) =
        update c.fuel ta >>= λ v. pure (v.0, true, v.1) in
      if team_access_equals ta actual then pure (ta, false, none) else change

  -- `(*teamAccess).Reconcile`
  unfoldable pub reconcile : TeamAccessInfo → Exec W (TeamAccessInfo × Bool × Option Err)
  unfolding reconcile_after
  reconcile ta = do a ← attempt (get ta.name); reconcile_after ta a

  -- What `(*TeamAccessClient).Reconcile` returns.
  abbrev pub Outcome : Type 0
  Outcome = Option TeamAccessInfo × Bool × Option Err

  unfoldable pub creation : Attempt TeamAccessInfo → Outcome
  creation (got ta) = (some ta, true, none)
  creation (failed e) = (none, true, some e)

  unfoldable pub apply_set : Changed → Exec W Outcome
  unfolding update
  apply_set (ta, some e) = pure (some ta, false, some e)
  apply_set (ta, none) = do v ← update c.fuel ta; pure (some v.0, true, v.1)

  unfoldable pub client_after : TeamAccessInfo → Attempt TeamAccessInfo → Exec W Outcome
  unfolding creation apply_set
  client_after req (failed e) =
      let create_it : Exec W Outcome = attempt (create req) >>= λ a. pure (creation a) in
      if is_error e not_found then create_it else pure (none, false, some e)
  client_after req (got actual) =
      let change = apply_set (set req actual) in
      if team_access_equals req actual then pure (some actual, false, none) else change

  unfoldable pub client_valid : Attempt TeamAccessInfo → Exec W Outcome
  unfolding client_after
  client_valid (failed e) = pure (none, false, some e)
  client_valid (got req) = do a ← attempt (get req.name); client_after req a

  -- `(*TeamAccessClient).Reconcile`
  unfoldable pub client_reconcile : TeamAccessInfo → Exec W Outcome
  unfolding client_valid
  client_reconcile req = do a ← attempt (lift (validate_and_default_info req)); client_valid a
