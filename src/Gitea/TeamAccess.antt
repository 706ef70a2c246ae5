-- ===== src/Gitea/TeamAccess.antt =====
-- gitea/resource_teamaccess.go and gitea/client_repository_teamaccess.go: the access of teams to a
-- repository. A method of the object takes it and returns it as it is afterwards.
use go_git_providers.Prelude.{
  Bool, true, false, ◌||◌, Option, none, some, List, [], ◌∷◌, Str, codes, ◌==◌, nat_eq, list_eq,
  if◌then◌else◌,
}
use go_git_providers.Errors.{Err, foreign, is_error, not_found}
use go_git_providers.Exec.{
  Result, ok, err, deref, Exec, lift, pure, Attempt, got, failed, attempt, ◌>>=◌, ◌>>◌,
}
use go_git_providers.Gitprovider.Enums.Permission
use go_git_providers.Gitprovider.Enums.Permission.{RepositoryPermission}
use go_git_providers.Gitprovider.Info.{
  TeamAccessInfo, team_access_info, team_access_validate_info, team_access_equals,
  validate_and_default_info,
}
use go_git_providers.Github.Repository.{Ref, identity, repository}
use go_git_providers.Gitea.Api.{Team, ClientContext}
use go_git_providers.Gitea.Util.{calling}

-- `getProviderPermission`; the access modes are the texts of the SDK.
unfoldable pub get_provider_permission : Str → RepositoryPermission
get_provider_permission access_mode =
    if access_mode == codes "owner" || access_mode == codes "admin"
    then Permission.admin
    else if access_mode == codes "write"
    then Permission.push
    else Permission.pull

-- `(*teamAccess).Set`
unfoldable pub set : TeamAccessInfo → TeamAccessInfo → TeamAccessInfo × Option Err
set info ta = elim (team_access_validate_info info) [ some e ↦ (ta, some e) | none ↦ (info, none) ]

-- `if apiObj == nil { return error }`; the error's text is its format.
unfoldable pub permission_of : Option Team → Result Str
permission_of none = err (foreign (codes "team %s not found in repository %s/%s"))
permission_of (some t) = ok t.permission

module _ {W : Type 0} (c : ClientContext W) (ref : Ref) where
  -- `getTeamPermissions`, `listRepoTeams`, `removeTeam`, and `addTeam`, which ignores the permission
  unfoldable pub get_team_permissions : Str → Exec W Str
  unfolding calling permission_of
  get_team_permissions team_name = do
    t ← calling c (c.api.check_repo_team (identity ref) (repository ref) team_name)
    lift (permission_of t)

  unfoldable pub list_repo_teams : Exec W (List Team)
  unfolding calling
  list_repo_teams = calling c (c.api.get_repo_teams (identity ref) (repository ref))

  unfoldable pub add_team : Str → RepositoryPermission → Exec W Unit
  unfolding calling
  add_team team_name permission =
      calling c (c.api.add_repo_team (identity ref) (repository ref) team_name)

  unfoldable pub remove_team : Str → Exec W Unit
  unfolding calling
  remove_team team_name =
      calling c (c.api.remove_repo_team (identity ref) (repository ref) team_name)

  -- `(*TeamAccessClient).Get`
  unfoldable pub get : Str → Exec W TeamAccessInfo
  unfolding get_team_permissions get_provider_permission
  get name = do
    mode ← get_team_permissions name
    pure (record { name = name; permission = some (get_provider_permission mode) })

  -- The loop of `List`.
  unfoldable pub get_all : List Team → Exec W (List TeamAccessInfo)
  unfolding get
  get_all [] = pure []
  get_all (t ∷ ts) = do ta ← get t.name; tas ← get_all ts; pure (ta ∷ tas)

  -- `(*TeamAccessClient).List`
  unfoldable pub list : Exec W (List TeamAccessInfo)
  unfolding get_all list_repo_teams
  list = do ts ← list_repo_teams; get_all ts

  -- `*req.Permission`, which defaulting has set
  unfoldable pub create_valid : TeamAccessInfo → Exec W TeamAccessInfo
  unfolding add_team
  create_valid req = do
    permission ← lift (deref req.permission)
    add_team req.name permission
    pure req

  -- `(*TeamAccessClient).Create`
  unfoldable pub create : TeamAccessInfo → Exec W TeamAccessInfo
  unfolding create_valid
  create req = do req' ← lift (validate_and_default_info req); create_valid req'

  -- `(*teamAccess).Delete`
  unfoldable pub delete : TeamAccessInfo → Exec W Unit
  unfolding remove_team
  delete ta = remove_team ta.name

  -- A method with a result `error` returns the object beside it.
  abbrev pub Changed : Type 0
  Changed = TeamAccessInfo × Option Err

  -- `if err != nil { return err }; return ta.Set(resp.Get())`
  unfoldable pub take : TeamAccessInfo → Attempt TeamAccessInfo → Changed
  unfolding set
  take ta (failed e) = (ta, some e)
  take ta (got info) = set info ta

  -- `(*teamAccess).Update`
  unfoldable pub update : TeamAccessInfo → Exec W Changed
  unfolding take create
  update ta = do a ← attempt (create ta); pure (take ta a)

  unfoldable pub reconcile_after :
      TeamAccessInfo → Attempt TeamAccessInfo → Exec W (TeamAccessInfo × Bool × Option Err)
  unfolding update
  reconcile_after ta (failed e) =
      let create_it : Exec W (TeamAccessInfo × Bool × Option Err) =
        attempt (create ta) >>= λ a. pure ((take ta a).0, true, (take ta a).1) in
      if is_error e not_found then create_it else pure (ta, false, some e)
  reconcile_after ta (got actual) =
      let change : Exec W (TeamAccessInfo × Bool × Option Err) =
        update ta >>= λ v. pure (v.0, true, v.1) in
      if team_access_equals ta actual then pure (ta, false, none) else change

  -- `(*teamAccess).Reconcile`
  unfoldable pub reconcile : TeamAccessInfo → Exec W (TeamAccessInfo × Bool × Option Err)
  unfolding reconcile_after
  reconcile ta = do a ← attempt (get ta.name); reconcile_after ta a

  -- What `(*TeamAccessClient).Reconcile` returns.
  abbrev pub Outcome : Type 0
  Outcome = Option TeamAccessInfo × Bool × Option Err

  unfoldable pub creation : Attempt TeamAccessInfo → Outcome
  creation (got ta) = (some ta, true, none)
  creation (failed e) = (none, true, some e)

  unfoldable pub apply_set : TeamAccessInfo × Option Err → Exec W Outcome
  unfolding update
  apply_set (ta, some e) = pure (some ta, false, some e)
  apply_set (ta, none) = do v ← update ta; pure (some v.0, true, v.1)

  unfoldable pub client_after : TeamAccessInfo → Attempt TeamAccessInfo → Exec W Outcome
  unfolding creation apply_set
  client_after req (failed e) =
      let create_it : Exec W Outcome = attempt (create req) >>= λ a. pure (creation a) in
      if is_error e not_found then create_it else pure (none, false, some e)
  client_after req (got actual) =
      let change = apply_set (set req actual) in
      if team_access_equals req actual then pure (some actual, false, none) else change

  unfoldable pub client_valid : Attempt TeamAccessInfo → Exec W Outcome
  unfolding client_after
  client_valid (failed e) = pure (none, false, some e)
  client_valid (got req) = do a ← attempt (get req.name); client_after req a

  -- `(*TeamAccessClient).Reconcile`
  unfoldable pub client_reconcile : TeamAccessInfo → Exec W Outcome
  unfolding client_valid
  client_reconcile req = do a ← attempt (lift (validate_and_default_info req)); client_valid a
