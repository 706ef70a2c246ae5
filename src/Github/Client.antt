-- ===== src/Github/Client.antt =====
-- github/githubclient.go: the methods of `githubClientImpl`.
pub mod Listings
pub mod Panics
use go_git_providers.Prelude.{
  Bool, true, false, not, Option, none, some, List, [], ◌∷◌, Str, codes, ◌==◌, nat_eq, list_eq,
  if◌then◌else◌, ℕ, zero,
}
use go_git_providers.Errors.{Err, sentinel, wrap, destructive_call_disallowed, invalid_server_data}
use go_git_providers.Exec.{
  Result, ok, err, check, deref, and_then, Exec, lift, pure, fail, ◌>>=◌, ◌>>◌,
}
use go_git_providers.Gitprovider.Enums.Visibility
use go_git_providers.Github.Api.{Repository, Key, Organization, Team, User, GoGithub, Listing}
use go_git_providers.Github.Checks.{
  validate_repository_api, validate_organization_api, validate_deploy_key_api, validate_all,
  has_login, has_slug,
}
use go_git_providers.Github.Context.{ClientContext}
use go_git_providers.Github.Util.{calling, all_pages}

-- `if err := validate(apiObj); err != nil { return nil, err }; return apiObj, nil`
unfoldable pub validated : {A : Type 0} → (A → Option Err) → A → Result A
validated valid a = and_then (check (valid a)) (λ _. ok a)

-- `*req.Visibility == "private"` sets `req.Private`; a nil visibility panics.
unfoldable pub mark_private : Repository → Result Repository
mark_private req =
    and_then (deref req.visibility)
      (λ v. ok (if v == Visibility.private then record req { private = some true } else req))

-- `if apiObj.Permissions == nil { return error }`
unfoldable pub permissions_of : Repository → Result (List (Str × Bool))
permissions_of r = elim r.permissions [
  | none ↦ err (
      wrap "didn't expect permissions to be nil for team: %+v: %w" []
        (sentinel invalid_server_data))
  | some m ↦ ok m
]

module _ {W : Type 0} (c : ClientContext W) where
  -- A call whose object is checked.
  unfoldable pub fetch : {A : Type 0} → (A → Option Err) → Exec W A → Exec W A
  unfolding calling validated
  fetch valid call = do a ← calling call; lift (validated valid a)

  -- A listing of all pages whose objects are checked.
  unfoldable pub list : {A : Type 0} → (A → Option Err) → Listing W A → Exec W (List A)
  unfolding all_pages validate_all
  list valid listing = do objs ← all_pages c.fuel listing 0 []; lift (validate_all valid objs)

  unfoldable pub get_org : Str → Exec W Organization
  get_org org_name = fetch validate_organization_api (c.api.organizations_get org_name)

  unfoldable pub list_orgs : Exec W (List Organization)
  list_orgs = list validate_organization_api c.api.organizations_list

  unfoldable pub list_org_team_members : Str → Str → Exec W (List User)
  list_org_team_members org_name team_name =
      list has_login (c.api.teams_list_team_members_by_slug org_name team_name)

  unfoldable pub list_org_teams : Str → Exec W (List Team)
  list_org_teams org_name = list has_slug (c.api.teams_list_teams org_name)

  unfoldable pub get_repo : Str → Str → Exec W Repository
  get_repo owner repo = fetch validate_repository_api (c.api.repositories_get owner repo)

  unfoldable pub list_org_repos : Str → Exec W (List Repository)
  list_org_repos org = list validate_repository_api (c.api.repositories_list_by_org org)

  unfoldable pub list_user_repos : Str → Exec W (List Repository)
  list_user_repos username = list validate_repository_api (c.api.repositories_list username)

  unfoldable pub create_repo : Str → Repository → Exec W Repository
  unfolding mark_private
  create_repo org_name req = do
    req' ← lift (mark_private req)
    fetch validate_repository_api (c.api.repositories_create org_name req')

  -- The request is a pointer that may be nil.
  unfoldable pub update_repo : Str → Str → Option Repository → Exec W Repository
  update_repo owner repo req =
      fetch validate_repository_api (c.api.repositories_edit owner repo req)

  unfoldable pub delete_repo : Str → Str → Exec W Unit
  delete_repo owner repo =
      if not c.destructive_actions
      then fail (wrap "cannot delete repository: %w" [] (sentinel destructive_call_disallowed))
      else calling (c.api.repositories_delete owner repo)

  -- `GetUser`: the error is not handled.
  unfoldable pub get_user : Exec W User
  get_user = c.api.users_get

  unfoldable pub list_keys : Str → Str → Exec W (List Key)
  list_keys owner repo = list validate_deploy_key_api (c.api.repositories_list_keys owner repo)

  unfoldable pub create_key : Str → Str → Key → Exec W Key
  create_key owner repo req =
      fetch validate_deploy_key_api (c.api.repositories_create_key owner repo req)

  unfoldable pub delete_key : Str → Str → ℕ → Exec W Unit
  delete_key owner repo id = calling (c.api.repositories_delete_key owner repo id)

  -- `GetTeamPermissions`: the map, which must not be nil.
  unfoldable pub get_team_permissions : Str → Str → Str → Exec W (List (Str × Bool))
  get_team_permissions org_name repo team_name = do
    r ← calling (c.api.teams_is_team_repo_by_slug org_name team_name org_name repo)
    lift (permissions_of r)

  unfoldable pub list_repo_teams : Str → Str → Exec W (List Team)
  list_repo_teams org_name repo = list has_slug (c.api.repositories_list_teams org_name repo)

  unfoldable pub add_team : Str → Str → Str → Str → Exec W Unit
  add_team org_name repo team_name permission =
      calling (c.api.teams_add_team_repo_by_slug org_name team_name org_name repo permission)

  unfoldable pub remove_team : Str → Str → Str → Exec W Unit
  remove_team org_name repo team_name =
      calling (c.api.teams_remove_team_repo_by_slug org_name team_name org_name repo)
