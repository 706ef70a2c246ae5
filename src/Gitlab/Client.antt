-- ===== src/Gitlab/Client.antt =====
-- gitlab/gitlabclient.go: the methods of `gitlabClientImpl`, and the checks of server data of
-- gitlab/resource_organization.go, resource_deploykey.go and resource_deploytoken.go.
pub mod Listings
use go_git_providers.Prelude.{
  ℕ, Bool, true, false, not, ◌&&◌, ◌||◌, Option, none, some, List, [], ◌∷◌, ◌++◌, map, Str, codes,
  slash, ◌==◌, nat_eq, list_eq, if◌then◌else◌,
}
use go_git_providers.Errors.{Err, sentinel, wrap, destructive_call_disallowed}
use go_git_providers.Exec.{
  Result, ok, err, panic, out_of_fuel, check, and_then, Exec, lift, pure, fail, ◌>>=◌, ◌>>◌,
}
use go_git_providers.Gitprovider.Info.{require}
use go_git_providers.Github.Api.{Listing}
use go_git_providers.Github.Checks.{validate_all}
use go_git_providers.Github.Client.{validated}
use go_git_providers.Gitlab.Api.{
  User, Project, Group, GroupMember, GroupId, by_path, ProjectDeployKey, DeployToken, Commit,
  ProjectNamespace, CreateProjectOptions, EditProjectOptions,
}
use go_git_providers.Gitlab.Context.{ClientContext}
use go_git_providers.Gitlab.Util.{
  validate_api_object, validate_project_api, handle_http_error, calling, all_group_pages,
  all_other_pages,
}

unfoldable pub validate_group_api : Group → Option Err
unfolding validate_api_object require
validate_group_api g = validate_api_object (codes "GitLab.Group") (require g.path (codes "Path"))

unfoldable pub validate_deploy_key_api : ProjectDeployKey → Option Err
unfolding validate_api_object require
validate_deploy_key_api k =
    validate_api_object (codes "GitLab.Key")
      λ v. require k.key (codes "Key") (require k.title (codes "Title") v)

unfoldable pub validate_deploy_token_api : DeployToken → Option Err
unfolding validate_api_object require
validate_deploy_token_api t =
    validate_api_object (codes "GitLab.Token")
      λ v. require t.username (codes "Username") (require t.name (codes "Name") v)

-- One project, whose default branch the check sets.
unfoldable pub checked_project : Project → Result Project
unfolding validate_project_api
checked_project p = let (p', e) = validate_project_api p in and_then (check e) (λ _. ok p')

-- `validateProjectObjects`
unfoldable pub validate_project_objects : List Project → Result (List Project)
unfolding checked_project
validate_project_objects [] = ok []
validate_project_objects (p ∷ ps) =
    let rest = validate_project_objects ps in
    and_then (checked_project p) λ p'. and_then rest (λ ps'. ok (p' ∷ ps'))

-- The tokens of a page that `ListTokens` keeps.
unfoldable pub is_active : DeployToken → Bool
is_active t = not t.expired && not t.revoked

unfoldable pub keep_active : List DeployToken → List DeployToken
unfolding is_active
keep_active [] = []
keep_active (t ∷ ts) = let rest = keep_active ts in if is_active t then t ∷ rest else rest

unfoldable pub active_tokens : {W : Type 0} → Listing W DeployToken → Listing W DeployToken
unfolding keep_active
active_tokens list page = do p ← list page; pure (keep_active p.0, p.1)

abbrev pub no_options : CreateProjectOptions
no_options = record {
  name = none;
  default_branch = none;
  description = none;
  visibility = none;
  namespace_id = none;
  initialize_with_readme = none;
}

-- `opts := extraOpts; if opts == nil { opts = &CreateProjectOptions{} }`
unfoldable pub options_or_new : Option CreateProjectOptions → CreateProjectOptions
options_or_new none = no_options
options_or_new (some opts) = opts

-- The options of `CreateProject`: those given, or none, with the fields of the request.
unfoldable pub create_options : Project → Option CreateProjectOptions → ℕ → CreateProjectOptions
unfolding options_or_new
create_options req extra namespace_id =
    let opts = options_or_new extra in
    record opts {
      name = some req.name;
      default_branch = some req.default_branch;
      description = some req.description;
      visibility = some req.visibility;
      namespace_id = if namespace_id == 0 then opts.namespace_id else some namespace_id;
    }

unfoldable pub edit_options : Project → EditProjectOptions
edit_options req = record {
  name = some req.name;
  description = some req.description;
  visibility = some req.visibility;
  default_branch = none;
}

-- The fields of a commit that `ListCommitsPage` copies.
unfoldable pub copy_commit : Commit → Commit
copy_commit c = record c { other = [] }

module _ {W : Type 0} (c : ClientContext W) where
  unfoldable pub get_group : GroupId → Exec W Group
  unfolding validated validate_group_api
  get_group group_id = do g ← c.api.groups_get group_id; lift (validated validate_group_api g)

  unfoldable pub list_groups : Exec W (List Group)
  unfolding all_group_pages validate_all validate_group_api
  list_groups = do
    gs ← all_group_pages c.fuel c.api.groups_list
    lift (validate_all validate_group_api gs)

  unfoldable pub list_subgroups : Str → Exec W (List Group)
  unfolding all_other_pages validate_all validate_group_api
  list_subgroups group_name = do
    gs ← all_other_pages c.fuel (c.api.groups_list_subgroups group_name)
    lift (validate_all validate_group_api gs)

  unfoldable pub list_group_members : Str → Exec W (List GroupMember)
  list_group_members group_name = all_other_pages c.fuel (c.api.groups_list_members group_name)

  -- `validateProjectAPIResp`, with the call
  unfoldable pub fetch_project : Exec W Project → Exec W Project
  unfolding calling handle_http_error checked_project
  fetch_project call = do p ← calling handle_http_error call; lift (checked_project p)

  unfoldable pub get_group_project : Str → Str → Exec W Project
  get_group_project group_name project_name =
      fetch_project (c.api.projects_get (c.to_lower group_name ++ (slash ∷ project_name)))

  unfoldable pub get_user_project : Str → Exec W Project
  get_user_project project_name = fetch_project (c.api.projects_get project_name)

  unfoldable pub list_group_projects : Str → Exec W (List Project)
  unfolding all_other_pages validate_project_objects
  list_group_projects group_name = do
    ps ← all_other_pages c.fuel (c.api.groups_list_projects group_name)
    lift (validate_project_objects ps)

  unfoldable pub list_projects : Exec W (List Project)
  list_projects = all_other_pages c.fuel c.api.projects_list

  unfoldable pub list_project_users : Str → Exec W (List User)
  list_project_users project_name = all_other_pages c.fuel (c.api.projects_list_users project_name)

  unfoldable pub list_user_projects : Str → Exec W (List Project)
  list_user_projects username = all_other_pages c.fuel (c.api.projects_list_user_projects username)

  -- The namespace of a new project: 0 where it belongs to a user.
  unfoldable pub namespace_id : Option ProjectNamespace → Exec W ℕ
  unfolding get_group
  namespace_id none = pure 0
  namespace_id (some n) =
      let found : Exec W ℕ = get_group (by_path n.name) >>= λ g. pure g.id in
      if n.kind == codes "user" then pure 0 else found

  unfoldable pub create_project : Project → Option CreateProjectOptions → Exec W Project
  unfolding namespace_id create_options
  create_project req extra = do
    id ← namespace_id req.namespace
    fetch_project (c.api.projects_create (create_options req extra id))

  unfoldable pub update_project : Project → Exec W Project
  unfolding edit_options
  update_project req = fetch_project (c.api.projects_edit req.id (edit_options req))

  -- `DeleteProject`: the error is not handled.
  unfoldable pub delete_project : Str → Exec W Unit
  delete_project project_name =
      if not c.destructive_actions
      then fail (wrap "cannot delete repository: %w" [] (sentinel destructive_call_disallowed))
      else c.api.projects_delete project_name

  unfoldable pub get_user : Exec W User
  get_user = c.api.users_current

  unfoldable pub list_keys : Str → Exec W (List ProjectDeployKey)
  unfolding all_other_pages validate_all validate_deploy_key_api
  list_keys project_name = do
    ks ← all_other_pages c.fuel (c.api.deploy_keys_list project_name)
    lift (validate_all validate_deploy_key_api ks)

  unfoldable pub create_key : Str → ProjectDeployKey → Exec W ProjectDeployKey
  create_key project_name req = do
    k ← calling handle_http_error (
        c.api.deploy_keys_add project_name
          (record { title = some req.title; key = some req.key; can_push = some req.can_push }))
    lift (validated validate_deploy_key_api k)

  unfoldable pub delete_key : Str → ℕ → Exec W Unit
  delete_key project_name id = calling handle_http_error (c.api.deploy_keys_delete project_name id)

  unfoldable pub list_tokens : Str → Exec W (List DeployToken)
  unfolding all_other_pages active_tokens validate_all validate_deploy_token_api
  list_tokens project_name = do
    ts ← all_other_pages c.fuel (active_tokens (c.api.deploy_tokens_list project_name))
    lift (validate_all validate_deploy_token_api ts)

  unfoldable pub create_token : Str → DeployToken → Exec W DeployToken
  create_token project_name req = do
    t ← calling handle_http_error (
        c.api.deploy_tokens_create project_name
          (record { name = some req.name; username = none; scopes = codes "read_repository" ∷ [] }))
    lift (validated validate_deploy_token_api t)

  unfoldable pub delete_token : Str → ℕ → Exec W Unit
  delete_token project_name id =
      calling handle_http_error (c.api.deploy_tokens_delete project_name id)

  unfoldable pub share_project : Str → ℕ → ℕ → Exec W Unit
  share_project project_name group_id access =
      calling handle_http_error (c.api.projects_share project_name group_id access)

  unfoldable pub unshare_project : Str → ℕ → Exec W Unit
  unshare_project project_name group_id =
      calling handle_http_error (c.api.projects_unshare project_name group_id)

  unfoldable pub list_commits_page : Str → Str → ℕ → ℕ → Exec W (List Commit)
  unfolding copy_commit
  list_commits_page project_name branch per_page page = do
    cs ←
        c.api.commits_list project_name
          (record { per_page = per_page; page = page; ref_name = some branch })
    pure (map copy_commit cs)
