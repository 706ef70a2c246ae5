-- ===== src/Gitlab/Project.antt =====
-- gitlab/resource_repository.go: a project's translation from and to `RepositoryInfo`, and the
-- repository object with its mutable state. A method takes the object and returns it as it is
-- afterwards.
use go_git_providers.Prelude.{
  Bool, true, false, ◌&&◌, Option, none, some, [], map, Str, codes, ◌==◌, nat_eq, list_eq,
  option_eq, if◌then◌else◌,
}
use go_git_providers.Errors.{Err, is_error, not_found}
use go_git_providers.Exec.{Exec, pure, Attempt, got, failed, attempt, ◌>>=◌}
use go_git_providers.Gitprovider.Enums.Visibility
use go_git_providers.Gitprovider.Enums.Visibility.{RepositoryVisibility}
use go_git_providers.Gitprovider.Info.{RepositoryInfo, repository_validate_info}
use go_git_providers.Github.Repository.{Ref, identity, repository}
use go_git_providers.Gitlab.Api.{Project, ProjectNamespace}
use go_git_providers.Gitlab.Client.{
  get_user_project, get_group_project, create_project, update_project, delete_project,
}
use go_git_providers.Gitlab.Context.{ClientContext}
use go_git_providers.Gitlab.Util.{get_repo_path}

-- `repositoryFromAPI`: the pointers are never nil.
unfoldable pub repository_from_api : Project → RepositoryInfo
repository_from_api p = record {
  description = some p.description;
  default_branch = some p.default_branch;
  visibility = some p.visibility;
}

-- `gitlabVisibilityMap[v]`, which is `""` for a value that the map does not have
unfoldable pub gitlab_visibility_map : RepositoryVisibility → Str
gitlab_visibility_map v =
    if v == Visibility.internal
    then codes "internal"
    else if v == Visibility.private
    then codes "private"
    else if v == Visibility.public
    then codes "public"
    else []

-- `if p != nil { field = *p }`
unfoldable pub or_kept : Option Str → Str → Str
or_kept none old = old
or_kept (some new) old = new

unfoldable pub mapped_visibility : Option RepositoryVisibility → Str → Str
unfolding gitlab_visibility_map
mapped_visibility none old = old
mapped_visibility (some v) old = gitlab_visibility_map v

-- `repositoryInfoToAPIObj`
unfoldable pub repository_info_to_api_obj : RepositoryInfo → Project → Project
unfolding or_kept mapped_visibility
repository_info_to_api_obj repo p = record p {
  description = or_kept repo.description p.description;
  default_branch = or_kept repo.default_branch p.default_branch;
  visibility = mapped_visibility repo.visibility p.visibility;
}

abbrev pub empty_project : Project
empty_project = record {
  id = 0;
  name = [];
  description = [];
  visibility = [];
  default_branch = [];
  namespace = none;
  owner = none;
  shared_with_groups = [];
}

-- `repositoryToAPI`, given the name of the referenced repository
unfoldable pub repository_to_api : RepositoryInfo → Str → Project
unfolding repository_info_to_api_obj
repository_to_api repo name = repository_info_to_api_obj repo (record empty_project { name = name })

-- `newGitlabProjectSpec`
unfoldable pub new_gitlab_project_spec : Project → Project
new_gitlab_project_spec p = record empty_project {
  name = p.name;
  namespace = p.namespace;
  description = p.description;
  visibility = p.visibility;
  default_branch = p.default_branch;
}

unfoldable pub same_namespace : Option ProjectNamespace → Option ProjectNamespace → Bool
same_namespace none none = true
same_namespace (some n) (some m) =
    n.name == m.name
    && n.kind == m.kind
    && map (λ x. x.0) n.other == map (λ x. x.0) m.other
    && map (λ x. x.1) n.other == map (λ x. x.1) m.other
same_namespace _ _ = false

-- `(*gitlabProjectSpec).Equals`: `cmp.Equal` of two specs, whose other fields are all zero.
unfoldable pub spec_equals : Project → Project → Bool
unfolding same_namespace
spec_equals s o =
    s.name == o.name
    && same_namespace s.namespace o.namespace
    && s.description == o.description
    && s.visibility == o.visibility
    && s.default_branch == o.default_branch

-- `userProject`, which `orgRepository` embeds
pub record UserProject : Type 0 where
  pub p : Project
  pub ref : Ref

-- `(*userProject).Get`
unfoldable pub get : UserProject → RepositoryInfo
unfolding repository_from_api
get u = repository_from_api u.p

-- `(*userProject).Set`
unfoldable pub set : RepositoryInfo → UserProject → UserProject × Option Err
unfolding repository_info_to_api_obj
set info u = elim (repository_validate_info info) [
  | some e ↦ (u, some e)
  | none ↦ (record u { p = repository_info_to_api_obj info u.p }, none)
]

-- How a call ends that overwrites the API object on success.
unfoldable pub overwrite : UserProject → Attempt Project → UserProject × Option Err
overwrite u (failed e) = (u, some e)
overwrite u (got p) = (record u { p = p }, none)

-- `return true, err`, beside the object
abbrev pub acted : UserProject × Option Err → UserProject × Bool × Option Err
acted v = (v.0, true, v.1)

module _ {W : Type 0} (c : ClientContext W) where
  -- `(*userProject).Update`
  unfoldable pub update : UserProject → Exec W (UserProject × Option Err)
  unfolding overwrite
  update u = do a ← attempt (update_project c u.p); pure (overwrite u a)

  -- The branch of `Reconcile` that creates the project.
  unfoldable pub create_missing : UserProject → Exec W (UserProject × Bool × Option Err)
  unfolding overwrite
  create_missing u = do a ← attempt (create_project c u.p none); pure (acted (overwrite u a))

  unfoldable pub reconcile_after :
      UserProject → Attempt Project → Exec W (UserProject × Bool × Option Err)
  unfolding create_missing update
  reconcile_after u (failed e) =
      let create_it = create_missing u in
      if is_error e not_found then create_it else pure (u, false, some e)
  reconcile_after u (got p) =
      let change : Exec W (UserProject × Bool × Option Err) = update u >>= λ v. pure (acted v) in
      if spec_equals (new_gitlab_project_spec u.p) (new_gitlab_project_spec p)
      then pure (u, false, none)
      else change

  -- `(*userProject).Reconcile`, and `(*orgRepository).Reconcile`, which looks the project up in its
  -- group
  unfoldable pub user_project_reconcile : UserProject → Exec W (UserProject × Bool × Option Err)
  unfolding reconcile_after
  user_project_reconcile u = do
    a ← attempt (get_user_project c (get_repo_path u.ref))
    reconcile_after u a

  unfoldable pub org_repository_reconcile : UserProject → Exec W (UserProject × Bool × Option Err)
  unfolding reconcile_after
  org_repository_reconcile u = do
    a ← attempt (get_group_project c (identity u.ref) (repository u.ref))
    reconcile_after u a

  -- `(*userProject).Delete`
  unfoldable pub delete : UserProject → Exec W Unit
  delete u = delete_project c (get_repo_path u.ref)
