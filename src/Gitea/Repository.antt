-- ===== src/Gitea/Repository.antt =====
-- gitea/resource_repository.go, and the calls for repositories of gitea/client_repositories_org.go:
-- a repository's translation from and to `RepositoryInfo`, and the object with its mutable state. A
-- method takes the object and returns it as it is afterwards.
pub mod Visibility
use go_git_providers.Prelude.{
  Bool, true, false, not, ◌&&◌, Option, none, some, List, [], ◌∷◌, Str, codes, ◌==◌, nat_eq,
  list_eq, bool_eq, is_empty, if◌then◌else◌,
}
use go_git_providers.Errors.{Err, sentinel, wrap, is_error, not_found, destructive_call_disallowed}
use go_git_providers.Exec.{
  Result, ok, check, and_then, Exec, lift, pure, fail, Attempt, got, failed, attempt, ◌>>=◌,
}
use go_git_providers.Validation.{Validator, append}
use go_git_providers.Gitprovider.Enums.Visibility.{validate_repository_visibility}
use go_git_providers.Gitprovider.Info.{RepositoryInfo, repository_validate_info, require}
use go_git_providers.Github.Client.{validated}
use go_git_providers.Github.Checks.{validate_all}
use go_git_providers.Github.Repository.{Ref, identity, repository, org_name}
use go_git_providers.Gitea.Api.{Answer, Repository, CreateRepoOption, EditRepoOption, ClientContext}
use go_git_providers.Gitea.Util.{calling, all_pages, validate_api_object}

-- The visibility of a repository.
unfoldable pub visibility_of : Bool → Str
visibility_of false = codes "public"
visibility_of true = codes "private"

-- `validateRepositoryAPI`
unfoldable pub validate_repository_api : Repository → Option Err
unfolding validate_api_object require append validate_repository_visibility visibility_of
validate_repository_api r = validate_api_object (codes "Gitea.Repository") λ v.
    let visibility = visibility_of r.private in
    append (require r.name (codes "Name") v) (validate_repository_visibility visibility)
      (some visibility) (codes "Visibility" ∷ [])

-- `repositoryFromAPI`
unfoldable pub repository_from_api : Repository → RepositoryInfo
unfolding visibility_of
repository_from_api r = record {
  description = some r.description;
  default_branch = some r.default_branch;
  visibility = some (visibility_of r.private);
}

-- `if p != nil { field = *p }`
unfoldable pub or_kept : Option Str → Str → Str
or_kept none old = old
or_kept (some new) old = new

-- `if repo.Visibility != nil { apiObj.Private = *repo.Visibility == "private" }`
unfoldable pub private_of : Option Str → Bool → Bool
private_of none old = old
private_of (some v) old = v == codes "private"

-- `repositoryInfoToAPIObj`, `repositoryInfoToCreateOption`
unfoldable pub repository_info_to_api_obj : RepositoryInfo → Repository → Repository
unfolding or_kept private_of
repository_info_to_api_obj repo r = record r {
  description = or_kept repo.description r.description;
  default_branch = or_kept repo.default_branch r.default_branch;
  private = private_of repo.visibility r.private;
}

unfoldable pub repository_info_to_create_option :
    RepositoryInfo → CreateRepoOption → CreateRepoOption
unfolding or_kept private_of
repository_info_to_create_option repo o = record o {
  description = or_kept repo.description o.description;
  default_branch = or_kept repo.default_branch o.default_branch;
  private = private_of repo.visibility o.private;
}

-- `repositoryToAPI`, given the name of the referenced repository
unfoldable pub repository_to_api : RepositoryInfo → Str → CreateRepoOption
unfolding repository_info_to_create_option
repository_to_api repo name = repository_info_to_create_option repo (record {
  name = name;
  description = [];
  private = false;
  template = false;
  default_branch = [];
  auto_init = false;
  license = [];
})

-- `(*giteaRepositorySpec).Equals` of the specs of two repositories: the fields that
-- `newGiteaRepositorySpec` keeps.
unfoldable pub spec_equals : Repository → Repository → Bool
spec_equals s o =
    s.name == o.name
    && s.description == o.description
    && s.website == o.website
    && s.private == o.private
    && s.has_issues == o.has_issues
    && s.has_projects == o.has_projects
    && s.has_wiki == o.has_wiki
    && s.internal == o.internal
    && s.default_branch == o.default_branch
    && s.allow_squash == o.allow_squash
    && s.allow_merge == o.allow_merge
    && s.allow_rebase == o.allow_rebase

-- The options of `Update`.
unfoldable pub edit_options : Repository → EditRepoOption
edit_options r = record {
  name = r.name;
  description = r.description;
  website = r.website;
  private = r.private;
  template = r.template;
  has_issues = r.has_issues;
  has_projects = r.has_projects;
  has_wiki = r.has_wiki;
  default_branch = r.default_branch;
  allow_squash = r.allow_squash;
  allow_merge = r.allow_merge;
  allow_rebase = r.allow_rebase;
  other = r.other;
  mirror_interval = if r.mirror then some r.mirror_interval else none;
}

-- The options with which `Reconcile` creates.
unfoldable pub create_options : Repository → CreateRepoOption
create_options r = record {
  name = r.name;
  description = r.description;
  private = r.private;
  template = r.template;
  default_branch = r.default_branch;
  auto_init = false;
  license = [];
}

-- `userRepository`, which `orgRepository` embeds
pub record UserRepository : Type 0 where
  pub r : Repository
  pub ref : Ref

-- `(*userRepository).Get`
unfoldable pub get : UserRepository → RepositoryInfo
unfolding repository_from_api
get u = repository_from_api u.r

-- `(*userRepository).Set`
unfoldable pub set : RepositoryInfo → UserRepository → UserRepository × Option Err
unfolding repository_info_to_api_obj
set info u = elim (repository_validate_info info) [
  | some e ↦ (u, some e)
  | none ↦ (record u { r = repository_info_to_api_obj info u.r }, none)
]

-- How a call ends that overwrites the API object on success.
unfoldable pub overwrite : UserRepository → Attempt Repository → UserRepository × Option Err
overwrite u (failed e) = (u, some e)
overwrite u (got r) = (record u { r = r }, none)

-- `return true, err`, beside the object
abbrev pub acted : UserRepository × Option Err → UserRepository × Bool × Option Err
acted v = (v.0, true, v.1)

module _ {W : Type 0} (c : ClientContext W) where
  -- `validateRepositoryAPIResp`, with the call
  unfoldable pub fetch : Exec W (Answer Repository) → Exec W Repository
  unfolding calling validated validate_repository_api
  fetch call = do r ← calling c call; lift (validated validate_repository_api r)

  -- `getRepo`, `createRepo`, `updateRepo`, `deleteRepo`
  unfoldable pub get_repo : Str → Str → Exec W Repository
  unfolding fetch
  get_repo owner repo = fetch (c.api.get_repo owner repo)

  unfoldable pub create_repo : Str → CreateRepoOption → Exec W Repository
  unfolding fetch
  create_repo org opts =
      if not (is_empty org)
      then fetch (c.api.create_org_repo org opts)
      else fetch (c.api.create_repo opts)

  unfoldable pub update_repo : Str → Str → EditRepoOption → Exec W Repository
  unfolding fetch
  update_repo owner repo req = fetch (c.api.edit_repo owner repo req)

  unfoldable pub delete_repo : Str → Str → Exec W Unit
  unfolding calling
  delete_repo owner repo =
      if not c.destructive_actions
      then fail (wrap "cannot delete repository: %w" [] (sentinel destructive_call_disallowed))
      else calling c (c.api.delete_repo owner repo)

  -- `listOrgRepos`, `listUserRepos`, with `validateRepositoryObjects`
  unfoldable pub list_org_repos : Str → Exec W (List Repository)
  unfolding all_pages validate_all validate_repository_api
  list_org_repos org = do
    rs ← all_pages c (c.api.list_org_repos org)
    lift (validate_all validate_repository_api rs)

  unfoldable pub list_user_repos : Str → Exec W (List Repository)
  unfolding all_pages validate_all validate_repository_api
  list_user_repos username = do
    rs ← all_pages c (c.api.list_user_repos username)
    lift (validate_all validate_repository_api rs)

  -- `(*userRepository).Update`
  unfoldable pub update : UserRepository → Exec W (UserRepository × Option Err)
  unfolding overwrite update_repo edit_options
  update u = do
    a ← attempt (update_repo (identity u.ref) (repository u.ref) (edit_options u.r))
    pure (overwrite u a)

  -- The branch of `Reconcile` that creates the repository.
  unfoldable pub create_missing : UserRepository → Exec W (UserRepository × Bool × Option Err)
  unfolding overwrite create_repo create_options
  create_missing u = do
    a ← attempt (create_repo (org_name u.ref) (create_options u.r))
    pure (acted (overwrite u a))

  unfoldable pub reconcile_after :
      UserRepository → Attempt Repository → Exec W (UserRepository × Bool × Option Err)
  unfolding create_missing update
  reconcile_after u (failed e) =
      let create_it = create_missing u in
      if is_error e not_found then create_it else pure (u, false, some e)
  reconcile_after u (got r) =
      let change : Exec W (UserRepository × Bool × Option Err) = update u >>= λ v. pure (acted v) in
      if spec_equals u.r r then pure (u, false, none) else change

  -- `(*userRepository).Reconcile`
  unfoldable pub reconcile : UserRepository → Exec W (UserRepository × Bool × Option Err)
  unfolding reconcile_after get_repo
  reconcile u = do a ← attempt (get_repo (identity u.ref) (repository u.ref)); reconcile_after u a

  -- `(*userRepository).Delete`
  unfoldable pub delete : UserRepository → Exec W Unit
  unfolding delete_repo
  delete u = delete_repo (identity u.ref) (repository u.ref)
