-- ===== src/Github/Spec.antt =====
-- github/resource_repository.go: the part of a repository that a request can set, and its
-- translation from and to `RepositoryInfo`. The loops over the fields of the struct by reflection
-- are written out field by field.
pub mod Laws
use go_git_providers.Prelude.{
  ℕ, Bool, true, false, not, ◌&&◌, ◌||◌, Option, none, some, List, [], ◌∷◌, Str, codes, ◌==◌,
  nat_eq, list_eq, bool_eq, option_eq, if◌then◌else◌,
}
use go_git_providers.Errors.{or_else}
use go_git_providers.Gitprovider.Enums.Known.{is_known}
use go_git_providers.Gitprovider.Info.{RepositoryInfo}
use go_git_providers.Gitprovider.Options.{RepositoryCreateOptions}
use go_git_providers.Github.Api.{Repository, empty_repository}

abbrev pub github_repository_known_fields : List Str
github_repository_known_fields =
    codes "Name"
    ∷ codes "Description"
    ∷ codes "Homepage"
    ∷ codes "Private"
    ∷ codes "Visibility"
    ∷ codes "HasIssues"
    ∷ codes "HasProjects"
    ∷ codes "HasWiki"
    ∷ codes "IsTemplate"
    ∷ codes "DefaultBranch"
    ∷ codes "TeamID"
    ∷ codes "AutoInit"
    ∷ codes "GitignoreTemplate"
    ∷ codes "LicenseTemplate"
    ∷ codes "AllowSquashMerge"
    ∷ codes "AllowMergeCommit"
    ∷ codes "AllowRebaseMerge"
    ∷ codes "DeleteBranchOnMerge"
    ∷ []

-- One round of the loop: a known field is copied, another keeps its zero value.
unfoldable pub keep {ℓ} : {A : Type ℓ} → Str → Option A → Option A
unfolding is_known
keep field value = if is_known github_repository_known_fields field then value else none

-- The remaining fields, by their names.
unfoldable pub keep_other : List (Str × Str) → List (Str × Str)
unfolding is_known
keep_other [] = []
keep_other ((field, value) ∷ fields) =
    let rest = keep_other fields in
    if is_known github_repository_known_fields field then (field, value) ∷ rest else rest

-- `newGithubRepositorySpec`
unfoldable pub new_github_repository_spec : Repository → Repository
unfolding keep keep_other
new_github_repository_spec r = record {
  name = keep (codes "Name") r.name;
  description = keep (codes "Description") r.description;
  homepage = keep (codes "Homepage") r.homepage;
  private = keep (codes "Private") r.private;
  visibility = keep (codes "Visibility") r.visibility;
  has_issues = keep (codes "HasIssues") r.has_issues;
  has_projects = keep (codes "HasProjects") r.has_projects;
  has_wiki = keep (codes "HasWiki") r.has_wiki;
  is_template = keep (codes "IsTemplate") r.is_template;
  default_branch = keep (codes "DefaultBranch") r.default_branch;
  team_id = keep (codes "TeamID") r.team_id;
  auto_init = keep (codes "AutoInit") r.auto_init;
  gitignore_template = keep (codes "GitignoreTemplate") r.gitignore_template;
  license_template = keep (codes "LicenseTemplate") r.license_template;
  allow_squash_merge = keep (codes "AllowSquashMerge") r.allow_squash_merge;
  allow_merge_commit = keep (codes "AllowMergeCommit") r.allow_merge_commit;
  allow_rebase_merge = keep (codes "AllowRebaseMerge") r.allow_rebase_merge;
  delete_branch_on_merge = keep (codes "DeleteBranchOnMerge") r.delete_branch_on_merge;
  permissions = keep (codes "Permissions") r.permissions;
  owner = keep (codes "Owner") r.owner;
  other = keep_other r.other;
}

-- `(*githubRepositorySpec).Equals`: `reflect.DeepEqual` of two specs, whose fields that are not
-- known are all zero.
unfoldable pub spec_equals : Repository → Repository → Bool
spec_equals s o =
    s.name == o.name
    && s.description == o.description
    && s.homepage == o.homepage
    && s.private == o.private
    && s.visibility == o.visibility
    && s.has_issues == o.has_issues
    && s.has_projects == o.has_projects
    && s.has_wiki == o.has_wiki
    && s.is_template == o.is_template
    && s.default_branch == o.default_branch
    && s.team_id == o.team_id
    && s.auto_init == o.auto_init
    && s.gitignore_template == o.gitignore_template
    && s.license_template == o.license_template
    && s.allow_squash_merge == o.allow_squash_merge
    && s.allow_merge_commit == o.allow_merge_commit
    && s.allow_rebase_merge == o.allow_rebase_merge
    && s.delete_branch_on_merge == o.delete_branch_on_merge

-- A pointer to a repository: its address and what it points to.
pub record Located : Type 0 where
  pub address : ℕ
  pub value : Repository

-- `desiredVal.FieldByName(f) != actualVal.FieldByName(f)` compares two `reflect.Value`s of the same
-- field: their types and flags agree, and their pointers are the struct's address plus the field's
-- offset.
unfoldable pub differs : Located → Located → Bool
differs desired actual = not (desired.address == actual.address)

-- `updateGithubRepository`
unfoldable pub update_github_repository : Located → Located → Repository
unfolding differs
update_github_repository desired actual =
    let d = desired.value in
    if differs desired actual
    then record d { name = d.name }
    else record empty_repository { name = d.name }

-- `updateApiObjWithRepositoryInfo`: the two specs are allocated anew.
unfoldable pub update_api_obj_with_repository_info : RepositoryInfo → Repository → Repository
unfolding update_github_repository
update_api_obj_with_repository_info repo api_obj =
    let spec = new_github_repository_spec api_obj in
    let desired = record spec {
      description = or_else repo.description spec.description;
      default_branch = or_else repo.default_branch spec.default_branch;
      visibility = or_else repo.visibility spec.visibility;
    } in
    update_github_repository (record { address = 1; value = desired })
      (record { address = 0; value = spec })

-- `repositoryFromAPI`
unfoldable pub repository_from_api : Repository → RepositoryInfo
repository_from_api r = record {
  description = r.description;
  default_branch = r.default_branch;
  visibility = r.visibility;
}

-- `repositoryInfoToAPIObj`
unfoldable pub repository_info_to_api_obj : RepositoryInfo → Repository → Repository
repository_info_to_api_obj repo api_obj = record api_obj {
  description = or_else repo.description api_obj.description;
  default_branch = or_else repo.default_branch api_obj.default_branch;
  visibility = or_else repo.visibility api_obj.visibility;
}

-- `repositoryToAPI`, given the name of the referenced repository
unfoldable pub repository_to_api : RepositoryInfo → Str → Repository
unfolding repository_info_to_api_obj
repository_to_api repo repository_name =
    repository_info_to_api_obj repo (record empty_repository { name = some repository_name })

-- `applyRepoCreateOptions`
unfoldable pub apply_repo_create_options : Repository → RepositoryCreateOptions → Repository
apply_repo_create_options api_obj opts = record api_obj {
  auto_init = opts.auto_init;
  license_template = or_else opts.license_template api_obj.license_template;
}
