-- ===== src/Github/Api.antt =====
-- What the package github uses of go-github (github.com/google/go-github): its structs, by the
-- fields that the code reads or writes, and its calls as parameters over the server's state.
use go_git_providers.Prelude.{ℕ, Bool, Option, none, List, [], Str}
use go_git_providers.Exec.{Exec}

-- `github.User`
pub record User : Type 0 where
  pub login : Option Str

-- `github.Repository`. `other` holds the remaining fields that are set, by name.
pub record Repository : Type 0 where
  pub name : Option Str
  pub description : Option Str
  pub homepage : Option Str
  pub private : Option Bool
  pub visibility : Option Str
  pub has_issues : Option Bool
  pub has_projects : Option Bool
  pub has_wiki : Option Bool
  pub is_template : Option Bool
  pub default_branch : Option Str
  pub team_id : Option ℕ
  pub auto_init : Option Bool
  pub gitignore_template : Option Str
  pub license_template : Option Str
  pub allow_squash_merge : Option Bool
  pub allow_merge_commit : Option Bool
  pub allow_rebase_merge : Option Bool
  pub delete_branch_on_merge : Option Bool
  pub permissions : Option (List (Str × Bool))
  pub owner : Option User
  pub other : List (Str × Str)

-- `github.Repository{}`
abbrev pub empty_repository : Repository
empty_repository = record {
  name = none;
  description = none;
  homepage = none;
  private = none;
  visibility = none;
  has_issues = none;
  has_projects = none;
  has_wiki = none;
  is_template = none;
  default_branch = none;
  team_id = none;
  auto_init = none;
  gitignore_template = none;
  license_template = none;
  allow_squash_merge = none;
  allow_merge_commit = none;
  allow_rebase_merge = none;
  delete_branch_on_merge = none;
  permissions = none;
  owner = none;
  other = [];
}

-- `github.Key`
pub record Key : Type 0 where
  pub id : Option ℕ
  pub key : Option Str
  pub title : Option Str
  pub read_only : Option Bool

-- `github.Organization`, `github.Team`
pub record Organization : Type 0 where
  pub login : Option Str
  pub name : Option Str
  pub description : Option Str

pub record Team : Type 0 where
  pub slug : Option Str
  pub permissions : Option (List (Str × Bool))

-- A page of a listing: its objects, and `resp.NextPage`, which is 0 on the last page. The page
-- that is asked for first is 0.
abbrev pub Listing : Type 0 → Type 0 → Type 0
Listing W A = ℕ → Exec W (List A × ℕ)

-- `*github.Client`, by the calls that are made. A nil error comes with a non-nil object.
pub record GoGithub (W : Type 0) : Type 0 where
  pub organizations_get : Str → Exec W Organization
  pub organizations_list : Listing W Organization
  pub teams_list_team_members_by_slug : Str → Str → Listing W User
  pub teams_list_teams : Str → Listing W Team
  pub teams_is_team_repo_by_slug : Str → Str → Str → Str → Exec W Repository
  pub teams_add_team_repo_by_slug : Str → Str → Str → Str → Str → Exec W Unit
  pub teams_remove_team_repo_by_slug : Str → Str → Str → Str → Exec W Unit
  pub users_get : Exec W User
  pub repositories_get : Str → Str → Exec W Repository
  pub repositories_list_by_org : Str → Listing W Repository
  pub repositories_list : Str → Listing W Repository
  pub repositories_create : Str → Repository → Exec W Repository
  pub repositories_edit : Str → Str → Option Repository → Exec W Repository
  pub repositories_delete : Str → Str → Exec W Unit
  pub repositories_list_keys : Str → Str → Listing W Key
  pub repositories_create_key : Str → Str → Key → Exec W Key
  pub repositories_delete_key : Str → Str → ℕ → Exec W Unit
  pub repositories_list_teams : Str → Str → Listing W Team
