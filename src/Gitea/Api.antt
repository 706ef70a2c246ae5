-- ===== src/Gitea/Api.antt =====
-- What the package gitea uses of the SDK (code.gitea.io/sdk/gitea): its structs, by the fields that
-- the code reads or writes, and its calls as parameters over the server's state.
use go_git_providers.Prelude.{ℕ, Bool, Option, List, Str}
use go_git_providers.Errors.{Err}
use go_git_providers.Exec.{Exec}
use go_git_providers.Gitprovider.Url.{UrlParser}

-- The part of `*gitea.Response` that the code reads: the status code and the header `Link`.
pub record GiteaResponse : Type 0 where
  pub status_code : ℕ
  pub link : Str

-- The results of a call for one object: the object, or an error with the response, if any.
pub data Answer (A : Type 0) : Type 0 where
  answered : A → Answer A
  refused : Option GiteaResponse → Err → Answer A

-- The results of a call for a page.
pub record Page (A : Type 0) : Type 0 where
  pub objects : List A
  pub response : Option GiteaResponse
  pub error : Option Err

-- A listing by the number of the page.
abbrev pub PageCall : Type 0 → Type 0 → Type 0
PageCall W A = ℕ → Exec W (Page A)

-- `gitea.User`, `gitea.Organization`, `gitea.Team`; the permission is the text of the access mode.
pub record User : Type 0 where
  pub user_name : Str

pub record Organization : Type 0 where
  pub user_name : Str
  pub description : Str

pub record Team : Type 0 where
  pub id : ℕ
  pub name : Str
  pub permission : Str

-- `gitea.Repository`. `other` holds the remaining fields that an update sends, by name, and `status`
-- those that no request has.
pub record Repository : Type 0 where
  pub name : Str
  pub description : Str
  pub website : Str
  pub private : Bool
  pub internal : Bool
  pub template : Bool
  pub has_issues : Bool
  pub has_projects : Bool
  pub has_wiki : Bool
  pub default_branch : Str
  pub allow_squash : Bool
  pub allow_merge : Bool
  pub allow_rebase : Bool
  pub mirror : Bool
  pub mirror_interval : Str
  pub owner : Option User
  pub other : List (Str × Str)
  pub status : List (Str × Str)

-- `gitea.CreateRepoOption`
pub record CreateRepoOption : Type 0 where
  pub name : Str
  pub description : Str
  pub private : Bool
  pub template : Bool
  pub default_branch : Str
  pub auto_init : Bool
  pub license : Str

-- `gitea.EditRepoOption`, whose pointers are never nil but the last.
pub record EditRepoOption : Type 0 where
  pub name : Str
  pub description : Str
  pub website : Str
  pub private : Bool
  pub template : Bool
  pub has_issues : Bool
  pub has_projects : Bool
  pub has_wiki : Bool
  pub default_branch : Str
  pub allow_squash : Bool
  pub allow_merge : Bool
  pub allow_rebase : Bool
  pub other : List (Str × Str)
  pub mirror_interval : Option Str

-- `gitea.DeployKey`, `gitea.CreateKeyOption`
pub record DeployKey : Type 0 where
  pub id : ℕ
  pub title : Str
  pub key : Str
  pub read_only : Bool

pub record CreateKeyOption : Type 0 where
  pub title : Str
  pub key : Str
  pub read_only : Bool

-- `gitea.Commit`, with the name and the time of its author; `gitea.ListCommitOptions`
pub record Commit : Type 0 where
  pub sha : Str
  pub author : Option (Str × Str)
  pub url : Str
  pub tree_sha : Option Str
  pub message : Option Str

pub record ListCommitOptions : Type 0 where
  pub page_size : ℕ
  pub page : ℕ
  pub sha : Str

-- `*gitea.Client`, by the calls that are made.
pub record GiteaSdk (W : Type 0) : Type 0 where
  pub get_repo : Str → Str → Exec W (Answer Repository)
  pub list_org_repos : Str → PageCall W Repository
  pub list_user_repos : Str → PageCall W Repository
  pub create_org_repo : Str → CreateRepoOption → Exec W (Answer Repository)
  pub create_repo : CreateRepoOption → Exec W (Answer Repository)
  pub edit_repo : Str → Str → EditRepoOption → Exec W (Answer Repository)
  pub delete_repo : Str → Str → Exec W (Answer Unit)
  pub get_my_user_info : Exec W (Answer User)
  pub list_deploy_keys : Str → Str → PageCall W DeployKey
  pub create_deploy_key : Str → Str → CreateKeyOption → Exec W (Answer DeployKey)
  pub delete_deploy_key : Str → Str → ℕ → Exec W (Answer Unit)
  pub check_repo_team : Str → Str → Str → Exec W (Answer (Option Team))
  pub get_repo_teams : Str → Str → Exec W (Answer (List Team))
  pub add_repo_team : Str → Str → Str → Exec W (Answer Unit)
  pub remove_repo_team : Str → Str → Str → Exec W (Answer Unit)
  pub get_org : Str → Exec W (Answer Organization)
  pub list_my_orgs : PageCall W Organization
  pub list_org_teams : Str → PageCall W Team
  pub list_team_members : ℕ → PageCall W User
  pub list_repo_commits : Str → Str → ListCommitOptions → Exec W (Page Commit)

-- `clientContext`, with `url.Parse`, the text of an error, and the number of pages that the model
-- follows a listing for.
pub record ClientContext (W : Type 0) : Type 0 where
  pub api : GiteaSdk W
  pub domain : Str
  pub destructive_actions : Bool
  pub parse : UrlParser
  pub error_text : Err → Str
  pub fuel : ℕ
