-- ===== src/Gitlab/Api.antt =====
-- What the package gitlab uses of go-gitlab (github.com/xanzy/go-gitlab): its structs, by the
-- fields that the code reads or writes, and its calls as parameters over the server's state.
use go_git_providers.Prelude.{ℕ, Bool, Option, List, Str}
use go_git_providers.Exec.{Exec}
use go_git_providers.Github.Api.{Listing}

-- `gitlab.User`
pub record User : Type 0 where
  pub username : Str

-- `gitlab.ProjectNamespace`. `other` holds the remaining fields that are set, by name.
pub record ProjectNamespace : Type 0 where
  pub name : Str
  pub kind : Str
  pub other : List (Str × Str)

-- An entry of `SharedWithGroups`.
pub record SharedGroup : Type 0 where
  pub group_id : ℕ
  pub group_access_level : ℕ

-- `gitlab.Project`
pub record Project : Type 0 where
  pub id : ℕ
  pub name : Str
  pub description : Str
  pub visibility : Str
  pub default_branch : Str
  pub namespace : Option ProjectNamespace
  pub owner : Option User
  pub shared_with_groups : List SharedGroup

-- `gitlab.Group`, `gitlab.GroupMember`
pub record Group : Type 0 where
  pub id : ℕ
  pub path : Str
  pub name : Str
  pub full_name : Str
  pub description : Str
  pub web_url : Str

pub record GroupMember : Type 0 where
  pub username : Str

-- `gitlab.ProjectDeployKey`, `gitlab.DeployToken`
pub record ProjectDeployKey : Type 0 where
  pub id : ℕ
  pub title : Str
  pub key : Str
  pub can_push : Bool

pub record DeployToken : Type 0 where
  pub id : ℕ
  pub name : Str
  pub username : Str
  pub token : Str
  pub expired : Bool
  pub revoked : Bool

-- `gitlab.Commit`; the time is the text of the pointer's value.
pub record Commit : Type 0 where
  pub id : Str
  pub author_name : Str
  pub message : Str
  pub created_at : Option Str
  pub web_url : Str
  pub other : List (Str × Str)

-- The options of the calls; a field that is nil is not sent.
pub record CreateProjectOptions : Type 0 where
  pub name : Option Str
  pub default_branch : Option Str
  pub description : Option Str
  pub visibility : Option Str
  pub namespace_id : Option ℕ
  pub initialize_with_readme : Option Bool

pub record EditProjectOptions : Type 0 where
  pub name : Option Str
  pub description : Option Str
  pub visibility : Option Str
  pub default_branch : Option Str

pub record AddDeployKeyOptions : Type 0 where
  pub title : Option Str
  pub key : Option Str
  pub can_push : Option Bool

pub record CreateProjectDeployTokenOptions : Type 0 where
  pub name : Option Str
  pub username : Option Str
  pub scopes : List Str

pub record ListCommitsOptions : Type 0 where
  pub per_page : ℕ
  pub page : ℕ
  pub ref_name : Option Str

-- `gitlab.CommitActionOptions`, `gitlab.CreateCommitOptions`
pub record CommitActionOptions : Type 0 where
  pub action : Str
  pub file_path : Option Str
  pub content : Option Str

pub record CreateCommitOptions : Type 0 where
  pub branch : Str
  pub commit_message : Str
  pub actions : List CommitActionOptions

-- `gitlab.MergeRequest`, and the options of the calls for merge requests
pub record MergeRequest : Type 0 where
  pub iid : ℕ
  pub title : Str
  pub description : Str
  pub state : Str
  pub merge_status : Str
  pub web_url : Str
  pub source_branch : Str

pub record CreateMergeRequestOptions : Type 0 where
  pub title : Option Str
  pub source_branch : Option Str
  pub target_branch : Option Str
  pub description : Option Str

pub record AcceptMergeRequestOptions : Type 0 where
  pub merge_commit_message : Option Str
  pub squash_commit_message : Option Str
  pub squash : Option Bool

-- `gitlab.TreeNode`, `gitlab.File`, and the options of the listing
pub record TreeNode : Type 0 where
  pub id : Str
  pub path : Str
  pub mode : Str
  pub item_type : Str

pub record File : Type 0 where
  pub file_path : Str
  pub content : Str

pub record ListTreeOptions : Type 0 where
  pub path : Option Str
  pub ref : Option Str
  pub recursive : Option Bool

-- The `interface{}` that names a group: its path, or its number.
pub data GroupId : Type 0 where
  by_path : Str → GroupId
  by_number : ℕ → GroupId

-- `*gitlab.Client`, by the calls that are made. A nil error comes with a non-nil object.
pub record GoGitlab (W : Type 0) : Type 0 where
  pub groups_get : GroupId → Exec W Group
  pub groups_list : Listing W Group
  pub groups_list_subgroups : Str → Listing W Group
  pub groups_list_members : Str → Listing W GroupMember
  pub groups_list_projects : Str → Listing W Project
  pub projects_get : Str → Exec W Project
  pub projects_list : Listing W Project
  pub projects_list_users : Str → Listing W User
  pub projects_list_user_projects : Str → Listing W Project
  pub projects_create : CreateProjectOptions → Exec W Project
  pub projects_edit : ℕ → EditProjectOptions → Exec W Project
  pub projects_delete : Str → Exec W Unit
  pub users_current : Exec W User
  pub deploy_keys_list : Str → Listing W ProjectDeployKey
  pub deploy_keys_add : Str → AddDeployKeyOptions → Exec W ProjectDeployKey
  pub deploy_keys_delete : Str → ℕ → Exec W Unit
  pub deploy_tokens_list : Str → Listing W DeployToken
  pub deploy_tokens_create : Str → CreateProjectDeployTokenOptions → Exec W DeployToken
  pub deploy_tokens_delete : Str → ℕ → Exec W Unit
  pub projects_share : Str → ℕ → ℕ → Exec W Unit
  pub projects_unshare : Str → ℕ → Exec W Unit
  pub commits_list : Str → ListCommitsOptions → Exec W (List Commit)
  pub commits_create : Str → CreateCommitOptions → Exec W Commit
  pub branches_create : Str → Str → Str → Exec W Unit
  pub merge_requests_list : Str → Exec W (List MergeRequest)
  pub merge_requests_create : Str → CreateMergeRequestOptions → Exec W MergeRequest
  pub merge_requests_update : Str → ℕ → Option Str → Exec W MergeRequest
  pub merge_requests_get : Str → ℕ → Exec W MergeRequest
  pub merge_requests_accept : Str → ℕ → AcceptMergeRequestOptions → Exec W Unit
  pub repositories_list_tree : Str → ListTreeOptions → Exec W (List TreeNode)
  pub files_get : Str → Str → Option Str → Exec W File
