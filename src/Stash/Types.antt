-- ===== src/Stash/Types.antt =====
-- The objects of the REST API, of every file of the package stash, and the conversion to and from
-- JSON, which is a parameter. A number is one that the API sends: not negative. A list that the
-- server sends has no null among its elements. The fields that the code passes on unread are one
-- text, `rest`.
use go_git_providers.Prelude.{ℕ, Bool, false, Option, none, List, [], Str, codes}
use go_git_providers.Exec.{Attempt}
use go_git_providers.Stash.Http.{HttpResponse}

pub record Session : Type 0 where
  pub user_id : Str
  pub user_name : Str
  pub session_id : Str
  pub request_id : Str

abbrev pub no_session : Session
no_session = record { user_id = []; user_name = []; session_id = []; request_id = [] }

-- `(*Session).set`
unfoldable pub session_of : HttpResponse → Session
session_of resp = record {
  user_id = resp.header (codes "X-Auserid");
  user_name = resp.header (codes "X-Ausername");
  session_id = resp.header (codes "X-Asessionid");
  request_id = resp.header (codes "X-Arequestid");
}

pub record Paging : Type 0 where
  pub is_last_page : Bool
  pub limit : ℕ
  pub size : ℕ
  pub start : ℕ
  pub next_page_start : ℕ

abbrev pub no_paging : Paging
no_paging = record { is_last_page = false; limit = 0; size = 0; start = 0; next_page_start = 0 }

pub record PagingOptions : Type 0 where
  pub start : ℕ
  pub limit : ℕ

-- `RepositoryList`, `ProjectsList` and the other listings: the paging and the values. `about` is
-- what the code notes beside them: `ProjectKey` or `GroupName`.
pub record Page (A : Type 0) : Type 0 where
  pub paging : Paging
  pub about : Str
  pub values : List A

-- `&XList{}`
abbrev pub empty_page : {A : Type 0} → Page A
empty_page = record { paging = no_paging; about = []; values = [] }

pub record Clone : Type 0 where
  pub href : Str
  pub name : Str

pub record User : Type 0 where
  pub session : Session
  pub email_address : Str
  pub id : ℕ
  pub name : Str
  pub slug : Str
  pub rest : Str

abbrev pub no_user : User
no_user = record {
  session = no_session;
  email_address = [];
  id = 0;
  name = [];
  slug = [];
  rest = [];
}

pub record Project : Type 0 where
  pub session : Session
  pub description : Str
  pub key : Str
  pub user : User
  pub name : Str
  pub public : Bool
  pub rest : Str

abbrev pub no_project : Project
no_project = record {
  session = no_session;
  description = [];
  key = [];
  user = no_user;
  name = [];
  public = false;
  rest = [];
}

-- `Repository`; `clone` is `Links.Clone`.
pub record StashRepository : Type 0 where
  pub session : Session
  pub description : Str
  pub clone : List Clone
  pub name : Str
  pub project : Project
  pub public : Bool
  pub scm_id : Str
  pub slug : Str
  pub default_branch : Str
  pub rest : Str

-- `&Repository{}`
abbrev pub no_repository : StashRepository
no_repository = record {
  session = no_session;
  description = [];
  clone = [];
  name = [];
  project = no_project;
  public = false;
  scm_id = [];
  slug = [];
  default_branch = [];
  rest = [];
}

-- `RepositoryGroupPermission`, `ProjectGroupPermission`; `group` is the name of the group.
pub record GroupPermission : Type 0 where
  pub session : Session
  pub group : Str
  pub permission : Str

-- `RepositoryUserPermission`, `ProjectUserPermission`
pub record UserPermission : Type 0 where
  pub session : Session
  pub user : User
  pub permission : Str

pub record Group : Type 0 where
  pub session : Session
  pub name : Str
  pub deleteable : Bool

pub record Branch : Type 0 where
  pub session : Session
  pub display_id : Str
  pub id : Str
  pub is_default : Bool
  pub latest_commit : Str
  pub rest : Str

abbrev pub no_branch : Branch
no_branch = record {
  session = no_session;
  display_id = [];
  id = [];
  is_default = false;
  latest_commit = [];
  rest = [];
}

pub record CommitObject : Type 0 where
  pub session : Session
  pub author : User
  pub author_timestamp : ℕ
  pub committer : User
  pub display_id : Str
  pub id : Str
  pub message : Str
  pub rest : Str

abbrev pub no_commit : CommitObject
no_commit = record {
  session = no_session;
  author = no_user;
  author_timestamp = 0;
  committer = no_user;
  display_id = [];
  id = [];
  message = [];
  rest = [];
}

-- `DeployKey`; the first three fields below the session are those of `Key`.
pub record DeployKey : Type 0 where
  pub session : Session
  pub id : ℕ
  pub label : Str
  pub text : Str
  pub permission : Str
  pub repository : StashRepository

abbrev pub no_deploy_key : DeployKey
no_deploy_key = record {
  session = no_session;
  id = 0;
  label = [];
  text = [];
  permission = [];
  repository = no_repository;
}

-- `Ref` of pull_requests.go
pub record GitRef : Type 0 where
  pub display_id : Str
  pub id : Str
  pub latest_commit : Str
  pub repository : StashRepository
  pub type : Str

abbrev pub no_git_ref : GitRef
no_git_ref = record {
  display_id = [];
  id = [];
  latest_commit = [];
  repository = no_repository;
  type = [];
}

pub record Participant : Type 0 where
  pub approved : Bool
  pub role : Str
  pub status : Str
  pub user : User

pub record CreatePullRequest : Type 0 where
  pub closed : Bool
  pub description : Str
  pub from_ref : GitRef
  pub locked : Bool
  pub open_ : Bool
  pub state : Str
  pub title : Str
  pub to_ref : GitRef
  pub reviewers : List User

pub record IdVersion : Type 0 where
  pub id : ℕ
  pub version : ℕ

-- `PullRequest`; `self` are the addresses of `Links.Self`.
pub record PullRequest : Type 0 where
  pub session : Session
  pub author : Option Participant
  pub description : Str
  pub from_ref : GitRef
  pub id_version : IdVersion
  pub self : List Str
  pub participants : List Participant
  pub state : Str
  pub title : Str
  pub to_ref : GitRef
  pub rest : Str

abbrev pub no_pull_request : PullRequest
no_pull_request = record {
  session = no_session;
  author = none;
  description = [];
  from_ref = no_git_ref;
  id_version = record { id = 0; version = 0 };
  self = [];
  participants = [];
  state = [];
  title = [];
  to_ref = no_git_ref;
  rest = [];
}

-- The body of a request to create a branch, from `startPoint`.
pub record NewBranch : Type 0 where
  pub name : Str
  pub start_point : Str

-- What `json.Marshal` returns: the bytes, or the text of its error.
pub data Encoded : Type 0 where
  encoded : Str → Encoded
  unsupported : Str → Encoded

-- `json.Unmarshal` of bytes into an object that has a value already.
abbrev pub Decoder : Type 0 → Type 0
Decoder A = Str → A → Attempt A

-- `encoding/json` at the types of this package
pub record Codecs : Type 0 where
  pub repository : Decoder StashRepository
  pub repositories : Decoder (Page StashRepository)
  pub group_permissions : Decoder (Page GroupPermission)
  pub user_permissions : Decoder (Page UserPermission)
  pub user : Decoder User
  pub users : Decoder (Page User)
  pub projects : Decoder (Page Project)
  pub group : Decoder Group
  pub groups : Decoder (Page Group)
  pub branch : Decoder Branch
  pub branches : Decoder (Page Branch)
  pub commit : Decoder CommitObject
  pub commits : Decoder (Page CommitObject)
  pub deploy_key : Decoder DeployKey
  pub deploy_keys : Decoder (Page DeployKey)
  pub pull_request : Decoder PullRequest
  pub pull_requests : Decoder (Page PullRequest)
  pub of_repository : StashRepository → Encoded
  pub of_branch_id : Str → Encoded
  pub of_new_branch : NewBranch → Encoded
  pub of_deploy_key : DeployKey → Encoded
  pub of_create_pull_request : CreatePullRequest → Encoded
  pub of_pull_request : PullRequest → Encoded
  pub of_version : ℕ → Encoded
