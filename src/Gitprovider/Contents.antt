-- ===== src/Gitprovider/Contents.antt =====
-- gitprovider/types_repository.go, options.go and enums.go: what a repository holds, commits, pull
-- requests, files and trees.
use go_git_providers.Prelude.{ℕ, Bool, false, Option, List, [], ◌∷◌, Str, codes}

pub record CommitInfo : Type 0 where
  pub sha : Str
  pub tree_sha : Str
  pub author : Str
  pub message : Str
  pub created_at : Str
  pub url : Str

pub record CommitFile : Type 0 where
  pub path : Option Str
  pub content : Option Str

pub record PullRequestInfo : Type 0 where
  pub title : Str
  pub description : Str
  pub merged : Bool
  pub number : ℕ
  pub web_url : Str
  pub source_branch : Str

pub record TreeEntry : Type 0 where
  pub path : Str
  pub mode : Str
  pub item_type : Str
  pub size : ℕ
  pub sha : Str
  pub content : Str
  pub url : Str
  pub id : Str

pub record FilesGetOptions : Type 0 where
  pub recursive : Bool

-- `(*FilesGetOptions).ApplyFilesGetOptions`
unfoldable pub apply_files_get_options : FilesGetOptions → FilesGetOptions → FilesGetOptions
apply_files_get_options opts target = record { recursive = opts.recursive }

-- The loop over the options of `Get`, from options that are not set.
unfoldable pub apply_all_files_get_options :
    FilesGetOptions → List FilesGetOptions → FilesGetOptions
unfolding apply_files_get_options
apply_all_files_get_options target [] = target
apply_all_files_get_options target (opt ∷ opts) =
    apply_all_files_get_options (apply_files_get_options opt target) opts

abbrev pub no_files_get_options : FilesGetOptions
no_files_get_options = record { recursive = false }

-- `MergeMethod`
abbrev pub MergeMethod : Type 0
MergeMethod = Str

abbrev pub merge_method_merge : MergeMethod
merge_method_merge = codes "merge"

abbrev pub merge_method_squash : MergeMethod
merge_method_squash = codes "squash"
