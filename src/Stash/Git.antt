-- ===== src/Stash/Git.antt =====
-- stash/git.go: commits before they are made, and the licenses. The interface `Git`, whose methods
-- work on a clone in a temporary directory, is a record of operations.
use go_git_providers.Prelude.{
  ℕ, Bool, Option, none, some, List, [], ◌∷◌, ◌++◌, Str, codes, is_empty, ◌==◌, nat_eq, list_eq,
  if◌then◌else◌,
}
use go_git_providers.Errors.{foreign}
use go_git_providers.Exec.{Result, err, ok, and_then, Exec, fail}
use go_git_providers.Gitprovider.Enums.License
use go_git_providers.Gitprovider.Enums.License.{LicenseTemplate}
use go_git_providers.Stash.Types.{Clone}

pub record CommitAuthor : Type 0 where
  pub date : ℕ
  pub name : Str
  pub email : Str

pub record CommitFile : Type 0 where
  pub path : Option Str
  pub content : Option Str

-- `CreateCommit`; the code sets no parents and no key to sign with.
pub record CreateCommit : Type 0 where
  pub author : Option CommitAuthor
  pub committer : Option CommitAuthor
  pub message : Str
  pub url : Str
  pub files : List CommitFile

-- `*git.Repository` with the directory of its worktree
pub record Worktree : Type 0 where
  pub repository : ℕ
  pub dir : Str

-- `Git`, as far as the clients call it, at a commit that is not nil; `create_commit` returns the hash
-- of the commit.
pub record Git (W : Type 0) : Type 0 where
  pub init_repository : CreateCommit → Bool → Exec W Worktree
  pub clone_repository : Str → Exec W Worktree
  pub create_branch : Str → Worktree → Str → Exec W Unit
  pub create_commit : Worktree → Str → CreateCommit → Exec W Str
  pub push : Worktree → Exec W Unit
  pub cleanup : Str → Exec W Unit

abbrev pub GitCommitOptionsFunc : Type 0
GitCommitOptionsFunc = CreateCommit → Result CreateCommit

-- `WithURL`, `WithAuthor` of an author that is not nil, `WithMessage`, `WithFiles`
unfoldable pub with_url : Str → GitCommitOptionsFunc
with_url url c =
    if is_empty url then err (foreign (codes "url is required")) else ok (record c { url = url })

unfoldable pub with_author : CommitAuthor → GitCommitOptionsFunc
with_author author c = ok (record c { author = some author })

unfoldable pub with_message : Str → GitCommitOptionsFunc
with_message message c =
    if is_empty message
    then err (foreign (codes "message is required"))
    else ok (record c { message = message })

unfoldable pub with_files : List CommitFile → GitCommitOptionsFunc
with_files [] c = err (foreign (codes "files are required"))
with_files (f ∷ fs) c = ok (record c { files = f ∷ fs })

-- the loop over the options
unfoldable pub apply_commit_options : List GitCommitOptionsFunc → CreateCommit → Result CreateCommit
apply_commit_options [] c = ok c
apply_commit_options (opt ∷ opts) c = and_then (opt c) (apply_commit_options opts)

-- The checks of `NewCommit` behind the loop.
unfoldable pub check_commit : CreateCommit → Result CreateCommit
check_commit c = elim c.author [
  | none ↦ err (foreign (codes "commit author: invalid parameters"))
  | some author ↦
      if is_empty c.message
      then err (foreign (codes "commit message: invalid parameters"))
      else if is_empty c.url
      then err (foreign (codes "commit url: invalid parameters"))
      else ok c
]

-- `NewCommit`
unfoldable pub new_commit : List GitCommitOptionsFunc → Result CreateCommit
unfolding apply_commit_options check_commit
new_commit opts =
    and_then
      (apply_commit_options opts
        (record { author = none; committer = none; message = []; url = []; files = [] }))
      check_commit

-- `(*GitService).CreateCommit` of a commit that may be nil
unfoldable pub create_commit :
    {W : Type 0} → Git W → Worktree → Str → Option CreateCommit → Exec W Str
create_commit git r branch none = fail (foreign (codes "commit must be provided"))
create_commit git r branch (some c) = git.create_commit r branch c

-- `getRepoHTTPref` of stash/client_repositories_org.go
unfoldable pub get_repo_http_ref : List Clone → Str
get_repo_http_ref [] = codes "no http ref found"
get_repo_http_ref (clone ∷ clones) =
    let rest = get_repo_http_ref clones in if clone.name == codes "http" then clone.href else rest

-- `licenseURLs`
unfoldable pub license_urls : LicenseTemplate → Option Str
license_urls license =
    if license == License.apache2
    then some (codes "https://www.apache.org/licenses/LICENSE-2.0.txt")
    else if license == License.gpl3
    then some (codes "https://www.gnu.org/licenses/gpl-3.0-standalone.html")
    else none

-- `getLicense`, given `downloadFile`
unfoldable pub get_license : {W : Type 0} → (Str → Exec W Str) → LicenseTemplate → Exec W Str
unfolding license_urls
get_license download license = elim (license_urls license) [
  | none ↦ fail (foreign (codes "license: " ++ (license ++ codes ", not supported")))
  | some url ↦ download url
]
