-- ===== src/Gitlab/Files.antt =====
-- gitlab/client_repository_file.go and gitlab/client_repository_tree.go: files and trees. The
-- decoding of base 64 is a parameter.
use go_git_providers.Prelude.{
  Bool, some, List, [], ◌∷◌, Str, codes, ◌==◌, nat_eq, list_eq, is_empty, if◌then◌else◌,
}
use go_git_providers.Errors.{foreign}
use go_git_providers.Exec.{Result, Exec, lift, pure, fail, ◌>>=◌}
use go_git_providers.Gitprovider.Contents.{
  CommitFile, TreeEntry, FilesGetOptions, apply_all_files_get_options, no_files_get_options,
}
use go_git_providers.Github.Repository.{Ref}
use go_git_providers.Gitlab.Api.{TreeNode}
use go_git_providers.Gitlab.Context.{ClientContext}
use go_git_providers.Gitlab.Util.{get_repo_path}

-- `if treeEntry.Type == "blob" { … }`, over the listing
unfoldable pub blobs : List TreeNode → List TreeEntry
blobs [] = []
blobs (n ∷ ns) =
    let rest = blobs ns in
    if n.item_type == codes "blob"
    then record {
      path = n.path;
      mode = n.mode;
      item_type = n.item_type;
      size = 0;
      sha = [];
      content = [];
      url = [];
      id = n.id;
    }
      ∷ rest
    else rest

module _ {W : Type 0} (c : ClientContext W) (ref : Ref) where
  -- `(*TreeClient).Get`
  unfoldable pub tree_get : Str → Bool → Exec W Unit
  tree_get sha recursive =
      fail (foreign (codes "error getting tree %s. not implemented in gitlab yet"))

  -- `(*TreeClient).List`
  unfoldable pub tree_list : Str → Str → Bool → Exec W (List TreeEntry)
  unfolding blobs
  tree_list sha path recursive = do
    ns ←
        c.api.repositories_list_tree (get_repo_path ref)
          (record { path = some path; ref = some sha; recursive = some recursive })
    pure (blobs ns)

module _ {W : Type 0} (decode : Str → Result Str) (c : ClientContext W) (ref : Ref) where
  -- One file, by its path.
  unfoldable pub download : Str → Str → Exec W CommitFile
  download branch path = do
    f ← c.api.files_get (get_repo_path ref) path (some branch)
    content ← lift (decode f.content)
    pure (record { path = some f.file_path; content = some content })

  -- The loop over the listed files, which skips directories.
  unfoldable pub download_all : Str → List TreeNode → Exec W (List CommitFile)
  unfolding download
  download_all branch [] = pure []
  download_all branch (n ∷ ns) =
      let rest : Exec W (List CommitFile) = λ w. download_all branch ns w in
      let this : Exec W (List CommitFile) =
        download branch n.path >>= λ f. rest >>= λ fs. pure (f ∷ fs) in
      if n.item_type == codes "tree" then rest else this

  -- `if len(listFiles) <= 0 { … }`
  unfoldable pub or_single : Str → Str → List TreeNode → List CommitFile → Exec W (List CommitFile)
  unfolding download
  or_single branch path listed files =
      let this : Exec W (List CommitFile) = download branch path >>= λ f. pure (f ∷ []) in
      if is_empty listed then this else pure files

  -- `(*FileClient).Get`
  unfoldable pub file_get : Str → Str → List FilesGetOptions → Exec W (List CommitFile)
  unfolding download_all or_single apply_all_files_get_options
  file_get path branch opts = do
    listed ← c.api.repositories_list_tree (get_repo_path ref) (record {
      path = some path;
      ref = some branch;
      recursive = some (apply_all_files_get_options no_files_get_options opts).recursive;
    })
    files ← download_all branch listed
    or_single branch path listed files
