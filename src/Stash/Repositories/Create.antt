-- ===== src/Stash/Repositories/Create.antt =====
-- stash/client_repositories_org.go: `createRepository`, and the first commit of a new repository.
use go_git_providers.Prelude.{
  Bool, true, false, not, ◌&&◌, Option, none, some, List, [], ◌∷◌, ◌++◌, Str, codes, is_empty, ◌==◌,
  nat_eq, list_eq, if◌then◌else◌,
}
use go_git_providers.Errors.{Err, wrap}
use go_git_providers.Exec.{
  Result, check, Exec, lift, fail, pure, Attempt, got, failed, attempt, ◌>>=◌, ◌>>◌,
}
use go_git_providers.Gitprovider.Enums.License.{LicenseTemplate}
use go_git_providers.Gitprovider.Info.{RepositoryInfo, repository_info, validate_and_default_info}
use go_git_providers.Gitprovider.Options.{
  RepositoryCreateOptions, RepositoryCreateOption, make_repository_create_options,
}
use go_git_providers.Github.Repository.{Ref}
use go_git_providers.Stash.Types.{StashRepository, Branch, User}
use go_git_providers.Stash.Services.{map_error, on_error}
use go_git_providers.Stash.Services.Repositories
use go_git_providers.Stash.Services.Branches
use go_git_providers.Stash.Services.Users
use go_git_providers.Stash.Git.{
  CommitFile, CreateCommit, Worktree, GitCommitOptionsFunc, with_author, with_message, with_url,
  with_files, new_commit, get_repo_http_ref, get_license,
}
use go_git_providers.Stash.Context.{StashContext}
use go_git_providers.Stash.Repository.{repository_to_api, heads}

abbrev pub legacy_branch : Str
legacy_branch = codes "master"

-- `branch != "" && branch != legacyBranch`
unfoldable pub needs_branch : Str → Bool
needs_branch branch = not (is_empty branch) && not (branch == legacy_branch)

-- `opt.AutoInit != nil && *(opt.AutoInit)`
unfoldable pub wants_init : Option Bool → Bool
wants_init none = false
wants_init (some b) = b

abbrev pub file : Str → Str → CommitFile
file path content = record { path = some path; content = some content }

-- The file for the license, if there is one.
unfoldable pub license_file : Attempt Str → List CommitFile
license_file (got content) = file (codes "LICENSE.md") content ∷ []
license_file (failed e) = []

-- The first commit, whose files are what `more` adds.
unfoldable pub initial_commit :
    StashRepository → User → List GitCommitOptionsFunc → Result CreateCommit
unfolding map_error new_commit with_author with_message with_url get_repo_http_ref
initial_commit repo u more = map_error (wrap "failed to create initial commit: %w" []) (
    new_commit (
      with_author (record { date = 0; name = u.name; email = u.email_address })
      ∷ with_message (codes "initial commit")
      ∷ with_url (get_repo_http_ref repo.clone)
      ∷ more))

module _ {W : Type 0} (c : StashContext W) where
  -- `setDefaultBranch`
  unfoldable pub set_default_branch : Str → Str → StashRepository → Exec W Branch
  unfolding on_error Branches.create Branches.set_default
  set_default_branch org_key branch repo = do
    br ←
        on_error (wrap "failed to create default branch: %w" [])
          (Branches.create c.client c.json org_key repo.slug (heads branch) (heads legacy_branch))
    on_error (wrap "failed to set default branch: %w" [])
        (Branches.set_default c.client c.json org_key repo.slug (heads branch))
    pure br

  -- `initRepo` where `InitRepository` failed: the repository is deleted.
  unfoldable pub init_failed : StashRepository → Err → Exec W Unit
  unfolding on_error Repositories.delete
  init_failed repo e =
      on_error (wrap "failed to delete repository: %w" [])
        (Repositories.delete c.client c.json repo.project.key repo.slug)
      >> fail (wrap "failed to init repository: %w" [] e)

  unfoldable pub init_pushed : StashRepository → Attempt Worktree → Exec W Unit
  unfolding on_error init_failed
  init_pushed repo (failed e) = init_failed repo e
  init_pushed repo (got r) = do
    on_error (wrap "failed to push initial commit: %w" []) (c.git.push r)
    on_error (wrap "failed to cleanup repository: %w" []) (c.git.cleanup r.dir)

  -- `initRepo`
  unfoldable pub init_repo : CreateCommit → StashRepository → Exec W Unit
  unfolding init_pushed
  init_repo init_commit repo = attempt (c.git.init_repository init_commit true) >>= init_pushed repo

  -- The new default branch of the repository.
  unfoldable pub add_default_branch : Str → Str → StashRepository → Exec W StashRepository
  unfolding on_error set_default_branch
  add_default_branch org_key branch repo = do
    br ←
        on_error (wrap "failed to create default branch: %w" [])
          (set_default_branch org_key branch repo)
    pure (record repo { default_branch = br.display_id })

  -- The license to add: none, or what `getLicense` returns.
  unfoldable pub license_files : Option LicenseTemplate → Exec W (List CommitFile)
  unfolding license_file get_license
  license_files none = pure []
  license_files (some template) =
      attempt (get_license c.download template) >>= λ a. pure (license_file a)

  unfoldable pub readme : StashRepository → CommitFile
  readme repo = file (codes "README.md") (codes "# " ++ (repo.name ++ (b'\n' ∷ repo.description)))

  -- The branch of `createRepository` for `AutoInit`; the error of `initRepo` is not looked at.
  unfoldable pub auto_init :
      Str → Str → Option LicenseTemplate → StashRepository → User → Exec W StashRepository
  unfolding license_files readme initial_commit with_files init_repo add_default_branch needs_branch
  auto_init org_key branch template repo u = do
    license ← license_files template
    init_commit ← lift (initial_commit repo u (with_files (readme repo ∷ license) ∷ []))
    _ ← attempt (init_repo init_commit repo)
    if needs_branch branch then add_default_branch org_key branch repo else pure repo

  -- The other branch, with a default branch to make.
  unfoldable pub init_for_branch : Str → Str → StashRepository → User → Exec W StashRepository
  unfolding initial_commit on_error init_repo add_default_branch
  init_for_branch org_key branch repo u = do
    init_commit ← lift (initial_commit repo u [])
    on_error (wrap "failed to initialize repository: %w" []) (init_repo init_commit repo)
    add_default_branch org_key branch repo

  unfoldable pub initialize :
      Str → Str → RepositoryCreateOptions → StashRepository → User → Exec W StashRepository
  unfolding auto_init init_for_branch wants_init needs_branch
  initialize org_key branch opt repo u =
      if wants_init opt.auto_init
      then auto_init org_key branch opt.license_template repo u
      else if needs_branch branch
      then init_for_branch org_key branch repo u
      else pure repo

  -- `createRepository`
  unfoldable pub create_repository :
      Str → Ref → RepositoryInfo → List RepositoryCreateOption → Exec W StashRepository
  unfolding repository_to_api on_error Repositories.create Users.get initialize
  create_repository org_key ref req opts = do
    req' ← lift (validate_and_default_info req)
    lift (check (make_repository_create_options opts).1)
    let data_ = repository_to_api req' ref
    repo ←
        on_error (wrap "failed to create repository: %w" [])
          (Repositories.create c.client c.json org_key data_)
    u ←
        on_error (wrap "failed to get user: %w" [])
          (Users.get c.client c.json repo.session.user_name)
    initialize org_key data_.default_branch (make_repository_create_options opts).0 repo u
