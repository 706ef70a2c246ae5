-- ===== src/Stash/PullRequests.antt =====
-- stash/client_repository_pullrequest.go and stash/resource_pullrequest.go; of
-- stash/client_repository_commit.go the listing of commits, and of stash/client_repository_branch.go
-- the default branch.
use go_git_providers.Prelude.{
  ℕ, Bool, true, false, Option, none, some, List, [], ◌∷◌, Str, codes, ◌==◌, nat_eq, list_eq,
}
use go_git_providers.Errors.{wrap}
use go_git_providers.Exec.{Exec, pure, ◌>>=◌, ◌>>◌}
use go_git_providers.Stash.Services.{on_error}
use go_git_providers.Github.Repository.{Ref}
use go_git_providers.Strings.{itoa}
use go_git_providers.Stash.Types.{
  no_repository, no_project, no_git_ref, GitRef, CreatePullRequest, PullRequest, CommitObject,
}
use go_git_providers.Stash.Services.PullRequests
use go_git_providers.Stash.Services.Commits
use go_git_providers.Stash.Services.Branches
use go_git_providers.Stash.Repository.{heads}
use go_git_providers.Stash.Context.{StashContext, project_refs}

-- `PullRequestInfo` of gitprovider/types_repository.go
pub record PullRequestInfo : Type 0 where
  pub title : Str
  pub description : Str
  pub web_url : Str
  pub number : ℕ
  pub merged : Bool
  pub source_branch : Str

-- `getSelfref`
unfoldable pub get_self_ref : List Str → Str
get_self_ref [] = codes "no http ref found"
get_self_ref (s ∷ ss) = s

-- `pullrequestFromAPI`
unfoldable pub pullrequest_from_api : PullRequest → PullRequestInfo
unfolding get_self_ref
pullrequest_from_api api_obj = record {
  title = api_obj.title;
  description = api_obj.description;
  web_url = get_self_ref api_obj.self;
  number = api_obj.id_version.id;
  merged = api_obj.state == codes "MERGED";
  source_branch = api_obj.from_ref.display_id;
}

-- A branch of the repository that a pull request names.
unfoldable pub git_ref : Str × Str → Str → GitRef
git_ref refs branch = record no_git_ref {
  id = heads branch;
  repository = record no_repository { slug = refs.1; project = record no_project { key = refs.0 } };
}

unfoldable pub new_pull_request : Str × Str → Str → Str → Str → Str → CreatePullRequest
unfolding git_ref
new_pull_request refs title branch base_branch description = record {
  closed = false;
  description = description;
  from_ref = git_ref refs branch;
  locked = false;
  open_ = true;
  state = codes "OPEN";
  title = title;
  to_ref = git_ref refs base_branch;
  reviewers = [];
}

-- What `Edit` does to the object: the title if there is one, and the author and the participants are
-- taken out.
unfoldable pub edit_object : Option Str → PullRequest → PullRequest
edit_object none pr = record pr { author = none; participants = [] }
edit_object (some title) pr = record pr { title = title; author = none; participants = [] }

module _ {W : Type 0} (c : StashContext W) (ref : Ref) where
  -- `(*PullRequestClient).Get`
  unfoldable pub get : ℕ → Exec W PullRequest
  unfolding on_error PullRequests.get project_refs
  get number =
      on_error (wrap "failed to get pull request: %w" [])
        (PullRequests.get c.client c.json (project_refs ref).0 (project_refs ref).1 number)

  -- `(*PullRequestClient).List`
  unfoldable pub list : Exec W (List PullRequest)
  unfolding on_error PullRequests.all project_refs
  list =
      on_error (wrap "failed to list pull requests: %w" [])
        (PullRequests.all c.client c.json c.fuel (project_refs ref).0 (project_refs ref).1)

  -- `(*PullRequestClient).Merge`
  unfoldable pub merge : ℕ → Exec W Unit
  unfolding get PullRequests.merge project_refs
  merge number = do
    pr ← get number
    PullRequests.merge c.client c.json (project_refs ref).0 (project_refs ref).1 pr.id_version.id
        pr.id_version.version
    pure tt

  -- `(*PullRequestClient).Create`
  unfoldable pub create : Str → Str → Str → Str → Exec W PullRequest
  unfolding on_error PullRequests.create new_pull_request project_refs
  create title branch base_branch description =
      on_error (wrap "failed to create pull request: %w" []) (
        PullRequests.create c.client c.json (project_refs ref).0 (project_refs ref).1
          (new_pull_request (project_refs ref) title branch base_branch description))

  -- `(*PullRequestClient).Edit`
  unfoldable pub edit : ℕ → Option Str → Exec W PullRequest
  unfolding on_error get itoa edit_object PullRequests.update project_refs
  edit number title = do
    pr ← on_error (wrap "failed to get PR %d: %w" (itoa number ∷ [])) (get number)
    on_error (wrap "failed to edit pull request: %w" []) (
        PullRequests.update c.client c.json (project_refs ref).0 (project_refs ref).1
          (edit_object title pr))

  -- `(*CommitClient).ListPage`
  unfoldable pub list_commits : Str → ℕ → ℕ → Exec W (List CommitObject)
  unfolding on_error Commits.list_page project_refs
  list_commits branch per_page page = on_error (wrap "failed to list commits: %w" []) (
      Commits.list_page c.client c.json (project_refs ref).0 (project_refs ref).1 branch per_page
        page)

  -- `(*BranchClient).getDefault`
  unfoldable pub get_default : Exec W Str
  unfolding on_error Branches.default project_refs
  get_default = do
    b ←
        on_error (wrap "failed to get default branch: %w" [])
          (Branches.default c.client c.json (project_refs ref).0 (project_refs ref).1)
    pure b.display_id
