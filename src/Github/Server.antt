-- ===== src/Github/Server.antt =====
-- A GitHub server as the code relies on it: what the documentation of the REST API says of getting
-- and updating a repository, as the laws of a view of the server's state.
use go_git_providers.Prelude.{◌≡◌, Option, none, some, Str}
use go_git_providers.Errors.{GithubErrorResponse, github_response, or_else}
use go_git_providers.Exec.{ok, err}
use go_git_providers.Github.Api.{Repository, GoGithub}

-- PATCH semantics: the fields that are set in the update replace those of the repository.
unfoldable pub patch : Repository → Repository → Repository
patch u r = record r {
  name = or_else u.name r.name;
  description = or_else u.description r.description;
  homepage = or_else u.homepage r.homepage;
  private = or_else u.private r.private;
  visibility = or_else u.visibility r.visibility;
  has_issues = or_else u.has_issues r.has_issues;
  has_projects = or_else u.has_projects r.has_projects;
  has_wiki = or_else u.has_wiki r.has_wiki;
  is_template = or_else u.is_template r.is_template;
  default_branch = or_else u.default_branch r.default_branch;
  allow_squash_merge = or_else u.allow_squash_merge r.allow_squash_merge;
  allow_merge_commit = or_else u.allow_merge_commit r.allow_merge_commit;
  allow_rebase_merge = or_else u.allow_rebase_merge r.allow_rebase_merge;
  delete_branch_on_merge = or_else u.delete_branch_on_merge r.delete_branch_on_merge;
}

pub record Server {W : Type 0} (api : GoGithub W) : Type 0 where
  -- the repository of an owner, by name
  pub at : W → Str → Str → Option Repository
  pub get_present :
      (w : W) (owner name : Str) (r : Repository)
      → at w owner name ≡ some r
      → api.repositories_get owner name w ≡ (ok r, w)
  pub get_absent :
      (w : W) (owner name : Str)
      → at w owner name ≡ none
      → (resp : GithubErrorResponse) × (resp.response.status_code ≡ 404)
        × (api.repositories_get owner name w ≡ (err (github_response resp), w))
  pub edit_present :
      (w : W) (owner name : Str) (r u : Repository)
      → at w owner name ≡ some r
      → (v : W) × (api.repositories_edit owner name (some u) w ≡ (ok (patch u r), v))
        × (at v owner name ≡ some (patch u r))
