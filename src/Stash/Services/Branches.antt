-- ===== src/Stash/Services/Branches.antt =====
-- stash/branch.go: `BranchesService`.
use go_git_providers.Prelude.{Option, [], ◌∷◌, Str, codes, nat_eq, list_eq}
use go_git_providers.Exec.{Exec, lift, ◌>>=◌}
use go_git_providers.Stash.Http.{
  RestClient, with_query, with_body, with_header, get_method, post_method, put_method,
}
use go_git_providers.Stash.Types.{
  Session, Page, empty_page, PagingOptions, Codecs, Branch, no_branch,
}
use go_git_providers.Stash.Paging.{new_uri, add_paging}
use go_git_providers.Stash.Services.{
  not_found_guard, on_values, json_header, marshalled, fetch, run,
}
use go_git_providers.Stash.Services.Repositories.{repositories_path}

abbrev branches_uri : Str
branches_uri = codes "branches"

abbrev default_branch_uri : Str
default_branch_uri = codes "default"

abbrev pub set_session : Session → Branch → Branch
set_session session b = record b { session = session }

module _ {W : Type 0} (c : RestClient W) (j : Codecs) where
  -- `(*BranchesService).List`
  unfoldable pub list : Str → Str → Option PagingOptions → Exec W (Page Branch)
  unfolding fetch on_values not_found_guard with_query add_paging new_uri
  list project_key repository_slug opts =
      fetch c
        (record {
          creation = "list branches request creation failed: %w";
          call = "list branches failed: %w";
          decoding =
              "list branches for repository failed, unable to unmarshall repository json: %w";
        })
        j.branches empty_page not_found_guard (on_values set_session) get_method
        (repositories_path project_key (repository_slug ∷ branches_uri ∷ []))
        (with_query (add_paging [] opts) ∷ [])

  -- `(*BranchesService).Get`: one branch is decoded from what the endpoint of the listing answers.
  unfoldable pub get : Str → Str → Str → Exec W Branch
  unfolding fetch not_found_guard with_query new_uri
  get project_key repository_slug branch_id =
      fetch c
        (record {
          creation = "get branch request creation failed: %w";
          call = "get branch failed: %w";
          decoding = "get branch for repository failed, unable to unmarshall repository json: %w";
        })
        j.branch no_branch not_found_guard set_session get_method
        (repositories_path project_key (repository_slug ∷ branches_uri ∷ []))
        (with_query ((codes "filterText", branch_id) ∷ []) ∷ [])

  -- `(*BranchesService).Default`
  unfoldable pub default : Str → Str → Exec W Branch
  unfolding fetch not_found_guard new_uri
  default project_key repository_slug =
      fetch c
        (record {
          creation = "get branch request creation failed: %w";
          call = "get branch failed: %w";
          decoding =
              "list branches for repository failed, unable to unmarshall repository json: %w";
        })
        j.branch no_branch not_found_guard set_session get_method
        (repositories_path project_key (repository_slug ∷ branches_uri ∷ default_branch_uri ∷ []))
        []

  -- `(*BranchesService).SetDefault`
  unfoldable pub set_default : Str → Str → Str → Exec W Unit
  unfolding marshalled run not_found_guard with_body with_header new_uri
  set_default project_key repository_slug branch_id = do
    body ← lift (marshalled (codes "failed to marshall branch id: ") (j.of_branch_id branch_id))
    run c
        (record {
          creation = "set default branch request creation failed: %w";
          call = "set default branch failed: %w";
          decoding = "";
        })
        not_found_guard put_method
        (repositories_path project_key (repository_slug ∷ branches_uri ∷ default_branch_uri ∷ []))
        (with_body body ∷ with_header json_header ∷ [])

  -- `(*BranchesService).Create`
  unfoldable pub create : Str → Str → Str → Str → Exec W Branch
  unfolding marshalled fetch not_found_guard with_body with_header new_uri
  create project_key repository_slug branch_id start_point = do
    body ← lift (
        marshalled (codes "failed to marshall branch: ")
          (j.of_new_branch (record { name = branch_id; start_point = start_point })))
    fetch c
        (record {
          creation = "create branch request creation failed: %w";
          call = "create branch failed: %w";
          decoding = "create branch for repository failed, unable to unmarshall branch json: %w";
        })
        j.branch no_branch not_found_guard set_session post_method
        (repositories_path project_key (repository_slug ∷ branches_uri ∷ []))
        (with_body body ∷ with_header json_header ∷ [])
