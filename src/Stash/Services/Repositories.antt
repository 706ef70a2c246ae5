-- ===== src/Stash/Services/Repositories.antt =====
-- stash/repositories.go: `RepositoriesService`, the operations on repositories.
use go_git_providers.Prelude.{
  ℕ, not, ◌&&◌, Option, none, some, List, [], ◌∷◌, ◌++◌, Str, codes, ◌==◌, nat_eq, if◌then◌else◌,
}
use go_git_providers.Errors.{Err, wrap, sentinel, foreign, stash_already_exists}
use go_git_providers.Exec.{Exec, check, lift, pure, ◌>>=◌, ◌>>◌}
use go_git_providers.Stash.Http.{
  HttpResponse, RestClient, with_query, with_body, with_header, get_method, post_method, put_method,
  delete_method,
}
use go_git_providers.Stash.Types.{
  Session, session_of, StashRepository, no_repository, Page, empty_page, PagingOptions, Codecs,
}
use go_git_providers.Stash.Paging.{new_uri, add_paging, all_pages, first_page}
use go_git_providers.Stash.Services.{
  not_found_guard, both_guards, no_guard, decode, on_values, json_header, marshalled, exchange_with,
  fetch, run,
}

abbrev pub projects_uri : Str
projects_uri = codes "projects"

abbrev pub repositories_uri : Str
repositories_uri = codes "repos"

-- The path of the repositories of a project, and of one of them and what belongs to it.
abbrev pub repositories_path : Str → List Str → Str
repositories_path project_key more = new_uri (projects_uri ∷ project_key ∷ repositories_uri ∷ more)

abbrev pub set_session : Session → StashRepository → StashRepository
set_session session repo = record repo { session = session }

-- How `Create` reports an error of `Do`.
unfoldable pub create_failed : Option HttpResponse → Err → Err
create_failed none e = wrap "create respository failed: %w" [] e
create_failed (some resp) e =
    if resp.status_code == 409
    then sentinel stash_already_exists
    else wrap "create respository failed: %w" [] e

-- `if resp.StatusCode != http.StatusCreated && resp.StatusCode != http.StatusOK { … }`
unfoldable pub created_guard : HttpResponse → Option Err
created_guard resp =
    if not (resp.status_code == 201) && not (resp.status_code == 200)
    then some (foreign (codes "create repository failed: " ++ resp.status))
    else none

module _ {W : Type 0} (c : RestClient W) (j : Codecs) where
  -- `(*RepositoriesService).List`
  unfoldable pub list : Str → Option PagingOptions → Exec W (Page StashRepository)
  unfolding fetch on_values not_found_guard with_query add_paging new_uri
  list project_key opts =
      fetch c
        (record {
          creation = "list respositories request creation failed: %w";
          call = "list respositories failed: %w";
          decoding = "list repositories failed, unable to unmarshal repository list json: %w";
        })
        j.repositories empty_page not_found_guard (on_values set_session) get_method
        (repositories_path project_key []) (with_query (add_paging [] opts) ∷ [])

  -- `(*RepositoriesService).All`
  unfoldable pub all : ℕ → Str → Exec W (List StashRepository)
  unfolding all_pages list
  all fuel project_key = all_pages (λ opts. list project_key (some opts)) fuel first_page []

  -- `(*RepositoriesService).Get`
  unfoldable pub get : Str → Str → Exec W StashRepository
  unfolding fetch not_found_guard new_uri
  get project_key repo_slug =
      fetch c
        (record {
          creation = "get respository request creation failed: %w";
          call = "get respository failed: %w";
          decoding = "get repository failed, unable to unmarshall repository json: %w";
        })
        j.repository no_repository not_found_guard set_session get_method
        (repositories_path project_key (repo_slug ∷ [])) []

  -- `(*RepositoriesService).Create`
  unfoldable pub create : Str → StashRepository → Exec W StashRepository
  unfolding marshalled exchange_with create_failed created_guard decode with_body with_header
  create project_key repository = do
    body ← lift (marshalled (codes "failed to marshall repository: ") (j.of_repository repository))
    reply ←
        exchange_with c "create respository request creation failed: %w" create_failed post_method
          (repositories_path project_key []) (with_body body ∷ with_header json_header ∷ [])
    lift (check (created_guard reply.resp))
    repo ← lift (
        decode "create repository failed, unable to unmarshall repository json: %w" j.repository
          no_repository reply.bytes)
    pure (set_session (session_of reply.resp) repo)

  -- `(*RepositoriesService).Update`
  unfoldable pub update : Str → Str → StashRepository → Exec W StashRepository
  unfolding marshalled fetch both_guards with_body with_header new_uri
  update project_key repository_slug repository = do
    body ← lift (marshalled (codes "failed to marshall repository: ") (j.of_repository repository))
    fetch c
        (record {
          creation = "update repository  request creation failed: %w";
          call = "update repository failed: %w";
          decoding = "update repsository failed, unable to unmarshall repository json: %w";
        })
        j.repository no_repository (both_guards (codes "create deploy key for repository failed: "))
        set_session put_method (repositories_path project_key (repository_slug ∷ []))
        (with_body body ∷ with_header json_header ∷ [])

  -- `(*RepositoriesService).Delete`
  unfoldable pub delete : Str → Str → Exec W Unit
  unfolding run new_uri
  delete project_key repo_slug =
      run c
        (record {
          creation = "delete repositoryrequest creation failed: %w";
          call = "delete repository failed: %w";
          decoding = "";
        })
        no_guard delete_method (repositories_path project_key (repo_slug ∷ [])) []
