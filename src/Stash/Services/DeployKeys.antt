-- ===== src/Stash/Services/DeployKeys.antt =====
-- stash/deploy_keys.go: `DeployKeysService`. The identifiers of keys are not negative.
use go_git_providers.Prelude.{ℕ, Option, some, List, [], ◌∷◌, Str, codes, nat_eq, list_eq}
use go_git_providers.Strings.{itoa}
use go_git_providers.Exec.{Exec, lift, ◌>>=◌}
use go_git_providers.Stash.Http.{
  RestClient, with_query, with_body, with_header, get_method, post_method, put_method,
  delete_method,
}
use go_git_providers.Stash.Types.{
  Session, Page, empty_page, PagingOptions, Codecs, DeployKey, no_deploy_key,
}
use go_git_providers.Stash.Paging.{new_keys_uri, add_paging, all_pages, first_page}
use go_git_providers.Stash.Services.{
  not_found_guard, bad_request_guard, no_guard, on_values, json_header, marshalled, fetch, run,
}
use go_git_providers.Stash.Services.Repositories.{projects_uri, repositories_uri}

abbrev deploy_keys_uri : Str
deploy_keys_uri = codes "ssh"

abbrev key_permissions_uri : Str
key_permissions_uri = codes "permission"

abbrev pub set_session : Session → DeployKey → DeployKey
set_session session k = record k { session = session }

abbrev keys_path : Str → Str → List Str → Str
keys_path project_key repository_slug more =
    new_keys_uri
      (projects_uri ∷ project_key ∷ repositories_uri ∷ repository_slug ∷ deploy_keys_uri ∷ more)

module _ {W : Type 0} (c : RestClient W) (j : Codecs) where
  -- `(*DeployKeysService).List`
  unfoldable pub list : Str → Str → Option PagingOptions → Exec W (Page DeployKey)
  unfolding fetch on_values not_found_guard with_query add_paging new_keys_uri
  list project_key repository_slug opts =
      fetch c
        (record {
          creation = "list deploy keys for repository request creation failed: %w";
          call = "list deploy keys for repository requests failed: %w";
          decoding = "list deploy keys for repository failed, unable to unmarshall json: %w";
        })
        j.deploy_keys empty_page not_found_guard (on_values set_session) get_method
        (keys_path project_key repository_slug []) (with_query (add_paging [] opts) ∷ [])

  -- `(*DeployKeysService).All`
  unfoldable pub all : ℕ → Str → Str → Exec W (List DeployKey)
  unfolding all_pages list
  all fuel project_key repository_slug =
      all_pages (λ opts. list project_key repository_slug (some opts)) fuel first_page []

  -- `(*DeployKeysService).Get`
  unfoldable pub get : Str → Str → ℕ → Exec W DeployKey
  unfolding fetch not_found_guard new_keys_uri itoa
  get project_key repository_slug key_id =
      fetch c
        (record {
          creation = "get deploy key for repository  request creation failed: %w";
          call = "get deploy key for repository requests failed: %w";
          decoding =
              "get deploy key for repository failed, unable to unmarshall repository json: %w";
        })
        j.deploy_key no_deploy_key not_found_guard set_session get_method
        (keys_path project_key repository_slug (itoa key_id ∷ [])) []

  -- `(*DeployKeysService).Create`
  unfoldable pub create : DeployKey → Exec W DeployKey
  unfolding marshalled fetch bad_request_guard with_body with_header new_keys_uri
  create deploy_key = do
    body ← lift (marshalled (codes "failed to marshall deploykey: ") (j.of_deploy_key deploy_key))
    fetch c
        (record {
          creation = "create deploy key for repository  request creation failed: %w";
          call = "create deploy key for repository requests failed: %w";
          decoding =
              "create deploy key for repository failed, unable to unmarshall repository json: %w";
        })
        j.deploy_key no_deploy_key
        (bad_request_guard (codes "create deploy key for repository failed: ")) set_session
        post_method (keys_path deploy_key.repository.project.key deploy_key.repository.slug [])
        (with_body body ∷ with_header json_header ∷ [])

  -- `(*DeployKeysService).Delete`
  unfoldable pub delete : Str → Str → ℕ → Exec W Unit
  unfolding run new_keys_uri itoa
  delete project_key repository_slug key_id =
      run c
        (record {
          creation = "delete deploy key for repository  request creation failed: %w";
          call = "delete deploy key for repository requests failed: %w";
          decoding = "";
        })
        no_guard delete_method (keys_path project_key repository_slug (itoa key_id ∷ [])) []

  -- `(*DeployKeysService).UpdateKeyPermission`
  unfoldable pub update_key_permission : Str → Str → ℕ → Str → Exec W DeployKey
  unfolding fetch not_found_guard new_keys_uri itoa
  update_key_permission project_key repository_slug key_id permission =
      fetch c
        (record {
          creation = "update deploy key permission for repository request creation failed: %w";
          call = "update deploy key permission for repository requests failed: %w";
          decoding =
              "update deploy key for repository failed, unable to unmarshall repository json: %w";
        })
        j.deploy_key no_deploy_key not_found_guard set_session put_method
        (keys_path project_key repository_slug
          (itoa key_id ∷ key_permissions_uri ∷ permission ∷ []))
        []
