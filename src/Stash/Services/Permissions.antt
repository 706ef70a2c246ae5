-- ===== src/Stash/Services/Permissions.antt =====
-- stash/repositories.go: `RepositoriesService`, who may do what with a repository. Of stash/projects.go
-- and stash/groups.go the sessions of permissions.
use go_git_providers.Prelude.{ℕ, Option, some, List, [], ◌∷◌, Str, codes, nat_eq, list_eq}
use go_git_providers.Errors.{sentinel, stash_not_found}
use go_git_providers.Exec.{Result, ok, err, Exec, lift, ◌>>=◌}
use go_git_providers.Stash.Http.{RestClient, with_query, get_method, put_method}
use go_git_providers.Stash.Types.{
  Session, Page, empty_page, PagingOptions, Codecs, GroupPermission, UserPermission,
}
use go_git_providers.Stash.Paging.{new_uri, add_paging, all_pages, first_page}
use go_git_providers.Stash.Services.{not_found_guard, both_guards, on_values, fetch, run}
use go_git_providers.Stash.Services.Repositories.{repositories_path}

abbrev pub group_permissions_uri : Str
group_permissions_uri = codes "permissions/groups"

abbrev pub user_permissions_uri : Str
user_permissions_uri = codes "permissions/users"

abbrev pub set_group_session : Session → GroupPermission → GroupPermission
set_group_session session p = record p { session = session }

abbrev pub set_user_session : Session → UserPermission → UserPermission
set_user_session session p = record p { session = session }

-- `if len(permissions.Groups) == 0 { return nil, ErrNotFound }; return permissions.Groups[0], nil`
unfoldable pub first_group : List GroupPermission → Result GroupPermission
first_group [] = err (sentinel stash_not_found)
first_group (p ∷ ps) = ok p

abbrev groups_path : Str → Str → Str
groups_path project_key repository_slug =
    repositories_path project_key (repository_slug ∷ group_permissions_uri ∷ [])

module _ {W : Type 0} (c : RestClient W) (j : Codecs) where
  unfoldable pub get_repository_group_permission : Str → Str → Str → Exec W GroupPermission
  unfolding fetch on_values not_found_guard with_query new_uri first_group
  get_repository_group_permission project_key repository_slug group_name = do
    permissions ←
        fetch c
          (record {
            creation = "get group permissions request creation failed: %w";
            call = "get group permissions to repository failed: %w";
            decoding =
                "get group permissions for repository failed, unable to unmarshall repository json: %w";
          })
          j.group_permissions empty_page not_found_guard (on_values set_group_session) get_method
          (groups_path project_key repository_slug)
          (with_query ((codes "filter", group_name) ∷ []) ∷ [])
    lift (first_group permissions.values)

  unfoldable pub list_repository_groups_permission :
      Str → Str → Option PagingOptions → Exec W (Page GroupPermission)
  unfolding fetch on_values not_found_guard with_query add_paging new_uri
  list_repository_groups_permission project_key repository_slug opts =
      fetch c
        (record {
          creation = "list group permissions request creation failed: %w";
          call = "list group permissions to repository failed: %w";
          decoding =
              "list groups permissions for repository failed, unable to unmarshall repository json: %w";
        })
        j.group_permissions empty_page not_found_guard (on_values set_group_session) get_method
        (groups_path project_key repository_slug) (with_query (add_paging [] opts) ∷ [])

  unfoldable pub all_repository_groups_permission : ℕ → Str → Str → Exec W (List GroupPermission)
  unfolding all_pages list_repository_groups_permission
  all_repository_groups_permission fuel project_key repository_slug =
      all_pages (λ opts. list_repository_groups_permission project_key repository_slug (some opts))
        fuel first_page []

  unfoldable pub update_repository_group_permission : Str → Str → GroupPermission → Exec W Unit
  unfolding run both_guards with_query new_uri
  update_repository_group_permission project_key repository_slug permission =
      run c
        (record {
          creation = "add group permissions request creation failed: %w";
          call = "add group permissions to repository failed: %w";
          decoding = "";
        })
        (both_guards (codes "add group permissions to repository failed: ")) put_method
        (groups_path project_key repository_slug)
        (with_query
            ((codes "name", permission.group) ∷ (codes "permission", permission.permission) ∷ [])
          ∷ [])

  unfoldable pub list_repository_users_permission :
      Str → Str → Option PagingOptions → Exec W (Page UserPermission)
  unfolding fetch on_values not_found_guard with_query add_paging new_uri
  list_repository_users_permission project_key repository_slug opts =
      fetch c
        (record {
          creation = "list users permissions request creation failed: %w";
          call = "list users permissions to repository failed: %w";
          decoding = "list users permissions for repository failed, unable to unmarshall json: %w";
        })
        j.user_permissions empty_page not_found_guard (on_values set_user_session) get_method
        (repositories_path project_key (repository_slug ∷ user_permissions_uri ∷ []))
        (with_query (add_paging [] opts) ∷ [])
