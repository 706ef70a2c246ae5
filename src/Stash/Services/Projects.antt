-- ===== src/Stash/Services/Projects.antt =====
-- stash/projects.go: `ProjectsService`.
use go_git_providers.Prelude.{
  ℕ, Option, some, List, [], ◌∷◌, Str, codes, ◌==◌, nat_eq, list_eq, if◌then◌else◌,
}
use go_git_providers.Errors.{sentinel, stash_not_found}
use go_git_providers.Exec.{Result, ok, err, Exec, lift, ◌>>=◌}
use go_git_providers.Stash.Http.{RestClient, with_query, get_method}
use go_git_providers.Stash.Types.{
  Session, Page, empty_page, PagingOptions, Codecs, GroupPermission, UserPermission, Project,
}
use go_git_providers.Stash.Paging.{new_uri, add_paging, all_pages, first_page}
use go_git_providers.Stash.Services.{not_found_guard, both_guards, on_values, fetch}
use go_git_providers.Stash.Services.Repositories.{projects_uri}
use go_git_providers.Stash.Services.Permissions.{
  group_permissions_uri, user_permissions_uri, set_group_session, set_user_session, first_group,
}

abbrev pub set_session : Session → Project → Project
set_session session p = record p { session = session }

-- The loop that looks for the project, and what is returned if there is none.
unfoldable pub find_project : Str → List Project → Result Project
find_project project_name [] = err (sentinel stash_not_found)
find_project project_name (p ∷ ps) =
    let rest = find_project project_name ps in if p.name == project_name then ok p else rest

module _ {W : Type 0} (c : RestClient W) (j : Codecs) where
  -- `(*ProjectsService).List`
  unfoldable pub list : Option PagingOptions → Exec W (Page Project)
  unfolding fetch on_values both_guards with_query add_paging new_uri
  list opts =
      fetch c
        (record {
          creation = "get projects request creation failed: %w";
          call = "list projects failed: %w";
          decoding = "list projects failed, unable to unmarshal repository list json: %w";
        })
        j.projects empty_page (both_guards (codes "list projects failed: ")) (on_values set_session)
        get_method (new_uri (projects_uri ∷ [])) (with_query (add_paging [] opts) ∷ [])

  -- `(*ProjectsService).All`
  unfoldable pub all : ℕ → Exec W (List Project)
  unfolding all_pages list
  all fuel = all_pages (λ opts. list (some opts)) fuel first_page []

  -- `(*ProjectsService).Get`
  unfoldable pub get : Str → Exec W Project
  unfolding fetch on_values not_found_guard with_query new_uri find_project
  get project_name = do
    p ←
        fetch c
          (record {
            creation = "get project request creation failed: %w";
            call = "get project failed: %w";
            decoding = "get project failed, unable to unmarshal repository list json: %w";
          })
          j.projects empty_page not_found_guard (on_values set_session) get_method
          (new_uri (projects_uri ∷ [])) (with_query ((codes "name", project_name) ∷ []) ∷ [])
    lift (find_project project_name p.values)

  unfoldable pub get_project_group_permission : Str → Str → Exec W GroupPermission
  unfolding fetch on_values not_found_guard with_query new_uri first_group
  get_project_group_permission project_key group_name = do
    permissions ←
        fetch c
          (record {
            creation = "get group permissions request creation failed: %w";
            call = "get group permissions to project failed: %w";
            decoding =
                "get group permissions for project failed, unable to unmarshall project group json: %w";
          })
          j.group_permissions empty_page not_found_guard (on_values set_group_session) get_method
          (new_uri (projects_uri ∷ project_key ∷ group_permissions_uri ∷ []))
          (with_query ((codes "filter", group_name) ∷ []) ∷ [])
    lift (first_group permissions.values)

  unfoldable pub list_project_groups_permission :
      Str → Option PagingOptions → Exec W (Page GroupPermission)
  unfolding fetch on_values not_found_guard with_query add_paging new_uri
  list_project_groups_permission project_key opts =
      fetch c
        (record {
          creation = "get project groups permission request creation failed: %w";
          call = "list project groups permission failed: %w";
          decoding =
              "list project groups permission failed, unable to unmarshal project groups json: %w";
        })
        j.group_permissions (record empty_page { about = project_key }) not_found_guard
        (on_values set_group_session) get_method
        (new_uri (projects_uri ∷ project_key ∷ group_permissions_uri ∷ []))
        (with_query (add_paging [] opts) ∷ [])

  -- `(*ProjectsService).AllGroupsPermission`
  unfoldable pub all_project_groups_permission : ℕ → Str → Exec W (List GroupPermission)
  unfolding all_pages list_project_groups_permission
  all_project_groups_permission fuel project_key =
      all_pages (λ opts. list_project_groups_permission project_key (some opts)) fuel first_page []

  unfoldable pub list_project_users_permission :
      Str → Option PagingOptions → Exec W (Page UserPermission)
  unfolding fetch on_values not_found_guard with_query add_paging new_uri
  list_project_users_permission project_key opts =
      fetch c
        (record {
          creation = "get project users permission request creation failed: %w";
          call = "list project users permission failed: %w";
          decoding =
              "list project users permission failed, unable to unmarshal repository list json: %w";
        })
        j.user_permissions (record empty_page { about = project_key }) not_found_guard
        (on_values set_user_session) get_method
        (new_uri (projects_uri ∷ project_key ∷ user_permissions_uri ∷ []))
        (with_query (add_paging [] opts) ∷ [])
