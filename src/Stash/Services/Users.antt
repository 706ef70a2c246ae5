-- ===== src/Stash/Services/Users.antt =====
-- stash/users.go: `UsersService`.
use go_git_providers.Prelude.{Option, [], ◌∷◌, Str, codes, nat_eq, list_eq}
use go_git_providers.Exec.{Exec}
use go_git_providers.Stash.Http.{RestClient, with_query, get_method}
use go_git_providers.Stash.Types.{Session, Page, empty_page, PagingOptions, Codecs, User, no_user}
use go_git_providers.Stash.Paging.{new_uri, add_paging}
use go_git_providers.Stash.Services.{not_found_guard, on_values, fetch}

abbrev users_uri : Str
users_uri = codes "users"

abbrev pub set_session : Session → User → User
set_session session u = record u { session = session }

module _ {W : Type 0} (c : RestClient W) (j : Codecs) where
  -- `(*UsersService).List`
  unfoldable pub list : Option PagingOptions → Exec W (Page User)
  unfolding fetch on_values not_found_guard with_query add_paging new_uri
  list opts =
      fetch c
        (record {
          creation = "list users request creation failed, %w";
          call = "list users failed, %w";
          decoding = "list users failed, unable to unmarshal repository list json, %w";
        })
        j.users empty_page not_found_guard (on_values set_session) get_method
        (new_uri (users_uri ∷ [])) (with_query (add_paging [] opts) ∷ [])

  -- `(*UsersService).Get`
  unfoldable pub get : Str → Exec W User
  unfolding fetch not_found_guard new_uri
  get user_slug =
      fetch c
        (record {
          creation = "get user request creation failed, %w";
          call = "get user failed, %w";
          decoding = "get user failed, unable to unmarshal repository list json, %w";
        })
        j.user no_user not_found_guard set_session get_method (new_uri (users_uri ∷ user_slug ∷ []))
        []
