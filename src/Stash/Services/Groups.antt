-- ===== src/Stash/Services/Groups.antt =====
-- stash/groups.go: `GroupsService`.
use go_git_providers.Prelude.{
  ℕ, false, Option, some, List, [], ◌∷◌, ◌++◌, Str, codes, nat_eq, list_eq,
}
use go_git_providers.Exec.{Exec}
use go_git_providers.Stash.Http.{RestClient, with_query, get_method}
use go_git_providers.Stash.Types.{
  Session, no_session, Page, empty_page, PagingOptions, Codecs, User, Group,
}
use go_git_providers.Stash.Paging.{new_uri, add_paging, all_pages, first_page}
use go_git_providers.Stash.Services.{not_found_guard, on_values, fetch}
use go_git_providers.Stash.Services.Users

abbrev groups_uri : Str
groups_uri = codes "admin/groups"

abbrev group_members_uri : Str
group_members_uri = codes "admin/groups/more-members"

abbrev pub set_session : Session → Group → Group
set_session session g = record g { session = session }

module _ {W : Type 0} (c : RestClient W) (j : Codecs) where
  -- `(*GroupsService).List`
  unfoldable pub list : Option PagingOptions → Exec W (Page Group)
  unfolding fetch on_values not_found_guard with_query add_paging new_uri
  list opts =
      fetch c
        (record {
          creation = "list groups failed: , %w";
          call = "list groups failed: , %w";
          decoding = "list groups failed, unable to unmarshal repository list json: , %w";
        })
        j.groups empty_page not_found_guard (on_values set_session) get_method
        (new_uri (groups_uri ∷ [])) (with_query (add_paging [] opts) ∷ [])

  -- `(*GroupsService).Get`: one group is decoded from what the endpoint of the listing answers.
  unfoldable pub get : Str → Exec W Group
  unfolding fetch not_found_guard with_query new_uri
  get group_name =
      fetch c
        (record {
          creation = "list groups failed: , %w";
          call = "get group failed: , %w";
          decoding = "get group failed, unable to unmarshal repository list json: , %w";
        })
        j.group (record { session = no_session; name = group_name; deleteable = false })
        not_found_guard set_session get_method (new_uri (groups_uri ∷ []))
        (with_query ((codes "filter", group_name) ∷ []) ∷ [])

  unfoldable pub list_group_members : Str → Option PagingOptions → Exec W (Page User)
  unfolding fetch on_values not_found_guard with_query add_paging new_uri
  list_group_members group_name opts =
      fetch c
        (record {
          creation = "list groups request creation failed: , %w";
          call = "list group members failed: , %w";
          decoding = "list group members failed, unable to unmarshal repository list json: , %w";
        })
        j.users (record empty_page { about = group_name }) not_found_guard
        (on_values Users.set_session) get_method (new_uri (group_members_uri ∷ []))
        (with_query (add_paging [] opts ++ (codes "context", group_name) ∷ []) ∷ [])

  -- `(*GroupsService).AllGroupMembers`
  unfoldable pub all_group_members : ℕ → Str → Exec W (List User)
  unfolding all_pages list_group_members
  all_group_members fuel group_name =
      all_pages (λ opts. list_group_members group_name (some opts)) fuel first_page []
