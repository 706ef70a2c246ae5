-- ===== src/Gitlab/Organizations.antt =====
-- gitlab/client_organizations.go, gitlab/resource_organization.go and
-- gitlab/client_organization_teams.go: groups and their teams.
use go_git_providers.Prelude.{some, List, [], ◌∷◌, map, Str}
use go_git_providers.Exec.{Exec, pure, ◌>>=◌}
use go_git_providers.Gitprovider.Refs.{OrganizationRef}
use go_git_providers.Github.Organizations.{OrganizationInfo, TeamInfo}
use go_git_providers.Gitlab.Api.{Group, GroupMember, by_path}
use go_git_providers.Gitlab.Client.{get_group, list_groups, list_subgroups, list_group_members}
use go_git_providers.Gitlab.Context.{ClientContext}

-- `organizationFromAPI`: the pointers are never nil.
unfoldable pub organization_from_api : Group → OrganizationInfo
organization_from_api g = record { name = some g.name; description = some g.description }

-- `organization`, with `newOrganization`; its client for teams has the same reference
pub record OrganizationObject : Type 0 where
  pub g : Group
  pub ref : OrganizationRef

-- `team`
pub record TeamObject : Type 0 where
  pub users : List GroupMember
  pub info : TeamInfo
  pub ref : OrganizationRef

-- The object of a group that was listed.
unfoldable pub listed_group : Group → OrganizationObject
listed_group g = record {
  g = g;
  ref = record { domain = g.web_url; organization = g.full_name; key = []; sub_organizations = [] };
}

module _ {W : Type 0} (c : ClientContext W) where
  -- `(*OrganizationsClient).Get`: the reference is not validated.
  unfoldable pub get : OrganizationRef → Exec W OrganizationObject
  get ref = do g ← get_group c (by_path ref.organization); pure (record { g = g; ref = ref })

  -- `(*OrganizationsClient).List`
  unfoldable pub list : Exec W (List OrganizationObject)
  unfolding listed_group
  list = do gs ← list_groups c; pure (map listed_group gs)

  -- `(*OrganizationsClient).Children`
  unfoldable pub children : OrganizationRef → Exec W (List OrganizationObject)
  unfolding listed_group
  children ref = do gs ← list_subgroups c ref.organization; pure (map listed_group gs)

  module _ (ref : OrganizationRef) where
    -- `(*TeamsClient).Get`: the members are those of the client's group.
    unfoldable pub team_get : Str → Exec W TeamObject
    team_get team_name = do
      users ← list_group_members c ref.organization
      pure (record {
        users = users;
        info = record { name = team_name; members = map (λ u. u.username) users };
        ref = ref;
      })

    -- The loop of `List`.
    unfoldable pub team_get_all : List Group → Exec W (List TeamObject)
    unfolding team_get
    team_get_all [] = pure []
    team_get_all (g ∷ gs) = do t ← team_get g.name; ts ← team_get_all gs; pure (t ∷ ts)

    -- `(*TeamsClient).List`
    unfoldable pub team_list : Exec W (List TeamObject)
    unfolding team_get_all
    team_list = do gs ← list_subgroups c ref.organization; team_get_all gs
