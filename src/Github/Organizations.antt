-- ===== src/Github/Organizations.antt =====
-- github/client_organizations.go, github/resource_organization.go and
-- github/client_organization_teams.go: organizations and their teams.
pub mod Panics
use go_git_providers.Prelude.{Option, none, some, List, [], ◌∷◌, Str}
use go_git_providers.Errors.{sentinel, no_provider_support}
use go_git_providers.Exec.{Result, ok, check, deref, and_then, Exec, lift, fail, pure, ◌>>=◌, ◌>>◌}
use go_git_providers.Gitprovider.Refs.{OrganizationRef}
use go_git_providers.Github.Api.{Organization, Team, User}
use go_git_providers.Github.Client.{get_org, list_orgs, list_org_teams, list_org_team_members}
use go_git_providers.Github.Context.{ClientContext}
use go_git_providers.Github.Util.{validate_organization_ref}

pub record OrganizationInfo : Type 0 where
  pub name : Option Str
  pub description : Option Str

pub record TeamInfo : Type 0 where
  pub name : Str
  pub members : List Str

-- `organizationFromAPI`
unfoldable pub organization_from_api : Organization → OrganizationInfo
organization_from_api o = record { name = o.name; description = o.description }

-- `organization`, with `newOrganization`; its client for teams has the same reference
pub record OrganizationObject : Type 0 where
  pub o : Organization
  pub ref : OrganizationRef

-- `team`
pub record TeamObject : Type 0 where
  pub users : List User
  pub info : TeamInfo
  pub ref : OrganizationRef

-- The loop of `List`; the login is dereferenced.
unfoldable pub organizations : Str → List Organization → Result (List OrganizationObject)
organizations domain [] = ok []
organizations domain (o ∷ os) = and_then (deref o.login) λ login.
    and_then (organizations domain os) λ rest. ok (
      record {
        o = o;
        ref = record { domain = domain; organization = login; key = []; sub_organizations = [] };
      }
      ∷ rest)

-- The loop over the members of a team.
unfoldable pub logins : List User → Result (List Str)
logins [] = ok []
logins (u ∷ us) = and_then (deref u.login) λ l. and_then (logins us) (λ ls. ok (l ∷ ls))

module _ {W : Type 0} (c : ClientContext W) where
  -- `(*OrganizationsClient).Get`
  unfoldable pub get : OrganizationRef → Exec W OrganizationObject
  get ref = do
    lift (check (validate_organization_ref c.parse ref c.domain))
    api_obj ← get_org c ref.organization
    pure (record { o = api_obj; ref = ref })

  -- `(*OrganizationsClient).List`
  unfoldable pub list : Exec W (List OrganizationObject)
  unfolding organizations
  list = do api_objs ← list_orgs c; lift (organizations c.domain api_objs)

  -- `(*OrganizationsClient).Children`
  unfoldable pub children : OrganizationRef → Exec W (List OrganizationObject)
  children ref = fail (sentinel no_provider_support)

  module _ (ref : OrganizationRef) where
    -- `(*TeamsClient).Get`
    unfoldable pub team_get : Str → Exec W TeamObject
    unfolding logins
    team_get team_name = do
      api_objs ← list_org_team_members c ref.organization team_name
      members ← lift (logins api_objs)
      pure (record {
        users = api_objs;
        info = record { name = team_name; members = members };
        ref = ref;
      })

    -- The loop of `List`; the slug is dereferenced.
    unfoldable pub team_get_all : List Team → Exec W (List TeamObject)
    unfolding team_get
    team_get_all [] = pure []
    team_get_all (t ∷ ts) = do
      slug ← lift (deref t.slug)
      o ← team_get slug
      os ← team_get_all ts
      pure (o ∷ os)

    -- `(*TeamsClient).List`
    unfoldable pub team_list : Exec W (List TeamObject)
    unfolding team_get_all
    team_list = do api_objs ← list_org_teams c ref.organization; team_get_all api_objs
