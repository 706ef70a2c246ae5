-- ===== src/Gitea/Organizations.antt =====
-- gitea/client_organizations.go, gitea/resource_organization.go and
-- gitea/client_organization_teams.go: organizations and their teams.
pub mod Members
use go_git_providers.Prelude.{
  Option, none, some, List, [], ◌∷◌, map, Str, codes, ◌==◌, nat_eq, list_eq, if◌then◌else◌,
}
use go_git_providers.Errors.{Err, sentinel, no_provider_support, not_found}
use go_git_providers.Exec.{Exec, lift, check, pure, fail, ◌>>=◌, ◌>>◌}
use go_git_providers.Gitprovider.Refs.{OrganizationRef}
use go_git_providers.Github.Checks.{validate_all}
use go_git_providers.Github.Client.{validated}
use go_git_providers.Github.Organizations.{OrganizationInfo, TeamInfo}
use go_git_providers.Gitea.Api.{Organization, Team, User, ClientContext}
use go_git_providers.Gitea.Util.{calling, all_pages, validate_api_object, validate_organization_ref}

-- `organizationFromAPI`: the pointers are never nil.
unfoldable pub organization_from_api : Organization → OrganizationInfo
organization_from_api o = record { name = some o.user_name; description = some o.description }

-- `validateOrganizationAPI` checks nothing.
unfoldable pub validate_organization_api : Organization → Option Err
unfolding validate_api_object
validate_organization_api o = validate_api_object (codes "Gitea.Organization") (λ v. v)

-- `organization`, with `newOrganization`; its client for teams has the same reference
pub record OrganizationObject : Type 0 where
  pub o : Organization
  pub ref : OrganizationRef

-- `team`
pub record TeamObject : Type 0 where
  pub users : List User
  pub info : TeamInfo
  pub ref : OrganizationRef

-- The object of an organization that was listed.
unfoldable pub listed_organization : Str → Organization → OrganizationObject
listed_organization domain o = record {
  o = o;
  ref = record { domain = domain; organization = o.user_name; key = []; sub_organizations = [] };
}

module _ {W : Type 0} (c : ClientContext W) where
  -- `getOrg`, `listOrgs`
  unfoldable pub get_org : Str → Exec W Organization
  unfolding calling validated validate_organization_api
  get_org org_name = do
    o ← calling c (c.api.get_org org_name)
    lift (validated validate_organization_api o)

  unfoldable pub list_orgs : Exec W (List Organization)
  unfolding all_pages validate_all validate_organization_api
  list_orgs = do
    os ← all_pages c c.api.list_my_orgs
    lift (validate_all validate_organization_api os)

  -- `(*OrganizationsClient).Get`
  unfoldable pub get : OrganizationRef → Exec W OrganizationObject
  unfolding get_org
  get ref = do
    lift (check (validate_organization_ref c.parse ref c.domain))
    o ← get_org ref.organization
    pure (record { o = o; ref = ref })

  -- `(*OrganizationsClient).List`
  unfoldable pub list : Exec W (List OrganizationObject)
  unfolding list_orgs listed_organization
  list = do os ← list_orgs; pure (map (listed_organization c.domain) os)

  -- `(*OrganizationsClient).Children`
  unfoldable pub children : OrganizationRef → Exec W (List OrganizationObject)
  children ref = fail (sentinel no_provider_support)

  -- `listOrgTeams`
  unfoldable pub list_org_teams : Str → Exec W (List Team)
  unfolding all_pages
  list_org_teams org_name = all_pages c (c.api.list_org_teams org_name)

  -- The loop of `listOrgTeamMembers`: each page is asked for with new options, whose page is not
  -- set, and not with those that `allPages` counts in.
  unfoldable pub members_of : Str → List Team → Exec W (List User)
  unfolding all_pages
  members_of team_name [] = fail (sentinel not_found)
  members_of team_name (t ∷ ts) =
      let rest : Exec W (List User) = λ w. members_of team_name ts w in
      if t.name == team_name then all_pages c (λ page. c.api.list_team_members t.id 0) else rest

  -- `listOrgTeamMembers`
  unfoldable pub list_org_team_members : Str → Str → Exec W (List User)
  unfolding list_org_teams members_of
  list_org_team_members org_name team_name = do
    ts ← list_org_teams org_name
    members_of team_name ts

  module _ (ref : OrganizationRef) where
    -- `(*TeamsClient).Get`
    unfoldable pub team_get : Str → Exec W TeamObject
    unfolding list_org_team_members
    team_get team_name = do
      users ← list_org_team_members ref.organization team_name
      pure (record {
        users = users;
        info = record { name = team_name; members = map (λ u. u.user_name) users };
        ref = ref;
      })

    -- The loop of `List`.
    unfoldable pub team_get_all : List Team → Exec W (List TeamObject)
    unfolding team_get
    team_get_all [] = pure []
    team_get_all (t ∷ ts) = do o ← team_get t.name; os ← team_get_all ts; pure (o ∷ os)

    -- `(*TeamsClient).List`
    unfoldable pub team_list : Exec W (List TeamObject)
    unfolding team_get_all list_org_teams
    team_list = do ts ← list_org_teams ref.organization; team_get_all ts
