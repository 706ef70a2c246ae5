-- ===== src/Stash/Organizations.antt =====
-- stash/client_organizations.go, stash/resource_organization.go, stash/client_organization_teams.go and
-- stash/resource_team.go: the projects of a server, and the groups of a project.
use go_git_providers.Prelude.{none, some, List, [], ◌∷◌, map, Str, nat_eq, list_eq}
use go_git_providers.Errors.{Errs, nil, cons, wrap, sentinel, no_provider_support}
use go_git_providers.Exec.{
  Result, ok, err, check, Exec, lift, fail, pure, Attempt, got, failed, attempt, ◌>>=◌, ◌>>◌,
}
use go_git_providers.Stash.Services.{on_error}
use go_git_providers.Gitprovider.Refs.{OrganizationRef, set_key}
use go_git_providers.Github.Organizations.{OrganizationInfo, TeamInfo}
use go_git_providers.Stash.Types.{Project, User, GroupPermission}
use go_git_providers.Stash.Services.Projects
use go_git_providers.Stash.Services.Groups
use go_git_providers.Stash.Context.{
  StashContext, validate_organization_ref, validate_project_api, validate_user_api,
  validate_project_group_permission_api, validate_each, collect,
}

pub record Organization : Type 0 where
  pub p : Project
  pub ref : OrganizationRef

pub record Team : Type 0 where
  pub users : List User
  pub info : TeamInfo
  pub ref : OrganizationRef

-- `organizationFromAPI`
unfoldable pub organization_from_api : Project → OrganizationInfo
organization_from_api api_obj = record {
  name = some api_obj.name;
  description = some api_obj.description;
}

-- `getGroupMemberSlugs`
unfoldable pub get_group_member_slugs : List User → List Str
get_group_member_slugs users = map (λ u. u.slug) users

-- One team more, or one error.
unfoldable pub add : Attempt Team → Errs × List Team → Str → Errs × List Team
add (got t) (errs, teams) name = (errs, t ∷ teams)
add (failed e) (errs, teams) name =
    (cons (wrap "failed to get team %s: %w" (name ∷ []) e) errs, teams)

-- How a listing of teams ends: the teams, or the collected errors.
unfoldable pub teams_of : Errs → List Team → Result (List Team)
unfolding collect
teams_of errs teams = elim (collect errs) [ none ↦ ok teams | some e ↦ err e ]

module _ {W : Type 0} (c : StashContext W) where
  -- `(*OrganizationsClient).Get`
  unfoldable pub get : OrganizationRef → Exec W Organization
  unfolding on_error Projects.get validate_organization_ref validate_project_api set_key
  get ref = do
    lift (check (validate_organization_ref c.parse ref c.host))
    api_obj ←
        on_error (wrap "failed to get organization %q: %w" (ref.organization ∷ []))
          (Projects.get c.client c.json ref.organization)
    lift (check (validate_project_api api_obj))
    pure (record { p = api_obj; ref = set_key api_obj.key ref })

  -- `(*OrganizationsClient).List`
  unfoldable pub list : Exec W (List Organization)
  unfolding on_error Projects.all validate_each validate_project_api set_key
  list = do
    api_objs ←
        on_error (wrap "failed to list organizations: %w" []) (Projects.all c.client c.json c.fuel)
    lift (check (validate_each validate_project_api api_objs))
    pure (
        map
          (λ p. record {
            p = p;
            ref = set_key p.key (record {
              domain = c.host;
              organization = p.name;
              key = [];
              sub_organizations = [];
            });
          })
          api_objs)

  -- `(*OrganizationsClient).Children`
  unfoldable pub children : OrganizationRef → Exec W (List Organization)
  children ref = fail (sentinel no_provider_support)

  -- `(*TeamsClient).Get`
  unfoldable pub get_team : OrganizationRef → Str → Exec W Team
  unfolding Groups.all_group_members validate_each validate_user_api get_group_member_slugs
  get_team ref team_name = do
    users ← Groups.all_group_members c.client c.json c.fuel team_name
    lift (check (validate_each validate_user_api users))
    pure (record {
      users = users;
      info = record { name = team_name; members = get_group_member_slugs users };
      ref = ref;
    })

  -- The loop of `(*TeamsClient).List`, which goes on behind an error.
  unfoldable pub get_teams : OrganizationRef → List GroupPermission → Exec W (Errs × List Team)
  unfolding get_team add
  get_teams ref [] = pure (nil, [])
  get_teams ref (g ∷ gs) = do
    a ← attempt (get_team ref g.group)
    rest ← get_teams ref gs
    pure (add a rest g.group)

  -- `(*TeamsClient).List`
  unfoldable pub list_teams : OrganizationRef → Exec W (List Team)
  unfolding on_error Projects.all_project_groups_permission validate_each
      validate_project_group_permission_api get_teams teams_of
  list_teams ref = do
    api_objs ←
        on_error (wrap "failed to list groups for project %s: %w" (ref.key ∷ []))
          (Projects.all_project_groups_permission c.client c.json c.fuel ref.key)
    lift (check (validate_each validate_project_group_permission_api api_objs))
    r ← get_teams ref api_objs
    lift (teams_of r.0 r.1)
