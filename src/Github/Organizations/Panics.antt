-- ===== src/Github/Organizations/Panics.antt =====
-- The listings dereference pointers that the checks of server data have found to be there.
use go_git_providers.Prelude.{
  ℕ, ◌≡◌, ◌≢◌, refl, Option, none, some, List, [], ◌∷◌, Str, All, arith, nat_eq,
}
use go_git_providers.Exec.{panic, lift}
use go_git_providers.Gitprovider.Refs.{OrganizationRef}
use go_git_providers.Github.Api.{Organization, Team, User}
use go_git_providers.Github.Checks.{has_login, has_slug, validate_organization_api}
use go_git_providers.Github.Client.{list_orgs, list_org_teams, list_org_team_members}
use go_git_providers.Github.Context.{ClientContext}
use go_git_providers.Github.Organizations.{
  organizations, logins, list, team_get, team_get_all, team_list,
}
use go_git_providers.Github.Client.Panics.{
  NeverPanics, bind-NeverPanics, list-valid, list-NeverPanics, expect_set-some, and_then-ne-panic,
}

logins-ne-panic : (us : List User) → All (λ u. has_login u ≡ none) us → logins us ≢ panic
unfolding logins
logins-ne-panic [] h = λ q. cc
logins-ne-panic (u ∷ us) h =
    let (l, e) = expect_set-some "didn't expect login to be nil for user: %+v: %w" u.login h.0 in
    rw e (and_then-ne-panic (logins us) _ (logins-ne-panic us h.1) (λ ls q. cc))

organization_login :
    (o : Organization) → validate_organization_api o ≡ none → (l : Str) × (o.login ≡ some l)
unfolding validate_organization_api
organization_login o h = go o.login refl
  where
    go : (l : Option Str) → o.login ≡ l → (s : Str) × (o.login ≡ some s)
    go none e = absurd (ground (arith, h, e))
    go (some s) e = (s, e)

organizations-ne-panic :
    (domain : Str) (os : List Organization)
    → All (λ o. validate_organization_api o ≡ none) os
    → organizations domain os ≢ panic
unfolding organizations
organizations-ne-panic domain [] h = λ q. cc
organizations-ne-panic domain (o ∷ os) h =
    let (l, e) = organization_login o h.0 in
    rw e (
      and_then-ne-panic (organizations domain os) _ (organizations-ne-panic domain os h.1)
        (λ r q. cc))

module _ {W : Type 0} (c : ClientContext W) where
  -- If go-github never panics on listing organizations, neither does `List`, which dereferences
  -- the login of each.
  pub organization_list-ne-panic :
      ((p : ℕ) → NeverPanics (c.api.organizations_list p)) → (w : W) → (list c w).0 ≢ panic
  unfolding list list_orgs
  organization_list-ne-panic h =
      bind-NeverPanics (list_orgs c) (λ os. lift (organizations c.domain os))
        (list-NeverPanics c validate_organization_api c.api.organizations_list h)
        (λ os w e v.
          organizations-ne-panic c.domain os
            (list-valid c validate_organization_api c.api.organizations_list w os e))

  module _ (ref : OrganizationRef)
      (members : (t : Str) (p : ℕ)
        → NeverPanics (c.api.teams_list_team_members_by_slug ref.organization t p)) where
    team_get-NeverPanics : (name : Str) → NeverPanics (team_get c ref name)
    unfolding team_get list_org_team_members
    team_get-NeverPanics name =
        let pages = c.api.teams_list_team_members_by_slug ref.organization name in
        bind-NeverPanics (list_org_team_members c ref.organization name) _
          (list-NeverPanics c has_login pages (members name))
          (λ us w e.
            bind-NeverPanics (lift (logins us)) _
              (λ v. logins-ne-panic us (list-valid c has_login pages w us e)) (λ ls v f x q. cc))

    team_get_all-NeverPanics :
        (ts : List Team) → All (λ t. has_slug t ≡ none) ts → NeverPanics (team_get_all c ref ts)
    unfolding team_get_all
    team_get_all-NeverPanics [] h = λ w q. cc
    team_get_all-NeverPanics (t ∷ ts) h =
        let (s, e) = expect_set-some "didn't expect slug to be nil for team: %+v: %w" t.slug h.0 in
        rw e (
          bind-NeverPanics (team_get c ref s) _ (team_get-NeverPanics s) (λ o w f.
            bind-NeverPanics (team_get_all c ref ts) _ (team_get_all-NeverPanics ts h.1)
              (λ os v g x q. cc)))

    -- If go-github never panics on listing the teams of an organization and their members, neither
    -- does `List` of the teams, which dereferences the slug of each team and the login of each member.
    pub team_list-ne-panic :
        ((p : ℕ) → NeverPanics (c.api.teams_list_teams ref.organization p))
        → (w : W) → (team_list c ref w).0 ≢ panic
    unfolding team_list list_org_teams
    team_list-ne-panic h =
        let pages = c.api.teams_list_teams ref.organization in
        bind-NeverPanics (list_org_teams c ref.organization) _ (list-NeverPanics c has_slug pages h)
          (λ ts w e. team_get_all-NeverPanics ts (list-valid c has_slug pages w ts e))
