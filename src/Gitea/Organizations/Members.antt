-- ===== src/Gitea/Organizations/Members.antt =====
-- The members of a team.
use go_git_providers.Prelude.{
  ==_refl, refl, ◌≡◌, false, none, List, [], ◌∷◌, is_empty, nat_eq, list_eq,
}
use go_git_providers.Exec.{ok, out_of_fuel}
use go_git_providers.Gitprovider.Refs.{OrganizationRef}
use go_git_providers.Gitea.Api.{Team, User, Page, ClientContext}
use go_git_providers.Gitea.Organizations.{team_get, list_org_teams}
use go_git_providers.Gitea.Util.{all_pages, is_last}
use go_git_providers.Gitea.Util.Pages.{pages_from-endless}

module _ {W : Type 0} (c : ClientContext W) (ref : OrganizationRef) where
  -- `Get` of a team that is listed first, whose members' first page has members and a link to
  -- another page: the same page is asked for again and again, whatever the fuel.
  pub team_get-endless :
      (t : Team) (ts : List Team) (w v : W) (r : Page User)
      → list_org_teams c ref.organization w ≡ (ok (t ∷ ts), v)
      → c.api.list_team_members t.id 0 v ≡ (ok r, v)
      → is_empty r.objects ≡ false
      → r.error ≡ none
      → is_last c r.response ≡ false
      → team_get c ref t.name w ≡ (out_of_fuel, v)
  unfolding team_get all_pages
  team_get-endless t ts w v r e m z f l = rw e (
      rw (==_refl t.name) (
        rw
          (pages_from-endless c (λ page. c.api.list_team_members t.id 0) c.fuel 1 [] v r (λ q. m) z
            f l)
          refl))
