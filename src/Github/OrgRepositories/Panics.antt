-- ===== src/Github/OrgRepositories/Panics.antt =====
-- Listing repositories dereferences names that the checks of server data have found to be there.
use go_git_providers.Prelude.{ℕ, ◌≡◌, ◌≢◌, refl, Option, none, some, List, [], ◌∷◌, Str, All}
use go_git_providers.Errors.{Err}
use go_git_providers.Exec.{panic, check, lift}
use go_git_providers.Gitprovider.Refs.{OrganizationRef, UserRef}
use go_git_providers.Github.Api.{Repository}
use go_git_providers.Github.Checks.{validate_repository_api}
use go_git_providers.Github.Checks.Laws.{IsPresent, validate_repository_api_iff}
use go_git_providers.Github.Client.{list_org_repos, list_user_repos}
use go_git_providers.Github.Client.Panics.{
  NeverPanics, bind-NeverPanics, list-valid, list-NeverPanics, and_then-ne-panic,
}
use go_git_providers.Github.Context.{ClientContext}
use go_git_providers.Github.Repository.{Ref}
use go_git_providers.Github.OrgRepositories.{objects, org_list, user_list}
use go_git_providers.Github.Util.{validate_organization_ref, validate_user_ref}

present : {A : Type 0} (o : Option A) → IsPresent o → (a : A) × (o ≡ some a)
present none h = absurd h
present (some a) h = (a, refl)

objects-ne-panic :
    (ref_of : Str → Ref) (rs : List Repository)
    → All (λ r. validate_repository_api r ≡ none) rs
    → objects ref_of rs ≢ panic
unfolding objects
objects-ne-panic ref_of [] h = λ q. cc
objects-ne-panic ref_of (r ∷ rs) h =
    let (n, e) = present r.name ((validate_repository_api_iff r).0 h.0).0 in
    rw e (and_then-ne-panic (objects ref_of rs) _ (objects-ne-panic ref_of rs h.1) (λ us q. cc))

check-NeverPanics : {W : Type 0} (e : Option Err) → NeverPanics {W = W} (lift (check e))
check-NeverPanics none w = λ q. cc
check-NeverPanics (some e) w = λ q. cc

module _ {W : Type 0} (c : ClientContext W) where
  -- If go-github never panics on listing the repositories of an organization, neither does `List`,
  -- which dereferences the name of each.
  pub org_list-ne-panic :
      (ref : OrganizationRef)
      → ((p : ℕ) → NeverPanics (c.api.repositories_list_by_org ref.organization p))
      → (w : W) → (org_list c ref w).0 ≢ panic
  unfolding org_list list_org_repos
  org_list-ne-panic ref h =
      let pages = c.api.repositories_list_by_org ref.organization in
      bind-NeverPanics (lift (check (validate_organization_ref c.parse ref c.domain))) _
        (check-NeverPanics (validate_organization_ref c.parse ref c.domain))
        (λ t w e.
          bind-NeverPanics (list_org_repos c ref.organization) _
            (list-NeverPanics c validate_repository_api pages h)
            (λ rs v f x. objects-ne-panic _ rs (list-valid c validate_repository_api pages v rs f)))

  -- If go-github never panics on listing the repositories of a user, neither does `List`.
  pub user_list-ne-panic :
      (ref : UserRef)
      → ((p : ℕ) → NeverPanics (c.api.repositories_list ref.user_login p))
      → (w : W) → (user_list c ref w).0 ≢ panic
  unfolding user_list list_user_repos
  user_list-ne-panic ref h =
      let pages = c.api.repositories_list ref.user_login in
      bind-NeverPanics (lift (check (validate_user_ref c.parse ref c.domain))) _
        (check-NeverPanics (validate_user_ref c.parse ref c.domain))
        (λ t w e.
          bind-NeverPanics (list_user_repos c ref.user_login) _
            (list-NeverPanics c validate_repository_api pages h)
            (λ rs v f x. objects-ne-panic _ rs (list-valid c validate_repository_api pages v rs f)))
