-- ===== src/Gitlab/Client/Listings.antt =====
-- What the listings of `gitlabClientImpl` return, against the pages that the server has.
use go_git_providers.Prelude.{
  ◌⊎◌, arith, ℕ, ◌≤◌, ◌≡◌, refl, sym, ap, ◌∙◌, true, false, Bool-cases, inl, inr, none, List, [],
  ◌∷◌, ◌++◌, Str,
}
use go_git_providers.Errors.{Err, is_error, not_found}
use go_git_providers.Exec.{ok, err}
use go_git_providers.Github.Api.{Listing}
use go_git_providers.Github.Checks.{first_error, validate_all}
use go_git_providers.Github.Util.Pages.{HasPages, last, more, FailsWith}
use go_git_providers.Gitlab.Api.{DeployToken}
use go_git_providers.Gitlab.Client.{
  keep_active, is_active, active_tokens, list_tokens, list_groups, list_group_projects,
  validate_deploy_token_api,
}
use go_git_providers.Gitlab.Context.{ClientContext}
use go_git_providers.Gitlab.Util.{all_other_pages, all_group_pages, handle_http_error, as_is}
use go_git_providers.Gitlab.Util.HttpErrors.{IsMissing, missing-handled}
use go_git_providers.Gitlab.Util.Pages.{gitlab_pages-HasPages, gitlab_pages-FailsWith}

keep_active-append :
    (ts us : List DeployToken) → keep_active (ts ++ us) ≡ keep_active ts ++ keep_active us
unfolding keep_active
keep_active-append [] us = refl
keep_active-append (t ∷ ts) us = elim (Bool-cases (is_active t)) [
  | inl y ↦ rw y (rw (keep_active-append ts us))
  | inr n ↦ rw n (keep_active-append ts us)
]

-- The listing of the active tokens has the same pages, each without the other tokens.
active_tokens-HasPages :
    {W : Type 0} (list : Listing W DeployToken) {n p : ℕ} {w v : W} {ts : List DeployToken}
    → HasPages list n p w ts v
    → HasPages (active_tokens list) n p w (keep_active ts) v
unfolding active_tokens
active_tokens-HasPages list (last page e z k) =
    last (keep_active page.0, page.1) (rw e) z (ap keep_active k)
active_tokens-HasPages list (more {rest = rest} page e z r k) =
    more (keep_active page.0, page.1) (rw e) z (active_tokens-HasPages list r)
      (sym (keep_active-append page.0 rest) ∙ ap keep_active k)

-- The second list is the first without the tokens that are expired or revoked.
pub data Active : List DeployToken → List DeployToken → Type 0 where
  none_left : Active [] []
  kept :
      {ts us : List DeployToken} (t : DeployToken)
      → t.expired ≡ false
      → t.revoked ≡ false
      → Active ts us
      → Active (t ∷ ts) (t ∷ us)
  dropped :
      {ts us : List DeployToken} (t : DeployToken)
      → (t.expired ≡ true) ⊎ (t.revoked ≡ true)
      → Active ts us
      → Active (t ∷ ts) us

expired-inactive : (t : DeployToken) → (t.expired ≡ true) ⊎ (t.revoked ≡ true) → is_active t ≡ false
unfolding is_active
expired-inactive t (inl h) = ground arith
expired-inactive t (inr h) = ground arith

current-active : (t : DeployToken) → t.expired ≡ false → t.revoked ≡ false → is_active t ≡ true
unfolding is_active
current-active t h k = ground arith

keep_active-Active : {ts us : List DeployToken} → Active ts us → keep_active ts ≡ us
unfolding keep_active
keep_active-Active none_left = refl
keep_active-Active (kept t h k r) =
    rw (current-active t h k) (ap (λ us. t ∷ us) (keep_active-Active r))
keep_active-Active (dropped t h r) = rw (expired-inactive t h) (keep_active-Active r)

module _ {W : Type 0} (c : ClientContext W) where
  -- `ListTokens` returns exactly the tokens of all pages that are neither expired nor revoked, in
  -- the server's order, where the fuel lasts for the pages and those tokens are valid.
  pub list_tokens-HasPages :
      (name : Str) {n : ℕ} {w v : W} {ts us : List DeployToken}
      → HasPages (c.api.deploy_tokens_list name) n 0 w ts v
      → n ≤ c.fuel
      → Active ts us
      → first_error validate_deploy_token_api us ≡ none
      → list_tokens c name w ≡ (ok us, v)
  unfolding list_tokens all_other_pages validate_all
  list_tokens-HasPages name {v = v} {ts = ts} {us = us} h k r valid =
      let tokens = c.api.deploy_tokens_list name in
      let p =
        gitlab_pages-HasPages as_is (active_tokens tokens) c.fuel []
          (active_tokens-HasPages tokens h) k in
      rw p (rw (keep_active-Active r) (rw valid refl))

  -- Where the call for a page fails because the page is missing, with `gitlab.ErrNotFound` or with a
  -- response 404, `ListGroups` fails with an error that answers to `ErrNotFound`, and
  -- `ListGroupProjects` with the error as it came, which does not answer to it.
  pub list_group_projects-FailsWith :
      (name : Str) {n m : ℕ} {w v u : W} (e : Err)
      → IsMissing e
      → FailsWith (c.api.groups_list) n 0 w e v
      → n ≤ c.fuel
      → FailsWith (c.api.groups_list_projects name) m 0 w e u
      → m ≤ c.fuel
      → (e' : Err) × (list_groups c w ≡ (err e', v))
        × (is_error e' not_found ≡ true)
        × (list_group_projects c name w ≡ (err e, u))
        × (is_error e not_found ≡ false)
  unfolding list_groups list_group_projects all_other_pages all_group_pages
  list_group_projects-FailsWith name e s f h g k =
      let p = gitlab_pages-FailsWith handle_http_error c.api.groups_list c.fuel [] f h in
      let q = gitlab_pages-FailsWith as_is (c.api.groups_list_projects name) c.fuel [] g k in
      let (x, y) = missing-handled s in (handle_http_error e, rw p, x, rw q, y)
