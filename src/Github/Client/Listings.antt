-- ===== src/Github/Client/Listings.antt =====
-- `githubClientImpl`: listings and the guarded deletion.
use go_git_providers.Prelude.{ℕ, ◌≤◌, ◌≡◌, refl, true, false, Option, none, List, [], ◌∷◌, Str, All}
use go_git_providers.Errors.{
  Err, sentinel, wrap, is_error, destructive_call_disallowed, errors_is, same,
}
use go_git_providers.Exec.{ok, err}
use go_git_providers.Github.Api.{Repository}
use go_git_providers.Github.Checks.{validate_repository_api, validate_all, first_error}
use go_git_providers.Github.Context.{ClientContext}
use go_git_providers.Github.Client.{delete_repo, list, list_org_repos}
use go_git_providers.Github.Util.Pages.{HasPages, all_pages-HasPages}

first_error-valid :
    {A : Type 0} (valid : A → Option Err) (xs : List A)
    → All (λ a. valid a ≡ none) xs
    → first_error valid xs ≡ none
unfolding first_error
first_error-valid valid [] h = refl
first_error-valid valid (x ∷ xs) h = rw (h.0) (first_error-valid valid xs h.1)

validate_all-valid :
    {A : Type 0} (valid : A → Option Err) (xs : List A)
    → All (λ a. valid a ≡ none) xs
    → validate_all valid xs ≡ ok xs
unfolding validate_all
validate_all-valid valid xs h = rw (first_error-valid valid xs h)

module _ {W : Type 0} (c : ClientContext W) where
  -- A client that was not allowed destructive calls refuses to delete a repository with
  -- `ErrDestructiveCallDisallowed` and sends nothing.
  pub delete_repo-disallowed :
      (owner repo : Str) (w : W)
      → c.destructive_actions ≡ false
      → (e : Err) × (delete_repo c owner repo w ≡ (err e, w))
        × (is_error e destructive_call_disallowed ≡ true)
  unfolding delete_repo errors_is same
  delete_repo-disallowed owner repo w h = (
    wrap "cannot delete repository: %w" [] (sentinel destructive_call_disallowed),
    rw h refl,
    refl,
  )

  -- Listing the repositories of an organization returns those of all pages, in order, where each is
  -- valid and the fuel is enough for the pages.
  pub list_org_repos-HasPages :
      (org : Str) (n : ℕ) (w v : W) (rs : List Repository)
      → HasPages (c.api.repositories_list_by_org org) n 0 w rs v
      → n ≤ c.fuel
      → All (λ r. validate_repository_api r ≡ none) rs
      → list_org_repos c org w ≡ (ok rs, v)
  unfolding list_org_repos list
  list_org_repos-HasPages org n w v rs h k valid =
      rw (all_pages-HasPages (c.api.repositories_list_by_org org) c.fuel [] h k)
        (rw (validate_all-valid validate_repository_api rs valid))
