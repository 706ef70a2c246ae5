-- ===== src/Gitea/DeployKey/Quiet.antt =====
-- A listing of keys that fails.
use go_git_providers.Prelude.{◌≤◌, ◌≡◌, refl, some, []}
use go_git_providers.Errors.{Err, errors_is, same}
use go_git_providers.Exec.{ok, attempt, pure, ◌>>=◌}
use go_git_providers.Gitprovider.Info.{DeployKeyInfo, deploy_key_info, validate_and_default_info}
use go_git_providers.Github.Checks.{validate_all, first_error}
use go_git_providers.Github.Repository.{Ref, identity, repository}
use go_git_providers.Gitea.Api.{DeployKey, Page, ClientContext}
use go_git_providers.Gitea.DeployKey.{client_reconcile, get, list_keys, find_key, create, creation}
use go_git_providers.Gitea.Util.{all_pages}
use go_git_providers.Gitea.Util.Pages.{quiet, pages_from-Chain}

module _ {W : Type 0} (c : ClientContext W) (ref : Ref) where
  -- Where the call for the first page of keys fails, with whatever error, and so without keys,
  -- `Reconcile` of a valid request reports no failure: it takes the key for missing and creates it.
  pub failed_listing-creates :
      (req req' : DeployKeyInfo) (w v : W) (r : Page DeployKey) (e : Err)
      → 1 ≤ c.fuel
      → validate_and_default_info req ≡ ok req'
      → c.api.list_deploy_keys (identity ref) (repository ref) 1 w ≡ (ok r, v)
      → r.objects ≡ []
      → r.error ≡ some e
      → client_reconcile c ref req w
        ≡ (attempt (create c ref req') >>= λ a. pure (creation c ref a)) v
  unfolding client_reconcile get list_keys all_pages validate_all first_error find_key errors_is
      same
  failed_listing-creates req req' w v r e f valid call z q =
      let list = c.api.list_deploy_keys (identity ref) (repository ref) in
      rw valid (rw (pages_from-Chain c list c.fuel [] (quiet r call z) f) refl)
