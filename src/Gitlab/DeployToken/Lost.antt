-- ===== src/Gitlab/DeployToken/Lost.antt =====
-- `Reconcile` of the deploy token client replaces a token that it finds.
use go_git_providers.Prelude.{◌≡◌, ◌≢◌, false, none, some, List, ◌==◌, nat_eq, arith}
use go_git_providers.Errors.{Err}
use go_git_providers.Exec.{ok, err}
use go_git_providers.Gitprovider.Info.{
  DeployTokenInfo, deploy_token_info, validate_and_default_info,
}
use go_git_providers.Github.Repository.{Ref}
use go_git_providers.Gitlab.Api.{DeployToken}
use go_git_providers.Gitlab.Client.{list_tokens, create_token, delete_token}
use go_git_providers.Gitlab.Context.{ClientContext}
use go_git_providers.Gitlab.DeployToken.{client_reconcile, update, delete, get, find_token}
use go_git_providers.Gitlab.Util.{get_repo_path}

module _ {W : Type 0} (c : ClientContext W) (ref : Ref) where
  delete-numbered :
      (t : DeployToken) → t.id ≢ 0 → delete c ref t ≡ delete_token c (get_repo_path ref) t.id
  unfolding delete
  delete-numbered t h = let q : (t.id == 0) ≡ false = ground (arith, h) in rw q

  -- Where a token with the requested name is found and has a number, it is deleted; if the server
  -- then refuses the new one, `Reconcile` reports the error, no object, and that no action was
  -- taken, although the token is gone.
  pub token_reconcile-lost :
      (req req' : DeployTokenInfo) (ts : List DeployToken) (t : DeployToken) (e : Err) (w v x y : W)
      → validate_and_default_info req ≡ ok req'
      → list_tokens c (get_repo_path ref) w ≡ (ok ts, v)
      → find_token req'.name ts ≡ ok t
      → t.id ≢ 0
      → delete_token c (get_repo_path ref) t.id v ≡ (ok tt, x)
      → create_token c (get_repo_path ref) t x ≡ (err e, y)
      → client_reconcile c ref req w ≡ (ok (none, false, some e), y)
  unfolding client_reconcile get update
  token_reconcile-lost req req' ts t e w v x y valid l f h d r =
      rw valid (rw l (rw f (rw (delete-numbered t h) (rw d (rw r)))))
