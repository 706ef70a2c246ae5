-- ===== src/Github/DeployKey/Lookup.antt =====
-- The two ways to reconcile a deploy key look it up differently.
use go_git_providers.Prelude.{ℕ, ◌≡◌, refl, false, none, some, List, ◌∷◌, ◌++◌, Str, All}
use go_git_providers.Errors.{Err, errors_is, same}
use go_git_providers.Exec.{ok, err}
use go_git_providers.Gitprovider.Info.{DeployKeyInfo, deploy_key_info, validate_and_default_info}
use go_git_providers.Gitprovider.Info.Laws.{deploy_key_equals_iff}
use go_git_providers.Github.Api.{Key}
use go_git_providers.Github.Client.{list_keys, create_key, delete_key}
use go_git_providers.Github.Context.{ClientContext}
use go_git_providers.Github.Repository.{Ref, identity, repository}
use go_git_providers.Github.DeployKey.{
  get, create_into_self, delete, update, acting, reconcile, client_reconcile, deploy_key_from_api,
}
use go_git_providers.Github.DeployKey.Find.{Titled, find_key-none, find_key-first}

module _ {W : Type 0} (c : ClientContext W) (ref : Ref) where
  -- `Reconcile` of the object looks for a key whose title is the key's text: where the listing
  -- succeeds and no listed title is that text, it goes on to create the key, also if the very key
  -- is among those listed.
  pub reconcile-creates :
      (k : Key) (text : Str) (ks : List Key) (w v : W)
      → k.key ≡ some text
      → list_keys c (identity ref) (repository ref) w ≡ (ok ks, v)
      → All (Titled text) ks
      → reconcile c ref k w ≡ acting c ref (create_into_self c ref k) v
  unfolding reconcile get errors_is same
  reconcile-creates k text ks w v e l h = rw e (rw l (rw (find_key-none text ks h)))

  -- `Reconcile` of the client looks for the requested title: where the request is accepted, the
  -- listing succeeds and the first key with the title is as requested, it returns that key and
  -- takes no action.
  pub client_reconcile-same :
      (req req' : DeployKeyInfo) (before after : List Key) (k : Key) (w v : W)
      → validate_and_default_info req ≡ ok req'
      → list_keys c (identity ref) (repository ref) w ≡ (ok (before ++ (k ∷ after)), v)
      → All (Titled req'.name) before
      → k.title ≡ some req'.name
      → deploy_key_from_api k ≡ ok req'
      → client_reconcile c ref req w ≡ (ok (some k, false, none), v)
  unfolding client_reconcile get
  client_reconcile-same req req' before after k w v p l h t f = rw p (
      rw l (
        rw (find_key-first req'.name before after k h t)
          (rw f (rw ((deploy_key_equals_iff req' req').1 refl)))))

  delete-set :
      (k : Key) (id : ℕ)
      → k.id ≡ some id
      → delete c ref k ≡ delete_key c (identity ref) (repository ref) id
  unfolding delete
  delete-set k id i = rw (i, delete)

  -- `Update` is not atomic: if the new key is refused, the old one has been deleted all the same.
  pub update-deletes :
      (k : Key) (id : ℕ) (e : Err) (w v x : W)
      → k.id ≡ some id
      → delete_key c (identity ref) (repository ref) id w ≡ (ok tt, v)
      → create_key c (identity ref) (repository ref) k v ≡ (err e, x)
      → update c ref k w ≡ (ok (k, some e), x)
  unfolding update
  update-deletes k id e w v x i d f = rw (delete-set k id i) (rw d (rw f))
