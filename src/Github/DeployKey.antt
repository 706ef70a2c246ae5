-- ===== src/Github/DeployKey.antt =====
-- github/resource_deploykey.go and github/client_repository_deploykey.go: deploy keys. A method of
-- the object takes it and returns it as it is afterwards.
pub mod Find
pub mod Lookup
use go_git_providers.Prelude.{
  ℕ, Bool, true, false, ◌&&◌, Option, none, some, List, [], ◌∷◌, Str, ◌==◌, nat_eq, list_eq,
  option_eq, bool_eq, if◌then◌else◌,
}
use go_git_providers.Errors.{Err, sentinel, wrap, is_error, not_found, unexpected_event, or_else}
use go_git_providers.Exec.{
  Result, ok, err, check, deref, and_then, Exec, lift, fail, pure, Attempt, got, failed, attempt,
  ◌>>=◌, ◌>>◌,
}
use go_git_providers.Gitprovider.Info.{
  DeployKeyInfo, Bytes, bytes_of, deploy_key_info, deploy_key_validate_info, deploy_key_equals,
  validate_and_default_info,
}
use go_git_providers.Github.Api.{Key}
use go_git_providers.Github.Client.{list_keys, create_key, delete_key}
use go_git_providers.Github.Context.{ClientContext}
use go_git_providers.Github.Repository.{Ref, identity, repository}

-- `deployKeyFromAPI`; it dereferences the title and the key.
unfoldable pub deploy_key_from_api : Key → Result DeployKeyInfo
deploy_key_from_api k = and_then (deref k.title) λ title.
    and_then (deref k.key)
      (λ key. ok (record { name = title; key = some key; read_only = k.read_only }))

-- `deployKeyInfoToAPIObj`
unfoldable pub deploy_key_info_to_api_obj : DeployKeyInfo → Key → Key
deploy_key_info_to_api_obj info k = record k {
  title = some info.name;
  key = some (bytes_of info.key);
  read_only = or_else info.read_only k.read_only;
}

-- `deployKeyToAPI`
unfoldable pub deploy_key_to_api : DeployKeyInfo → Key
unfolding deploy_key_info_to_api_obj
deploy_key_to_api info =
    deploy_key_info_to_api_obj info
      (record { id = none; key = none; title = none; read_only = none })

-- `newGithubKeySpec`, and `(*githubKeySpec).Equals`
unfoldable pub new_github_key_spec : Key → Key
new_github_key_spec k = record k { id = none }

unfoldable pub key_spec_equals : Key → Key → Bool
key_spec_equals s o =
    s.id == o.id && s.title == o.title && s.key == o.key && s.read_only == o.read_only

-- `(*deployKey).Set`
unfoldable pub set : DeployKeyInfo → Key → Key × Option Err
set info k = elim (deploy_key_validate_info info) [
  | some e ↦ (k, some e)
  | none ↦ (deploy_key_info_to_api_obj info k, none)
]

-- The loop of `get`: the first key with the title.
unfoldable pub find_key : Str → List Key → Result Key
find_key name [] = err (sentinel not_found)
find_key name (k ∷ ks) =
    let rest = find_key name ks in
    and_then (deref k.title) (λ title. if title == name then ok k else rest)

-- A method with a result `error` returns the object beside it.
abbrev pub Changed : Type 0
Changed = Key × Option Err

unfoldable pub created : Key → Attempt Key → Changed
created k (failed e) = (k, some e)
created k (got k') = (k', none)

module _ {W : Type 0} (c : ClientContext W) (ref : Ref) where
  -- `(*DeployKeyClient).get`, on `list`
  unfoldable pub get : Str → Exec W Key
  unfolding find_key
  get name = do ks ← list_keys c (identity ref) (repository ref); lift (find_key name ks)

  -- `createDeployKey`, `(*DeployKeyClient).Create`
  unfoldable pub create : DeployKeyInfo → Exec W Key
  create req = do
    req' ← lift (validate_and_default_info req)
    create_key c (identity ref) (repository ref) (deploy_key_to_api req')

  -- `(*deployKey).createIntoSelf`
  unfoldable pub create_into_self : Key → Exec W Changed
  unfolding created
  create_into_self k = do
    a ← attempt (create_key c (identity ref) (repository ref) k)
    pure (created k a)

  -- `(*deployKey).Delete`
  unfoldable pub delete : Key → Exec W Unit
  delete k = elim k.id [
    | none ↦ fail (wrap "didn't expect ID to be nil: %w" [] (sentinel unexpected_event))
    | some id ↦ delete_key c (identity ref) (repository ref) id
  ]

  unfoldable pub recreate : Key → Attempt (Unit {0}) → Exec W Changed
  unfolding create_into_self
  recreate k (failed e) = pure (k, some e)
  recreate k (got _) = create_into_self k

  -- `(*deployKey).Update`
  unfoldable pub update : Key → Exec W Changed
  unfolding recreate
  update k = do a ← attempt (delete k); recreate k a

  -- A change that counts as an action.
  unfoldable pub acting : Exec W Changed → Exec W (Key × Bool × Option Err)
  acting m = do v ← m; pure (v.0, true, v.1)

  unfoldable pub reconcile_after : Key → Attempt Key → Exec W (Key × Bool × Option Err)
  unfolding acting create_into_self
  reconcile_after k (failed e) =
      let create_it = acting (create_into_self k) in
      if is_error e not_found then create_it else pure (k, false, some e)
  reconcile_after k (got actual) =
      let change = acting (update k) in
      if key_spec_equals (new_github_key_spec k) (new_github_key_spec actual)
      then pure (k, false, none)
      else change

  -- `(*deployKey).Reconcile`: what is looked up is the key's text.
  unfoldable pub reconcile : Key → Exec W (Key × Bool × Option Err)
  unfolding reconcile_after
  reconcile k = do text ← lift (deref k.key); a ← attempt (get text); reconcile_after k a

  -- What `(*DeployKeyClient).Reconcile` returns.
  abbrev pub Outcome : Type 0
  Outcome = Option Key × Bool × Option Err

  unfoldable pub creation : Attempt Key → Outcome
  creation (got k) = (some k, true, none)
  creation (failed e) = (none, true, some e)

  unfoldable pub apply_set : Key × Option Err → Exec W Outcome
  unfolding update
  apply_set (k, some e) = pure (some k, false, some e)
  apply_set (k, none) = do v ← update k; pure (some v.0, true, v.1)

  unfoldable pub client_found : DeployKeyInfo → Key → Exec W Outcome
  unfolding apply_set
  client_found req k = do
    info ← lift (deploy_key_from_api k)
    let change = apply_set (set req k)
    if deploy_key_equals req info then pure (some k, false, none) else change

  unfoldable pub client_after : DeployKeyInfo → Attempt Key → Exec W Outcome
  unfolding creation client_found
  client_after req (got k) = client_found req k
  client_after req (failed e) =
      let create_it : Exec W Outcome = attempt (create req) >>= λ a. pure (creation a) in
      if is_error e not_found then create_it else pure (none, false, some e)

  unfoldable pub client_valid : Attempt DeployKeyInfo → Exec W Outcome
  unfolding client_after
  client_valid (failed e) = pure (none, false, some e)
  client_valid (got req) = do a ← attempt (get req.name); client_after req a

  -- `(*DeployKeyClient).Reconcile`
  unfoldable pub client_reconcile : DeployKeyInfo → Exec W Outcome
  unfolding client_valid
  client_reconcile req = do a ← attempt (lift (validate_and_default_info req)); client_valid a
