-- ===== src/Gitea/DeployKey.antt =====
-- gitea/resource_deploykey.go and gitea/client_repository_deploykey.go: deploy keys. A method of the
-- object takes it and returns it as it is afterwards.
pub mod Quiet
use go_git_providers.Prelude.{
  ℕ, Bool, true, false, ◌&&◌, ◌==◌, Option, none, some, List, [], ◌∷◌, Str, codes, nat_eq, list_eq,
  bool_eq, if◌then◌else◌,
}
use go_git_providers.Errors.{Err, sentinel, is_error, not_found}
use go_git_providers.Exec.{Result, ok, err, Exec, lift, pure, Attempt, got, failed, attempt, ◌>>=◌}
use go_git_providers.Validation.{Validator, required}
use go_git_providers.Gitprovider.Info.{
  DeployKeyInfo, bytes_of, deploy_key_info, deploy_key_validate_info, deploy_key_equals,
  validate_and_default_info, require,
}
use go_git_providers.Github.Checks.{validate_all}
use go_git_providers.Github.Client.{validated}
use go_git_providers.Github.Repository.{Ref, identity, repository}
use go_git_providers.Gitea.Api.{DeployKey, ClientContext}
use go_git_providers.Gitea.Util.{all_pages, calling, validate_api_object}

-- `if apiObj.ID == 0 { validator.Required("ID") }`
unfoldable pub require_id : ℕ → Validator → Validator
unfolding required
require_id id v = if id == 0 then required v (codes "ID" ∷ []) else v

unfoldable pub validate_deploy_key_api : DeployKey → Option Err
unfolding validate_api_object require require_id
validate_deploy_key_api k =
    validate_api_object (codes "Gitea.DeployKey")
      λ v. require k.key (codes "Key") (require k.title (codes "Title") (require_id k.id v))

-- `deployKeyFromAPI`
unfoldable pub deploy_key_from_api : DeployKey → DeployKeyInfo
deploy_key_from_api k = record { name = k.title; key = some k.key; read_only = some k.read_only }

-- `if info.ReadOnly != nil { apiObj.ReadOnly = *info.ReadOnly }`
unfoldable pub read_only_of : Option Bool → Bool → Bool
read_only_of none old = old
read_only_of (some b) old = b

-- `deployKeyInfoToAPIObj`
unfoldable pub deploy_key_info_to_api_obj : DeployKeyInfo → DeployKey → DeployKey
unfolding read_only_of
deploy_key_info_to_api_obj info k = record k {
  title = info.name;
  key = bytes_of info.key;
  read_only = read_only_of info.read_only k.read_only;
}

abbrev pub empty_key : DeployKey
empty_key = record { id = 0; title = []; key = []; read_only = false }

-- `deployKeyToAPI`
unfoldable pub deploy_key_to_api : DeployKeyInfo → DeployKey
unfolding deploy_key_info_to_api_obj
deploy_key_to_api info = deploy_key_info_to_api_obj info empty_key

-- `newGiteaKeySpec`, and `(*giteaKeySpec).Equals`
unfoldable pub new_gitea_key_spec : DeployKey → DeployKey
new_gitea_key_spec k = record empty_key { title = k.title; key = k.key; read_only = k.read_only }

unfoldable pub key_spec_equals : DeployKey → DeployKey → Bool
key_spec_equals s o =
    s.id == o.id && s.title == o.title && s.key == o.key && s.read_only == o.read_only

-- `(*deployKey).Set`
unfoldable pub set : DeployKeyInfo → DeployKey → DeployKey × Option Err
set info k = elim (deploy_key_validate_info info) [
  | some e ↦ (k, some e)
  | none ↦ (deploy_key_info_to_api_obj info k, none)
]

-- The loop of `get`: the first key with the title.
unfoldable pub find_key : Str → List DeployKey → Result DeployKey
find_key name [] = err (sentinel not_found)
find_key name (k ∷ ks) = let rest = find_key name ks in if k.title == name then ok k else rest

-- A method with a result `error` returns the object beside it.
abbrev pub Changed : Type 0
Changed = DeployKey × Option Err

unfoldable pub created : DeployKey → Attempt DeployKey → Changed
created k (failed e) = (k, some e)
created k (got k') = (k', none)

module _ {W : Type 0} (c : ClientContext W) (ref : Ref) where
  -- `listKeys`, `createKey`, `deleteKey`
  unfoldable pub list_keys : Exec W (List DeployKey)
  unfolding all_pages validate_all validate_deploy_key_api
  list_keys = do
    ks ← all_pages c (c.api.list_deploy_keys (identity ref) (repository ref))
    lift (validate_all validate_deploy_key_api ks)

  unfoldable pub create_key : DeployKey → Exec W DeployKey
  unfolding calling validated validate_deploy_key_api
  create_key req = do
    k ← calling c (
        c.api.create_deploy_key (identity ref) (repository ref)
          (record { title = req.title; key = req.key; read_only = req.read_only }))
    lift (validated validate_deploy_key_api k)

  unfoldable pub delete_key : ℕ → Exec W Unit
  unfolding calling
  delete_key id = calling c (c.api.delete_deploy_key (identity ref) (repository ref) id)

  -- `(*DeployKeyClient).get`, on `list`
  unfoldable pub get : Str → Exec W DeployKey
  unfolding find_key list_keys
  get name = do ks ← list_keys; lift (find_key name ks)

  -- `createDeployKey`, `(*DeployKeyClient).Create`
  unfoldable pub create : DeployKeyInfo → Exec W DeployKey
  create req = do req' ← lift (validate_and_default_info req); create_key (deploy_key_to_api req')

  -- `(*deployKey).createIntoSelf`
  unfoldable pub create_into_self : DeployKey → Exec W Changed
  unfolding created
  create_into_self k = do a ← attempt (create_key k); pure (created k a)

  -- `(*deployKey).Delete`: a key without a number is not refused.
  unfoldable pub delete : DeployKey → Exec W Unit
  unfolding delete_key
  delete k = delete_key k.id

  unfoldable pub recreate : DeployKey → Attempt (Unit {0}) → Exec W Changed
  unfolding create_into_self
  recreate k (failed e) = pure (k, some e)
  recreate k (got _) = create_into_self k

  -- `(*deployKey).Update`
  unfoldable pub update : DeployKey → Exec W Changed
  unfolding recreate
  update k = do a ← attempt (delete k); recreate k a

  -- A change that counts as an action.
  unfoldable pub acting : Exec W Changed → Exec W (DeployKey × Bool × Option Err)
  acting m = do v ← m; pure (v.0, true, v.1)

  unfoldable pub reconcile_after :
      DeployKey → Attempt DeployKey → Exec W (DeployKey × Bool × Option Err)
  unfolding acting create_into_self
  reconcile_after k (failed e) =
      let create_it = acting (create_into_self k) in
      if is_error e not_found then create_it else pure (k, false, some e)
  reconcile_after k (got actual) =
      let change = acting (update k) in
      if key_spec_equals (new_gitea_key_spec k) (new_gitea_key_spec actual)
      then pure (k, false, none)
      else change

  -- `(*deployKey).Reconcile`
  unfoldable pub reconcile : DeployKey → Exec W (DeployKey × Bool × Option Err)
  unfolding reconcile_after
  reconcile k = do a ← attempt (get k.title); reconcile_after k a

  -- What `(*DeployKeyClient).Reconcile` returns.
  abbrev pub Outcome : Type 0
  Outcome = Option DeployKey × Bool × Option Err

  unfoldable pub creation : Attempt DeployKey → Outcome
  creation (got k) = (some k, true, none)
  creation (failed e) = (none, true, some e)

  unfoldable pub apply_set : Changed → Exec W Outcome
  unfolding update
  apply_set (k, some e) = pure (some k, false, some e)
  apply_set (k, none) = do v ← update k; pure (some v.0, true, v.1)

  unfoldable pub client_after : DeployKeyInfo → Attempt DeployKey → Exec W Outcome
  unfolding creation apply_set deploy_key_from_api
  client_after req (got k) =
      let change = apply_set (set req k) in
      if deploy_key_equals req (deploy_key_from_api k) then pure (some k, false, none) else change
  client_after req (failed e) =
      let create_it : Exec W Outcome = attempt (create req) >>= λ a. pure (creation a) in
      if is_error e not_found then create_it else pure (none, false, some e)

  unfoldable pub client_valid : Attempt DeployKeyInfo → Exec W Outcome
  unfolding client_after
  client_valid (failed e) = pure (none, false, some e)
  client_valid (got req) = do a ← attempt (get req.name); client_after req a

  -- `(*DeployKeyClient).Reconcile`
  unfoldable pub client_reconcile : DeployKeyInfo → Exec W Outcome
  unfolding client_valid
  client_reconcile req = do a ← attempt (lift (validate_and_default_info req)); client_valid a
