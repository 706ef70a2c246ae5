-- ===== src/Gitlab/DeployKey.antt =====
-- gitlab/resource_deploykey.go and gitlab/client_repository_deploykey.go: deploy keys. A method of
-- the object takes it and returns it as it is afterwards; its field `canpush` is never read.
pub mod Restless
use go_git_providers.Prelude.{
  ℕ, Bool, true, false, not, ◌&&◌, Option, none, some, List, [], ◌∷◌, Str, ◌==◌, nat_eq, list_eq,
  bool_eq, if◌then◌else◌,
}
use go_git_providers.Errors.{Err, sentinel, wrap, is_error, not_found, unexpected_event}
use go_git_providers.Exec.{
  Result, ok, err, Exec, lift, fail, pure, Attempt, got, failed, attempt, ◌>>=◌,
}
use go_git_providers.Gitprovider.Info.{
  DeployKeyInfo, bytes_of, deploy_key_info, deploy_key_validate_info, deploy_key_equals,
  validate_and_default_info,
}
use go_git_providers.Github.Repository.{Ref}
use go_git_providers.Gitlab.Api.{ProjectDeployKey}
use go_git_providers.Gitlab.Client.{list_keys, create_key, delete_key}
use go_git_providers.Gitlab.Context.{ClientContext}
use go_git_providers.Gitlab.Util.{get_repo_path}

-- `deployKeyFromAPI`: the field `ReadOnly` stays nil.
unfoldable pub deploy_key_from_api : ProjectDeployKey → DeployKeyInfo
deploy_key_from_api k = record { name = k.title; key = some k.key; read_only = none }

-- `if info.ReadOnly != nil { … }`
unfoldable pub can_push_of : Option Bool → Bool → Bool
can_push_of none old = old
can_push_of (some read_only) old = not read_only

-- `deployKeyInfoToAPIObj`
unfoldable pub deploy_key_info_to_api_obj : DeployKeyInfo → ProjectDeployKey → ProjectDeployKey
unfolding can_push_of
deploy_key_info_to_api_obj info k = record k {
  title = info.name;
  key = bytes_of info.key;
  can_push = can_push_of info.read_only k.can_push;
}

abbrev pub empty_key : ProjectDeployKey
empty_key = record { id = 0; title = []; key = []; can_push = false }

-- `deployKeyToAPI`
unfoldable pub deploy_key_to_api : DeployKeyInfo → ProjectDeployKey
unfolding deploy_key_info_to_api_obj
deploy_key_to_api info = deploy_key_info_to_api_obj info empty_key

-- `newGitlabKeySpec`, and `(*gitlabKeySpec).Equals`
unfoldable pub new_gitlab_key_spec : ProjectDeployKey → ProjectDeployKey
new_gitlab_key_spec k = record empty_key { title = k.title; key = k.key; can_push = k.can_push }

unfoldable pub key_spec_equals : ProjectDeployKey → ProjectDeployKey → Bool
key_spec_equals s o =
    s.id == o.id && s.title == o.title && s.key == o.key && s.can_push == o.can_push

-- `(*deployKey).Set`
unfoldable pub set : DeployKeyInfo → ProjectDeployKey → ProjectDeployKey × Option Err
set info k = elim (deploy_key_validate_info info) [
  | some e ↦ (k, some e)
  | none ↦ (deploy_key_info_to_api_obj info k, none)
]

-- The loop of `get`: the first key with the title.
unfoldable pub find_key : Str → List ProjectDeployKey → Result ProjectDeployKey
find_key name [] = err (sentinel not_found)
find_key name (k ∷ ks) = let rest = find_key name ks in if k.title == name then ok k else rest

-- A method with a result `error` returns the object beside it.
abbrev pub Changed : Type 0
Changed = ProjectDeployKey × Option Err

unfoldable pub created : ProjectDeployKey → Attempt ProjectDeployKey → Changed
created k (failed e) = (k, some e)
created k (got k') = (k', none)

module _ {W : Type 0} (c : ClientContext W) (ref : Ref) where
  -- `(*DeployKeyClient).get`, on `list`
  unfoldable pub get : Str → Exec W ProjectDeployKey
  unfolding find_key
  get name = do ks ← list_keys c (get_repo_path ref); lift (find_key name ks)

  -- `createDeployKey`, `(*DeployKeyClient).Create`
  unfoldable pub create : DeployKeyInfo → Exec W ProjectDeployKey
  create req = do
    req' ← lift (validate_and_default_info req)
    create_key c (get_repo_path ref) (deploy_key_to_api req')

  -- `(*deployKey).createIntoSelf`
  unfoldable pub create_into_self : ProjectDeployKey → Exec W Changed
  unfolding created
  create_into_self k = do a ← attempt (create_key c (get_repo_path ref) k); pure (created k a)

  -- `(*deployKey).Delete`
  unfoldable pub delete : ProjectDeployKey → Exec W Unit
  delete k =
      if k.id == 0
      then fail (wrap "didn't expect ID to be 0: %w" [] (sentinel unexpected_event))
      else delete_key c (get_repo_path ref) k.id

  unfoldable pub recreate : ProjectDeployKey → Attempt (Unit {0}) → Exec W Changed
  unfolding create_into_self
  recreate k (failed e) = pure (k, some e)
  recreate k (got _) = create_into_self k

  -- `(*deployKey).Update`
  unfoldable pub update : ProjectDeployKey → Exec W Changed
  unfolding recreate
  update k = do a ← attempt (delete k); recreate k a

  -- A change that counts as an action.
  unfoldable pub acting : Exec W Changed → Exec W (ProjectDeployKey × Bool × Option Err)
  acting m = do v ← m; pure (v.0, true, v.1)

  unfoldable pub reconcile_after :
      ProjectDeployKey → Attempt ProjectDeployKey → Exec W (ProjectDeployKey × Bool × Option Err)
  unfolding acting create_into_self
  reconcile_after k (failed e) =
      let create_it = acting (create_into_self k) in
      if is_error e not_found then create_it else pure (k, false, some e)
  reconcile_after k (got actual) =
      let change = acting (update k) in
      if key_spec_equals (new_gitlab_key_spec k) (new_gitlab_key_spec actual)
      then pure (k, false, none)
      else change

  -- `(*deployKey).Reconcile`
  unfoldable pub reconcile : ProjectDeployKey → Exec W (ProjectDeployKey × Bool × Option Err)
  unfolding reconcile_after
  reconcile k = do a ← attempt (get k.title); reconcile_after k a

  -- What `(*DeployKeyClient).Reconcile` returns.
  abbrev pub Outcome : Type 0
  Outcome = Option ProjectDeployKey × Bool × Option Err

  unfoldable pub creation : Attempt ProjectDeployKey → Outcome
  creation (got k) = (some k, true, none)
  creation (failed e) = (none, true, some e)

  unfoldable pub apply_set : Changed → Exec W Outcome
  unfolding update
  apply_set (k, some e) = pure (some k, false, some e)
  apply_set (k, none) = do v ← update k; pure (some v.0, true, v.1)

  unfoldable pub client_after : DeployKeyInfo → Attempt ProjectDeployKey → Exec W Outcome
  unfolding creation apply_set deploy_key_from_api
  client_after req (got k) =
      let change = apply_set (set req k) in
      if deploy_key_equals req (deploy_key_from_api k) then pure (some k, false, none) else change
  client_after req (failed e) =
      let create_it : Exec W Outcome = attempt (create req) >>= λ a. pure (creation a) in
      if is_error e not_found then create_it else pure (none, false, some e)

  unfoldable pub client_valid : Attempt DeployKeyInfo → Exec W Outcome
  unfolding client_after
  client_valid (failed e) = pure (none, false, some e)
  client_valid (got req) = do a ← attempt (get req.name); client_after req a

  -- `(*DeployKeyClient).Reconcile`
  unfoldable pub client_reconcile : DeployKeyInfo → Exec W Outcome
  unfolding client_valid
  client_reconcile req = do a ← attempt (lift (validate_and_default_info req)); client_valid a
