-- ===== src/Gitlab/DeployToken.antt =====
-- gitlab/resource_deploytoken.go and gitlab/client_repository_deploytoken.go: deploy tokens. A
-- method of the object takes it and returns it as it is afterwards.
pub mod Lost
use go_git_providers.Prelude.{
  ℕ, Bool, true, false, Option, none, some, List, [], ◌∷◌, Str, ◌==◌, nat_eq, list_eq,
  if◌then◌else◌,
}
use go_git_providers.Errors.{Err, sentinel, wrap, is_error, not_found, unexpected_event}
use go_git_providers.Exec.{
  Result, ok, err, Exec, lift, fail, pure, Attempt, got, failed, attempt, ◌>>=◌,
}
use go_git_providers.Gitprovider.Info.{
  DeployTokenInfo, deploy_token_info, deploy_token_validate_info, validate_and_default_info,
}
use go_git_providers.Github.Repository.{Ref}
use go_git_providers.Gitlab.Api.{DeployToken}
use go_git_providers.Gitlab.Client.{list_tokens, create_token, delete_token}
use go_git_providers.Gitlab.Context.{ClientContext}
use go_git_providers.Gitlab.Util.{get_repo_path}

-- `deployTokenFromAPI`
unfoldable pub deploy_token_from_api : DeployToken → DeployTokenInfo
deploy_token_from_api t = record { name = t.name; username = t.username; token = t.token }

-- `deployTokenInfoToAPIObj`
unfoldable pub deploy_token_info_to_api_obj : DeployTokenInfo → DeployToken → DeployToken
deploy_token_info_to_api_obj info t = record t { name = info.name; username = info.username }

abbrev pub empty_token : DeployToken
empty_token = record {
  id = 0;
  name = [];
  username = [];
  token = [];
  expired = false;
  revoked = false;
}

-- `deployTokenToAPI`
unfoldable pub deploy_token_to_api : DeployTokenInfo → DeployToken
unfolding deploy_token_info_to_api_obj
deploy_token_to_api info = deploy_token_info_to_api_obj info empty_token

-- `(*deployToken).Set`
unfoldable pub set : DeployTokenInfo → DeployToken → DeployToken × Option Err
set info t = elim (deploy_token_validate_info info) [
  | some e ↦ (t, some e)
  | none ↦ (deploy_token_info_to_api_obj info t, none)
]

-- The loop of `get`: the first token with the name.
unfoldable pub find_token : Str → List DeployToken → Result DeployToken
find_token name [] = err (sentinel not_found)
find_token name (t ∷ ts) = let rest = find_token name ts in if t.name == name then ok t else rest

-- A method with a result `error` returns the object beside it.
abbrev pub Changed : Type 0
Changed = DeployToken × Option Err

unfoldable pub created : DeployToken → Attempt DeployToken → Changed
created t (failed e) = (t, some e)
created t (got t') = (t', none)

module _ {W : Type 0} (c : ClientContext W) (ref : Ref) where
  -- `(*DeployTokenClient).get`, on `list`
  unfoldable pub get : Str → Exec W DeployToken
  unfolding find_token
  get name = do ts ← list_tokens c (get_repo_path ref); lift (find_token name ts)

  -- `createDeployToken`, `(*DeployTokenClient).Create`
  unfoldable pub create : DeployTokenInfo → Exec W DeployToken
  create req = do
    req' ← lift (validate_and_default_info req)
    create_token c (get_repo_path ref) (deploy_token_to_api req')

  -- `(*deployToken).createIntoSelf`
  unfoldable pub create_into_self : DeployToken → Exec W Changed
  unfolding created
  create_into_self t = do a ← attempt (create_token c (get_repo_path ref) t); pure (created t a)

  -- `(*deployToken).Delete`
  unfoldable pub delete : DeployToken → Exec W Unit
  delete t =
      if t.id == 0
      then fail (wrap "didn't expect ID to be 0: %w" [] (sentinel unexpected_event))
      else delete_token c (get_repo_path ref) t.id

  unfoldable pub recreate : DeployToken → Attempt (Unit {0}) → Exec W Changed
  unfolding create_into_self
  recreate t (failed e) = pure (t, some e)
  recreate t (got _) = create_into_self t

  -- `(*deployToken).Update`
  unfoldable pub update : DeployToken → Exec W Changed
  unfolding recreate
  update t = do a ← attempt (delete t); recreate t a

  -- `(*deployToken).Reconcile`: it always updates.
  unfoldable pub reconcile : DeployToken → Exec W (DeployToken × Bool × Option Err)
  unfolding update
  reconcile t = do v ← update t; pure (v.0, true, v.1)

  -- What `(*DeployTokenClient).Reconcile` returns.
  abbrev pub Outcome : Type 0
  Outcome = Option DeployToken × Bool × Option Err

  unfoldable pub creation : Attempt DeployToken → Outcome
  creation (got t) = (some t, true, none)
  creation (failed e) = (none, true, some e)

  -- `if err != nil { return nil, false, err }; return actual, actionTaken, nil`
  unfoldable pub reconciled : DeployToken × Bool × Option Err → Outcome
  reconciled (t, taken, some e) = (none, false, some e)
  reconciled (t, taken, none) = (some t, taken, none)

  unfoldable pub client_after : DeployTokenInfo → Attempt DeployToken → Exec W Outcome
  unfolding creation reconciled reconcile
  client_after req (got t) = do v ← reconcile t; pure (reconciled v)
  client_after req (failed e) =
      let create_it : Exec W Outcome = attempt (create req) >>= λ a. pure (creation a) in
      if is_error e not_found then create_it else pure (none, false, some e)

  unfoldable pub client_valid : Attempt DeployTokenInfo → Exec W Outcome
  unfolding client_after
  client_valid (failed e) = pure (none, false, some e)
  client_valid (got req) = do a ← attempt (get req.name); client_after req a

  -- `(*DeployTokenClient).Reconcile`
  unfoldable pub client_reconcile : DeployTokenInfo → Exec W Outcome
  unfolding client_valid
  client_reconcile req = do a ← attempt (lift (validate_and_default_info req)); client_valid a
