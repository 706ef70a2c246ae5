-- ===== src/Stash/DeployKey.antt =====
-- stash/client_repository_deploykey.go and stash/resource_deploykey.go: the client for the access
-- keys of a repository, and the key object. A returned object is an `Option`, nil beside an error.
pub mod Delete
use go_git_providers.Prelude.{
  ℕ, zero, suc, Bool, true, false, not, ◌&&◌, ◌||◌, ◌/◌, ◌%◌, ◌+◌, Option, none, some, List, [],
  ◌∷◌, ◌++◌, map, Str, codes, is_empty, ◌==◌, nat_eq, list_eq, if◌then◌else◌, leb, ltb,
}
use go_git_providers.Errors.{
  Err, Errs, nil, cons, wrap, sentinel, is_error, not_found, stash_not_found,
  invalid_permission_level, no_provider_support,
}
use go_git_providers.Exec.{
  Result, ok, err, panic, check, deref, Exec, lift, fail, pure, Attempt, got, failed, attempt,
  ◌>>=◌, ◌>>◌,
}
use go_git_providers.Stash.Services.{on_error}
use go_git_providers.Github.Repository.{Ref, org, user}
use go_git_providers.Strings.{split}
use go_git_providers.Gitprovider.Info.{
  DeployKeyInfo, bytes_of, deploy_key_info, deploy_key_equals, deploy_key_validate_info,
  validate_and_default_info,
}
use go_git_providers.Stash.Types.{
  StashRepository, no_repository, Project, no_project, DeployKey, no_deploy_key,
}
use go_git_providers.Stash.Services.DeployKeys
use go_git_providers.Stash.Context.{
  StashContext, validate_deploy_key_api, validate_each, project_refs,
}

abbrev pub stash_permission_read : Str
stash_permission_read = codes "REPO_READ"

abbrev pub stash_permission_write : Str
stash_permission_write = codes "REPO_WRITE"

-- `hex.EncodeToString`
unfoldable pub hex_digit : ℕ → ℕ
hex_digit n = if ltb n 10 then b'0' + n else 87 + n

unfoldable pub hex : Str → Str
unfolding hex_digit
hex [] = []
hex (c ∷ s) = hex_digit (c / 16) ∷ hex_digit (c % 16) ∷ hex s

-- `deployKeyInfoToAPIObj`
unfoldable pub deploy_key_info_to_api_obj : DeployKeyInfo → DeployKey → DeployKey
deploy_key_info_to_api_obj info api_obj = record api_obj {
  permission = elim info.read_only [
    | none ↦ api_obj.permission
    | some b ↦ if b then stash_permission_read else stash_permission_write
  ];
  label = info.name;
}

-- `deployKeyFromAPI`
unfoldable pub deploy_key_from_api : DeployKey → DeployKeyInfo
deploy_key_from_api api_obj = record {
  name = api_obj.label;
  key = some api_obj.text;
  read_only = some (api_obj.permission == stash_permission_read);
}

-- The key with the name of the request as its comment; a key of one field panics.
unfoldable pub key_with_name : Str → List Str → Result Str
key_with_name name (a ∷ b ∷ fields) = ok (a ++ (b' ' ∷ b ++ (b' ' ∷ name)))
key_with_name name fields = panic

-- The first key with the label.
unfoldable pub find_label : Str → List DeployKey → Result DeployKey
find_label name [] = err (sentinel not_found)
find_label name (k ∷ ks) = let rest = find_label name ks in if k.label == name then ok k else rest

-- What `Reconcile` returns: the object, whether an action was taken, and the error.
abbrev pub Outcome : Type 0
Outcome = Option DeployKey × Bool × Option Err

unfoldable pub created_outcome : Attempt DeployKey → Outcome
created_outcome (got k) = (some k, true, none)
created_outcome (failed e) = (none, true, some e)

module _ {W : Type 0} (c : StashContext W) (ref : Ref) where
  -- `randName`
  unfoldable pub rand_name : Exec W Str
  unfolding hex
  rand_name = c.random 4 >>= λ b. pure (hex b)

  -- The name for a key that has none.
  unfoldable pub default_name : DeployKeyInfo → List Str → Exec W DeployKeyInfo
  unfolding rand_name
  default_name info (a ∷ b ∷ name ∷ []) = pure (record info { name = name })
  default_name info (a ∷ b ∷ x ∷ y ∷ fields) = pure info
  default_name info fields = rand_name >>= λ name. pure (record info { name = name })

  -- `setKeyName`
  unfoldable pub set_key_name : DeployKeyInfo → Exec W DeployKeyInfo
  unfolding split key_with_name default_name
  set_key_name info =
      let fields = split (bytes_of info.key) b' ' in
      let named : Exec W DeployKeyInfo =
        lift (key_with_name info.name fields) >>= λ key. pure (record info { key = some key }) in
      if is_empty info.name then default_name info fields else named

  -- `deployKeyToAPI`, at the project and the slug of the client's reference
  unfoldable pub deploy_key_to_api : DeployKeyInfo → Exec W DeployKey
  unfolding set_key_name deploy_key_info_to_api_obj project_refs
  deploy_key_to_api info = do
    let k = record no_deploy_key {
      text = bytes_of info.key;
      repository = record no_repository {
        slug = (project_refs ref).1;
        project = record no_project { key = (project_refs ref).0 };
      };
    }
    info' ← set_key_name info
    pure (deploy_key_info_to_api_obj info' k)

  -- `(*DeployKeyClient).list`
  unfoldable pub list_keys : Exec W (List DeployKey)
  unfolding DeployKeys.all project_refs validate_each validate_deploy_key_api
  list_keys = do
    api_objs ← DeployKeys.all c.client c.json c.fuel (project_refs ref).0 (project_refs ref).1
    lift (check (validate_each validate_deploy_key_api api_objs))
    pure api_objs

  -- `(*DeployKeyClient).get`
  unfoldable pub get_key : Str → Exec W DeployKey
  unfolding list_keys find_label
  get_key name = list_keys >>= λ keys. lift (find_label name keys)

  -- `(*DeployKeyClient).Get`
  unfoldable pub get : Str → Exec W DeployKey
  unfolding on_error get_key
  get name = on_error (wrap "failed to get deploy key %q: %w" (name ∷ [])) (get_key name)

  -- `(*DeployKeyClient).List`
  unfoldable pub list : Exec W (List DeployKey)
  unfolding on_error list_keys
  list = on_error (wrap "failed to list deploy keys: %w" []) list_keys

  -- `createDeployKey`
  unfoldable pub create_deploy_key : DeployKeyInfo → Exec W DeployKey
  unfolding deploy_key_to_api DeployKeys.create
  create_deploy_key req = do
    req' ← lift (validate_and_default_info req)
    k ← deploy_key_to_api req'
    DeployKeys.create c.client c.json k

  -- `(*DeployKeyClient).Create`
  unfoldable pub create : DeployKeyInfo → Exec W DeployKey
  unfolding on_error create_deploy_key
  create req = on_error (wrap "failed to create deploy key: %w" []) (create_deploy_key req)

  -- `(*DeployKeyClient).delete`; the error names the request as `deployKeyToAPI` leaves it, which is
  -- how the key is labelled.
  unfoldable pub delete : DeployKeyInfo → Exec W Unit
  unfolding on_error deploy_key_to_api DeployKeys.delete
  delete req = do
    key ← deploy_key_to_api req
    on_error (wrap "failed to delete deploy key %q: %w" (key.label ∷ []))
        (DeployKeys.delete c.client c.json key.repository.project.key key.repository.slug key.id)

  -- `(*DeployKeyClient).update`
  unfoldable pub update : DeployKeyInfo → Exec W DeployKey
  unfolding delete deploy_key_to_api DeployKeys.create
  update req = do delete req; k ← deploy_key_to_api req; DeployKeys.create c.client c.json k

  -- `(*deployKey).Set` behind `ValidateInfo`
  unfoldable pub set_key : DeployKeyInfo → DeployKey → Exec W DeployKey
  unfolding set_key_name deploy_key_info_to_api_obj
  set_key info k = do
    info' ← set_key_name info
    pure (deploy_key_info_to_api_obj info' (record k { text = bytes_of info.key }))

  -- How `Reconcile` ends behind `Set`.
  unfoldable pub updated_outcome : Str → DeployKey → Attempt DeployKey → Outcome
  updated_outcome name k (failed e) =
      (some k, false, some (wrap "failed to update deploy key %q: %w" (name ∷ []) e))
  updated_outcome name k (got k') = (some k, true, none)

  unfoldable pub set_and_update : DeployKeyInfo → DeployKey → Option Err → Exec W Outcome
  unfolding set_key update updated_outcome deploy_key_from_api
  set_and_update req actual (some e) = pure (some actual, false, some e)
  set_and_update req actual none = do
    k ← set_key req actual
    a ← attempt (update (deploy_key_from_api k))
    pure (updated_outcome req.name k a)

  unfoldable pub reconcile_attempt : DeployKeyInfo → Attempt DeployKey → Exec W Outcome
  unfolding create created_outcome set_and_update deploy_key_from_api
  reconcile_attempt req (failed e) =
      let creating : Exec W Outcome = attempt (create req) >>= λ a. pure (created_outcome a) in
      if is_error e not_found
      then creating
      else pure (none, false, some (wrap "failed to reconcile deploy key %q: %w" (req.name ∷ []) e))
  reconcile_attempt req (got actual) =
      if deploy_key_equals req (deploy_key_from_api actual)
      then pure (some actual, false, none)
      else set_and_update req actual (deploy_key_validate_info req)

  unfoldable pub reconcile_valid : Attempt DeployKeyInfo → Exec W Outcome
  unfolding get reconcile_attempt
  reconcile_valid (failed e) = pure (none, false, some e)
  reconcile_valid (got req) = attempt (get req.name) >>= reconcile_attempt req

  -- `(*DeployKeyClient).Reconcile`
  unfoldable pub reconcile : DeployKeyInfo → Exec W Outcome
  unfolding reconcile_valid
  reconcile req = attempt (lift (validate_and_default_info req)) >>= reconcile_valid

  -- `(*deployKey).Delete`
  unfoldable pub delete_object : DeployKey → Exec W Unit
  unfolding delete deploy_key_from_api
  delete_object k = delete (deploy_key_from_api k)

  unfoldable pub overwrite : DeployKey → Attempt DeployKey → DeployKey × Option Err
  overwrite k (failed e) = (k, some e)
  overwrite k (got k') = (k', none)

  -- `(*deployKey).Update`
  unfoldable pub update_object : DeployKey → Exec W (DeployKey × Option Err)
  unfolding update overwrite deploy_key_from_api
  update_object k = attempt (update (deploy_key_from_api k)) >>= λ a. pure (overwrite k a)
