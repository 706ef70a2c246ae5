-- ===== src/Stash/DeployKey/Delete.antt =====
-- stash/client_repository_deploykey.go: which key `Delete` asks the server to delete.
use go_git_providers.Prelude.{◌≡◌, false, List, [], ◌∷◌, Str, is_empty}
use go_git_providers.Errors.{wrap}
use go_git_providers.Strings.{split}
use go_git_providers.Github.Repository.{Ref}
use go_git_providers.Stash.Types.{DeployKey}
use go_git_providers.Stash.Services.{on_error}
use go_git_providers.Stash.Services.DeployKeys
use go_git_providers.Stash.Context.{StashContext, project_refs}
use go_git_providers.Stash.DeployKey.{
  delete_object, delete, deploy_key_to_api, deploy_key_from_api, set_key_name, key_with_name,
  deploy_key_info_to_api_obj,
}

module _ {W : Type 0} (c : StashContext W) (ref : Ref) where
  -- `(*deployKey).Delete` of a key that has a label and whose text has at least two fields: the server
  -- is asked to delete the key with the identifier 0, whatever the identifier of the key is.
  pub delete_object-zero :
      (k : DeployKey) (a b : Str) (fields : List Str) (w : W)
      → is_empty k.label ≡ false
      → split k.text b' ' ≡ a ∷ b ∷ fields
      → delete_object c ref k w
        ≡ on_error
            (wrap "failed to delete deploy key %q: %w" (k.label ∷ []))
            (DeployKeys.delete c.client c.json (project_refs ref).0 (project_refs ref).1 0)
            w
  unfolding delete_object delete deploy_key_to_api deploy_key_from_api set_key_name key_with_name
      deploy_key_info_to_api_obj
  delete_object-zero k a b fields w h s = rw (s, h)
