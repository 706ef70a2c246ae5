-- ===== src/Stash/TeamAccess/Reconcile.antt =====
-- stash/client_repository_teamaccess.go: a group that has no access yet.
use go_git_providers.Prelude.{◌≡◌, false, none, some}
use go_git_providers.Errors.{sentinel, stash_not_found, errors_is, same}
use go_git_providers.Exec.{ok, err}
use go_git_providers.Gitprovider.Info.{TeamAccessInfo, team_access_info, validate_and_default_info}
use go_git_providers.Github.Repository.{Ref}
use go_git_providers.Stash.Services.Permissions.{get_repository_group_permission}
use go_git_providers.Stash.Services.Projects.{get_project_group_permission}
use go_git_providers.Stash.Context.{StashContext, get_stash_refs}
use go_git_providers.Stash.TeamAccess.{
  reconcile, reconcile_valid, reconcile_attempt, get, unless_missing, permission_keys,
}

module _ {W : Type 0} (c : StashContext W) (ref : Ref) where
  -- `(*TeamAccessClient).Reconcile` of a valid request for a group that neither the repository nor its
  -- project knows: nothing is created, and the package's own `ErrNotFound` is returned.
  pub reconcile-no_group :
      (req req' : TeamAccessInfo) (w u v : W)
      → validate_and_default_info req ≡ ok req'
      → get_repository_group_permission c.client c.json
          (get_stash_refs ref).0
          (get_stash_refs ref).1
          req'.name
          w
        ≡ (err (sentinel stash_not_found), u)
      → get_project_group_permission c.client c.json (get_stash_refs ref).0 req'.name u
        ≡ (err (sentinel stash_not_found), v)
      → reconcile c ref req w ≡ (ok (none, false, some (sentinel stash_not_found)), v)
  unfolding reconcile reconcile_valid reconcile_attempt get unless_missing permission_keys errors_is
      same
  reconcile-no_group req req' w u v h r p = rw (h, r, p)
