-- ===== src/Github/OrgRepositories/Reconcile.antt =====
-- The two `Reconcile` methods on a repository that is as requested.
use go_git_providers.Prelude.{◌≡◌, sym, false, none, some}
use go_git_providers.Exec.{ok, Exec}
use go_git_providers.Gitprovider.Info.{RepositoryInfo, repository_info, validate_and_default_info}
use go_git_providers.Gitprovider.Info.Laws.{repository_equals_iff}
use go_git_providers.Github.Context.{ClientContext}
use go_git_providers.Github.Repository.{UserRepository, get}
use go_git_providers.Github.OrgRepositories.{reconcile_with}

module _ {W : Type 0} (c : ClientContext W) (get_it : Exec W UserRepository)
    (create_it : RepositoryInfo → Exec W UserRepository) (req : RepositoryInfo) (w : W) where
  -- A repository that already is as requested is returned, no action is taken, and nothing is sent
  -- after the request that fetched it.
  pub reconcile-same :
      (req' : RepositoryInfo) (u : UserRepository) (v : W)
      → validate_and_default_info req ≡ ok req'
      → get_it w ≡ (ok u, v)
      → get u ≡ req'
      → reconcile_with c get_it create_it req w ≡ (ok (some u, false, none), v)
  unfolding reconcile_with
  reconcile-same req' u v h g e =
      let q = (repository_equals_iff req' (get u)).1 (sym e) in rw h (rw g (rw q))
