-- ===== src/Gitlab/DeployKey/Restless.antt =====
-- `Reconcile` of the deploy key client never finds that there is nothing to do.
use go_git_providers.Prelude.{◌≡◌, Bool, false, Option, none, nat_eq, list_eq, bool_eq, option_eq}
use go_git_providers.Errors.{Err}
use go_git_providers.Exec.{Result, ok, Exec}
use go_git_providers.Gitprovider.Info.{deploy_key_info}
use go_git_providers.Gitlab.Api.{ProjectDeployKey}

-- The answer of a reconciliation that found nothing to do and did not fail.
abbrev pub IsIdle : Result (Option ProjectDeployKey × Bool × Option Err) → Type 0
IsIdle r = (k : Option ProjectDeployKey) × (r ≡ ok (k, false, none))

module _ {W : Type 0} where
  abbrev NeverIdle : Exec W (Option ProjectDeployKey × Bool × Option Err) → Type 0
  NeverIdle m = (w : W) → ¬ (IsIdle ((m w).0))
