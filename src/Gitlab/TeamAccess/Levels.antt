-- ===== src/Gitlab/TeamAccess/Levels.antt =====
-- The access levels of GitLab and the permissions of the library.
use go_git_providers.Prelude.{ℕ, ◌≡◌, ◌↔◌, ==_iff, nat_eq, list_eq, arith}
use go_git_providers.Exec.{ok}
use go_git_providers.Gitprovider.Enums.Permission
use go_git_providers.Gitprovider.Enums.Permission.{RepositoryPermission}
use go_git_providers.Gitlab.TeamAccess.{get_git_provider_permission, get_gitlab_permission}

-- A permission has a level exactly when that level has the permission.
pub get_gitlab_permission_iff :
    (p : RepositoryPermission) (level : ℕ)
    → (get_gitlab_permission p ≡ ok level) ↔ (get_git_provider_permission level ≡ ok p)
unfolding get_gitlab_permission get_git_provider_permission
get_gitlab_permission_iff p level = (
  λ h. ground (
    arith,
    ==_iff p Permission.pull,
    ==_iff p Permission.triage,
    ==_iff p Permission.push,
    ==_iff p Permission.maintain,
    ==_iff p Permission.admin,
  ),
  λ h. ground (
    arith,
    ==_iff p Permission.pull,
    ==_iff p Permission.triage,
    ==_iff p Permission.push,
    ==_iff p Permission.maintain,
    ==_iff p Permission.admin,
  ),
)
