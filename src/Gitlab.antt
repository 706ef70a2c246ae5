-- ===== src/Gitlab.antt =====
-- gitlab/: the client for GitLab.
pub mod Api
pub mod Util
pub mod Context
pub mod Client
pub mod Project
pub mod Repositories
pub mod DeployKey
pub mod DeployToken
pub mod TeamAccess
pub mod Organizations
pub mod Commits
pub mod PullRequests
pub mod Files
pub mod NewClient
