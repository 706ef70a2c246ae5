-- ===== src/Gitea.antt =====
-- gitea/: the client for Gitea.
pub mod Api
pub mod Util
pub mod Repository
pub mod Repositories
pub mod DeployKey
pub mod TeamAccess
pub mod Organizations
pub mod Commits
