-- ===== src/Github.antt =====
-- The package github.
pub mod Api
pub mod Util
pub mod Context
pub mod Checks
pub mod Client
pub mod Spec
pub mod Repository
pub mod OrgRepositories
pub mod DeployKey
pub mod Server
pub mod Teams
pub mod Organizations
pub mod NewClient
