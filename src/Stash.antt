-- ===== src/Stash.antt =====
-- The package stash: the client of Bitbucket Server, which is also known as Stash. It holds a REST
-- client of its own and the provider's clients on top of it.
pub mod Http
pub mod Types
pub mod Paging
pub mod Services
pub mod Git
pub mod Context
pub mod Repository
pub mod Repositories
pub mod DeployKey
pub mod TeamAccess
pub mod Organizations
pub mod PullRequests
pub mod Commits
pub mod NewClient
