-- ===== src/Gitprovider.antt =====
-- The package gitprovider: what all providers share.
pub mod Enums
pub mod Options
pub mod Info
pub mod Url
pub mod Refs
pub mod ParseUrl
pub mod ClientOptions
pub mod Contents
