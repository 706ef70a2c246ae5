-- ===== src/Gitprovider/Enums.antt =====
-- gitprovider/enums.go: a module for each typed string.
pub mod Known
pub mod Visibility
pub mod Permission
pub mod License
pub mod Transport
