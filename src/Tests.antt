-- ===== src/Tests.antt =====
-- Concrete runs of the code that the other modules model.
pub mod Net
mod Urls
mod Options
pub mod Hub
mod Calls
mod Keys
mod Teams
mod Listings
mod Built
pub mod Rest
mod Stash
mod History
mod Corp
mod Created
mod Lab
mod Tea
