-- ===== src/Mobile.antt =====
-- The mobile client, mobile/src.
pub mod ApiError
pub mod Session
pub mod Client
pub mod Data
pub mod Platforms
pub mod Compose
pub mod Publish
pub mod Drafts
pub mod Members
pub mod Channels
pub mod Workspace
pub mod Calendar
pub mod Auth
pub mod Wallet
