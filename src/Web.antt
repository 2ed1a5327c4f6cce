-- ===== src/Web.antt =====
-- The web client, web/src.
pub mod ApiError
pub mod Cookie
pub mod Http
pub mod Client
pub mod Data
pub mod Platforms
pub mod Links
pub mod Composer
pub mod Hints
pub mod Format
pub mod Logger
pub mod Schedule
pub mod Drafts
pub mod Members
pub mod Wallet
pub mod Workspace
pub mod Integrations
pub mod Channels
pub mod Auth
pub mod Dashboard
pub mod ComposeScreen
