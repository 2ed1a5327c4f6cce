-- ===== src/Web/Data.antt =====
-- The data layer of the web client, web/src/data: one definition for each hook.
pub mod Mutations
pub mod Keys
pub mod Errors
pub mod Auth
pub mod Posts
pub mod Schedule
pub mod Channels
pub mod Media
pub mod Workspaces
pub mod Billing
pub mod Analytics
pub mod Integrations
pub mod Governance
