-- ===== src/Mobile/Data.antt =====
-- mobile/src/data: the data hooks of the mobile client, one file each.
pub mod Auth
pub mod Posts
pub mod Schedule
pub mod Channels
pub mod Media
pub mod Members
pub mod Workspaces
pub mod Billing
pub mod Analytics
pub mod Governance
pub mod Mutations
