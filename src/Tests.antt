-- ===== src/Tests.antt =====
-- Runs of the model at concrete inputs, one file per part: what a theorem says
-- there, and small tests.
pub mod Client
pub mod Data
pub mod Composer
pub mod Texts
pub mod Phone
pub mod Compose
pub mod Publish
pub mod Saves
pub mod Screens
pub mod Teams
pub mod Forms
