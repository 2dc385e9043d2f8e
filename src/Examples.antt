-- ===== src/Examples.antt =====
-- The theorems at concrete inputs.
pub mod Network
pub mod Hydration
pub mod Ownership
pub mod Liveness
pub mod Pulls
pub mod Service
pub mod Database
pub mod Sync
pub mod Instance
pub mod Login
pub mod Connect
pub mod Account
pub mod Configured
