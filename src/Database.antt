-- ===== src/Database.antt =====
-- The database layer (sandpolis-instance/src/database).
pub mod Scope
pub mod Revision
pub mod Resident
pub mod Sync
