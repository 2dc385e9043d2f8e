-- ===== src/Server.antt =====
-- The server's own logic (sandpolis-server/src).
pub mod Hydration
pub mod Ownership
pub mod Liveness
pub mod Pulls
pub mod User
