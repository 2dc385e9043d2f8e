-- ===== src/Instance.antt =====
-- What every instance shares (sandpolis-instance/src/lib.rs).
pub mod Id
pub mod Permission
pub mod Service
pub mod Version
