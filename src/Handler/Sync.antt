-- ===== src/Handler/Sync.antt =====
-- The synchronisation of Discord with the store.
pub mod Report
pub mod Calls
pub mod Roles
pub mod Members
pub mod Answers
pub mod Thread
