-- ===== src/Handler.antt =====
-- handler/Roles.go, by what its handlers work on.
pub mod Keys
pub mod Roles
pub mod Membership
pub mod Filters
pub mod Users
pub mod Reads
pub mod Writes
pub mod Overlap
pub mod Tidy
pub mod Setup
pub mod Sync
