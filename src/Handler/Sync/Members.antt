-- ===== src/Handler/Sync/Members.antt =====
-- syncMembers of handler/Roles.go: the roles of each Discord user are made those that the filters
-- give the user.
pub mod Gather
pub mod Update
pub mod Planned
pub mod Given
pub mod Pages
pub mod Spared
pub mod Run
pub mod Server
pub mod Granted
pub mod Found
pub mod Everyone
pub mod Applied
pub mod Quiet
pub mod Entry
pub mod Trace
pub mod Sources
pub mod Effect
pub mod Kept
