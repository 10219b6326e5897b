-- ===== src/Client.antt =====
-- client/*.go: the commands of the chat bot, over the role service and the permissions service.
pub mod Services
pub mod Names
pub mod Denied
pub mod Roles
pub mod Filters
pub mod Sigs
pub mod Guarded
pub mod Confined
pub mod Joined
pub mod Recolored
pub mod Removed
pub mod Listed
pub mod Emptied
