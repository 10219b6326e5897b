-- ===== src/Tests.antt =====
-- Runs of the program on concrete data, over a store in memory, and the theorems at such data.
pub mod Memory
mod Data
mod Handlers
mod FilterHandlers
mod Overlaps
mod Commands
mod Listings
mod Histories
mod Parts
mod Queues
mod RoleSyncs
mod MemberSyncs
mod Syncs
mod Connected
mod Joining
