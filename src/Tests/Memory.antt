-- ===== src/Tests/Memory.antt =====
-- A Redis, a gateway and the sets in memory. They show that what is assumed of the services can be
-- met, and the tests run over them.
pub mod Store
pub mod Dicts
pub mod Laws
pub mod Sets
pub mod Guild
pub mod Cached
pub mod Server
