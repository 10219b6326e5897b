-- ===== src/Base/Rules.antt =====
-- Rules of reasoning about calls: what holds after a success, what every outcome keeps, and which
-- calls return.
mod Success
mod Keeping
mod Returning
pub use Success.*
pub use Keeping.*
pub use Returning.*
