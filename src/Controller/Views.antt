-- ===== src/Controller/Views.antt =====
-- What each controller was last told, against the state of the manager.
pub mod Defs
pub mod Kept
pub mod Accepted
pub mod Left
pub mod Arbitrated
pub mod Answered
pub mod Order
pub mod Raised
