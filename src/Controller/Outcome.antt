-- ===== src/Controller/Outcome.antt =====
-- What `HandleArbitrationUpdate` returns, and the state and the messages that it leaves.
pub mod Cases
pub mod Decided
pub mod Accepted
pub mod Takeover
pub mod Reclaim
