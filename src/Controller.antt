-- ===== src/Controller.antt =====
-- The controller manager: p4rt_server/sdn_controller_manager.h and sdn_controller_manager.cc.
pub mod State
pub mod Primary
pub mod Arbitration
pub mod Requests
pub mod Frame
pub mod Delivery
pub mod Highest
pub mod Invariant
pub mod Verdict
pub mod PacketIn
pub mod Permission
pub mod Outcome
pub mod Orphans
pub mod Growth
pub mod Appends
pub mod Uniform
pub mod Views
pub mod Registry
pub mod Isolation
pub mod Echo
