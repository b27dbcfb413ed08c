-- ===== src/Server/System.antt =====
-- All streams and calls at once: the steps that they and the provider's packet-ins make, in any
-- order, and what holds after any number of them. A step is what runs under the manager's lock, or
-- touches one connection only; a packet-out is two, the test for the primary, which changes nothing,
-- and, later, the message about a failure.
pub mod Steps
pub mod Calls
pub mod Invariant
pub mod Fencing
pub mod Owned
pub mod Pointers
pub mod Dangling
pub mod Views
pub mod Leaders
pub mod Refinement
