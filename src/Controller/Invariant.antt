-- ===== src/Controller/Invariant.antt =====
-- The invariant of the manager, and the steps that keep it.
pub mod Defs
pub mod Registration
pub mod Steps
