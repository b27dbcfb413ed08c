-- ===== src/Server/Pending.antt =====
-- Requests that the provider gets without the manager's lock: Write, SetForwardingPipelineConfig
-- and packet-outs test the permission first and call the provider later, so that steps of other
-- calls may come in between.
pub mod Steps
pub mod Source
pub mod Total
pub mod Stale
pub mod Calls
