-- ===== src/Server.antt =====
-- The gRPC service: p4rt_server/p4rt_server.h, p4rt_server.cc and switch_provider_base.h.
pub mod Provider
pub mod Rpc
pub mod Stream
pub mod Gate
pub mod Reading
pub mod PacketOut
pub mod Lifetime
pub mod Quiet
pub mod PacketIn
pub mod System
pub mod Pending
pub mod Threads
