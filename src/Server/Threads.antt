-- ===== src/Server/Threads.antt =====
-- The threads of the calls, the manager's lock `lock_`, and writes to streams that take time.
pub mod Steps
pub mod Invariant
pub mod Wire
pub mod Drain
pub mod Held
pub mod Solo
pub mod Stream
pub mod Overlap
pub mod Takeover
pub mod Progress
