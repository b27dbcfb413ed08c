-- ===== src/Status.antt =====
-- Status values: gutil/status.h and gutil/status.cc.
pub mod Code
pub mod Convert
pub mod Builder
pub mod Builders
pub mod Messages
pub mod Macros
pub mod Chains
