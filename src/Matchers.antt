-- ===== src/Matchers.antt =====
-- The matchers for tests: gutil/status_matchers.h, gutil/proto_matchers.h and gutil/testing.h.
pub mod Status
pub mod Proto
pub mod Parsing
pub mod Agree
