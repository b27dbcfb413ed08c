-- ===== src/Files.antt =====
-- Files and protobufs: gutil/io.cc and gutil/proto.cc.
pub mod Io
pub mod Outcome
pub mod Proto
