-- ===== src/Collections.antt =====
-- The map and set helpers of gutil/collections.h.
pub mod Helpers
pub mod Unique
