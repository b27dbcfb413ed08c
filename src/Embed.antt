-- ===== src/Embed.antt =====
-- The generator of embedded data: gutil/embed_data/generate_cc_embed_data_main.cc.
pub mod Api
pub mod Text
pub mod Generate
pub mod Main
pub mod Lossless
pub mod Rounds
pub mod Exit
