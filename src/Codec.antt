-- ===== src/Codec.antt =====
-- codec: the formats of the coded streams themselves, under src/codec.
pub mod H264
pub mod Aac
