-- ===== src/Rtmp/Amf0.antt =====
-- src/rtmp/amf0.rs: the value encoding of commands and metadata.
pub mod Types
pub mod Reader
pub mod Writer
pub mod Fits
pub mod Scalars
pub mod Compound
pub mod RoundTrip
pub mod Cursor
pub mod Total
