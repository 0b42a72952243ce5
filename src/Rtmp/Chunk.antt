-- ===== src/Rtmp/Chunk.antt =====
-- src/rtmp/chunk.rs: messages cut into chunks and put back together.
pub mod Types
pub mod Header
pub mod Reader
pub mod Writer
pub mod Fields
pub mod Opening
pub mod Chunks
pub mod RoundTrip
pub mod Delivery
pub mod Advance
pub mod Safety
pub mod Total
pub mod Resize
pub mod Desync
