-- ===== src/Rtmp.antt =====
-- rtmp: the protocol modules under src/rtmp.
pub mod Chunk
pub mod Flv
pub mod Amf0
pub mod Session
pub mod Handshake
