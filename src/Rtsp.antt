-- ===== src/Rtsp.antt =====
-- src/rtsp: an RTSP connection's messages, and what they mean.
pub mod Status
pub mod Message
pub mod Incoming
pub mod Transport
pub mod Base64
pub mod Sdp
pub mod Session
pub mod Server
