-- ===== src/Rtsp/Session.antt =====
-- src/rtsp/session.rs: what an RTSP connection means. The registry that knows what a path is stands
-- on the far side of `handle`, as its argument `lookup`.
pub mod Names
pub mod Types
pub mod Handle
pub mod Answers
pub mod Setups
pub mod Invariant
pub mod Run
