-- ===== src/Rtmp/Session.antt =====
-- src/rtmp/session.rs: what a publishing connection does, message by message.
pub mod Types
pub mod Timeline
pub mod Words
pub mod Replies
pub mod Commands
pub mod Settle
pub mod Media
pub mod Handle
pub mod Protocol
pub mod Answers
pub mod Running
pub mod Safety
pub mod Steps
pub mod Run
pub mod Names
