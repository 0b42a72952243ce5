-- ===== src/Examples.antt =====
-- Concrete runs of what is modelled, each an instance of a theorem.
pub mod Chunks
pub mod Formats
pub mod Streams
pub mod Packets
pub mod Values
pub mod Sessions
pub mod Greetings
pub mod Rtsp
pub mod Players
