-- ===== src/Path.antt =====
-- src/path.rs: who is publishing, who is reading, and what a reader that joins is given.
pub mod Cache
pub mod Registry
