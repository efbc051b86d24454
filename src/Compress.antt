-- ===== src/Compress.antt =====
-- src/compress.rs: reading the input into blocks, the workers, and the writer thread.
pub mod Process
pub mod Queue
pub mod Workers
pub mod Chunks
pub mod Input
