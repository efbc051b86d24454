-- ===== src/Tests.antt =====
-- Concrete archives and toy crates, and the theorems at them.
mod Toys
mod Parts
mod Blocks
mod Archive
mod Extraction
mod Create
mod Append
mod Appended
mod Commands
mod Scan
mod Listing
