-- ===== src/Listing.antt =====
-- src/list.rs: what `list` prints.
pub mod Columns
pub mod Dates
pub mod Document
pub mod Files
pub mod Human
pub mod Json
pub mod Permissions
pub mod Plain
pub mod Timestamp
