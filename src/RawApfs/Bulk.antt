-- ===== src/RawApfs/Bulk.antt =====
-- `bulk_read_window` of src/raw_apfs.rs.
pub mod Task
pub mod Runs
pub mod Reads
pub mod Meta
pub mod Slots
pub mod Window
