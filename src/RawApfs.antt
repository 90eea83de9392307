-- ===== src/RawApfs.antt =====
-- src/raw_apfs.rs: reading an APFS volume off the raw device.
pub mod Cache
pub mod Shards
pub mod Bulk
pub mod Volume
pub mod Oid
pub mod Source
pub mod Walk
pub mod Aligned
