-- ===== src/Walk.antt =====
-- The walkers of src/walker.rs and src/bulk_walker.rs: which names are archived, and under what name.
pub mod Glob
pub mod Name
pub mod Item
pub mod Bulk
pub mod Stream
