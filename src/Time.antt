-- ===== src/Time.antt =====
-- The time conversion of src/walker.rs, which src/bulk_walker.rs repeats.
pub mod Civil
pub mod Dos
