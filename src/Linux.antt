-- ===== src/Linux.antt =====
-- Reading on Linux: src/fiemap.rs, src/linux_raw.rs and src/io_uring_src.rs.
pub mod Fiemap
pub mod Extent
pub mod Uring
pub mod Window
