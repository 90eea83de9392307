-- ===== src/Zip.antt =====
-- src/zipwriter.rs: the streaming ZIP writer, and a reader of the format to compare it with.
pub mod Entry
pub mod Header
pub mod Writer
pub mod Layout
pub mod Reader
pub mod RoundTrip
