-- ===== src/Pipeline.antt =====
-- src/pipeline.rs: the stages between the walker and the archive.
pub mod Reorder
pub mod Encode
pub mod Split
pub mod Tune
pub mod Bounded
pub mod Stages
