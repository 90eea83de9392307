-- ===== src/Tests.antt =====
-- The theorems at concrete inputs.
mod Zip
mod Time
mod Walk
mod Codec
mod Pipeline
mod Stages
mod Stream
mod Cli
mod RawApfs
mod Toy
mod Bulk
mod Linux
mod BulkWalk
