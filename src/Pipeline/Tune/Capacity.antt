-- ===== src/Pipeline/Tune/Capacity.antt =====
-- The size of the output buffer of src/pipeline.rs.
use tzip.Prelude.{◌*◌, ◌≤◌, ◌<◌, ◌^◌, arith, Option, none, some}
use tzip.Pipeline.Tune.{FsInfo, mib, choose_writer_capacity}

-- The buffer holds four MiB at least, whatever is known of the file system, and its size is a `usize`.
pub choose_writer_capacity-bounds :
    (info : Option FsInfo)
    → (4 * mib ≤ choose_writer_capacity info) × (choose_writer_capacity info < 2 ^ 64)
unfolding choose_writer_capacity
choose_writer_capacity-bounds none = omega arith
choose_writer_capacity-bounds (some info) = ground arith
