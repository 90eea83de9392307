-- ===== src/RawApfs/Bulk/Runs.antt =====
-- Phase 2 of `bulk_read_window` in src/raw_apfs.rs: tasks that lie close together on the disk share one
-- read. The end of a task is a place on the device, below 2^63, so the sums do not wrap.
pub mod Cover
use tzip.Prelude.{
  ℕ, zero, suc, ◌+◌, ◌-◌, ◌*◌, ◌/◌, Bool, ◌||◌, ◌&&◌, leb, ltb, max, List, [], ◌∷◌, if◌then◌else◌,
}
use tzip.RawApfs.Bulk.Task.{ExtentTask}

abbrev pub max_run_bytes : ℕ
max_run_bytes = 64 * 1024 * 1024

abbrev pub gap : ℕ
gap = 256 * 1024

abbrev pub end_of : ExtentTask → ℕ
end_of t = t.disk_offset + t.length

-- The next task touches the run, or lies a small gap behind it, and the run stays under its cap.
unfoldable pub touches : ℕ → ℕ → ℕ → ExtentTask → Bool
touches limit run_start run_end t = leb t.disk_offset run_end && leb (end_of t - run_start) limit

unfoldable pub follows : ℕ → ℕ → ℕ → ExtentTask → Bool
follows limit run_start run_end t =
    ltb run_end t.disk_offset
    && leb (end_of t - run_start) limit
    && leb (t.disk_offset - run_end) gap

-- The run's end, the tasks of the run, and the tasks behind it.
unfoldable pub grow : ℕ → ℕ → ℕ → List ExtentTask → ℕ × List ExtentTask × List ExtentTask
grow limit run_start run_end [] = (run_end, [], [])
grow limit run_start run_end (t ∷ ts) =
    let touching : ℕ × List ExtentTask × List ExtentTask =
      let (e, inside, behind) = grow limit run_start (max run_end (end_of t)) ts in
      (e, t ∷ inside, behind) in
    let following : ℕ × List ExtentTask × List ExtentTask =
      let (e, inside, behind) = grow limit run_start (end_of t) ts in (e, t ∷ inside, behind) in
    if touches limit run_start run_end t
    then touching
    else if follows limit run_start run_end t
    then following
    else (run_end, [], t ∷ ts)

-- `run_start & !(block_size - 1)` for a block size that is a power of two, and the end rounded up.
unfoldable pub aligned_start : ℕ → ℕ → ℕ
aligned_start block_size run_start = run_start / block_size * block_size

unfoldable pub aligned_end : ℕ → ℕ → ℕ
aligned_end block_size run_end = (run_end + block_size - 1) / block_size * block_size
