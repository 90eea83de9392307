-- ===== src/RawApfs/Bulk/Reads/Direct.antt =====
-- Phase 2 of src/raw_apfs.rs against one read for each task.
use tzip.Prelude.{
  ℕ, zero, suc, ◌+◌, ◌-◌, ◌*◌, ◌≤◌, ◌<◌, ◌≡◌, refl, sym, ap, ◌∙◌, arith, true, leb, Option, some,
  ◌>>=◌, List, [], ◌∷◌, All, length, get_elem?, length-append, All-weaken, All-append_right,
}
use tzip.Prelude.Sort.{
  Ascending, Ascending-append_right, sort_by_key, sort_by_key-All, sort_by_key-Ascending,
  Ascending-append_right, length-sort_by_key,
}
use tzip.Bytes.{Bytes, slice}
use tzip.Bytes.Slices.{slice-slice, length-slice}
use tzip.Channel.{RawItem, Channel, Outcome, and_then, then_loop, then_loop-append}
use tzip.RawApfs.Bulk.Task.{Slot, ExtentTask}
use tzip.RawApfs.Bulk.Runs.{end_of, grow, aligned_start, aligned_end}
use tzip.RawApfs.Bulk.Runs.Cover.{
  IsRun, grow-IsRun, grow_below, aligned_start_le, aligned_end_ge, aligned_end_le,
}
use tzip.RawApfs.Bulk.Reads.{place, place_and_ship, deliver, read_run, read_runs, phase2, Shelf}

-- A task's bytes do not depend on the run that brought them.
place-run :
    (start e : ℕ) (disk : Bytes) (t : ExtentTask) (s : Slot)
    → start ≤ t.disk_offset
    → end_of t ≤ e
    → e ≤ length disk
    → place start (slice start e disk) t s
      ≡ place t.disk_offset (slice t.disk_offset (end_of t) disk) t s
unfolding place
place-run start e disk t s low high within =
    let off : ℕ = t.disk_offset in
    let a : slice (off - start) (off - start + t.length) (slice start e disk)
        ≡ slice off (off + t.length) disk =
      slice-slice start e off t.length disk low high in
    let b : slice (off - off) (off - off + t.length) (slice off (off + t.length) disk)
        ≡ slice off (off + t.length) disk =
      slice-slice off (off + t.length) off t.length disk (omega arith) (omega arith) in
    let fits : leb (off - start + t.length) (length (slice start e disk)) ≡ true =
      ground (arith, length-slice start e disk within) in
    let fits' : leb (off - off + t.length) (length (slice off (off + t.length) disk)) ≡ true =
      let len = length-slice off (off + t.length) disk (omega arith) in ground arith in
    rw (fits, fits', a, b) refl

module _ (ch : Channel RawItem) (disk : Bytes) where
  -- One read for one task.
  unfoldable pub read_directly : ExtentTask → Shelf ch → Outcome (Shelf ch)
  read_directly t w = deliver ch t.disk_offset (slice t.disk_offset (end_of t) disk) t w

  deliver-run :
      (start e : ℕ) (t : ExtentTask) (w : Shelf ch)
      → start ≤ t.disk_offset
      → end_of t ≤ e
      → e ≤ length disk
      → deliver ch start (slice start e disk) t w ≡ read_directly t w
  unfolding deliver read_directly
  deliver-run start e t (slots, c) low high within =
      ap
        (λ (f : Slot → Option Slot).
          place_and_ship ch t.slot_idx (get_elem? slots t.slot_idx >>= f) (slots, c))
        (λ i s. place-run start e disk t s low high within i)

  loop-run :
      (start e : ℕ) (ts : List ExtentTask) (w : Shelf ch)
      → All (λ t. (start ≤ t.disk_offset) × (end_of t ≤ e)) ts
      → e ≤ length disk
      → then_loop (deliver ch start (slice start e disk)) ts w ≡ then_loop read_directly ts w
  loop-run start e [] w h within = refl
  loop-run start e (t ∷ ts) w ((low, high), h) within =
      ap
        (λ (o : Outcome (Shelf ch)).
          and_then o (then_loop (deliver ch start (slice start e disk)) ts))
        (deliver-run start e t w low high within)
      ∙ ap (λ (k : Shelf ch → Outcome (Shelf ch)). and_then (read_directly t w) k)
          (λ i w'. loop-run start e ts w' h within i)

  module _ (read_raw_at : ℕ → ℕ → Option Bytes) (block_size max_run_bytes blocks : ℕ)
      (pos : 0 < block_size) (whole_blocks : length disk ≡ blocks * block_size)
      (reads : (off n : ℕ)
        → off + n ≤ length disk
        → read_raw_at off n ≡ some (slice off (off + n) disk)) where
    read_run-direct :
        (run_start run_end : ℕ) (ts : List ExtentTask) (w : Shelf ch)
        → All (λ t. (run_start ≤ t.disk_offset) × (end_of t ≤ run_end)) ts
        → run_start ≤ run_end
        → run_end ≤ length disk
        → read_run ch read_raw_at block_size max_run_bytes run_start run_end ts w
          ≡ then_loop read_directly ts w
    unfolding read_run
    read_run-direct run_start run_end ts w h order within =
        let s : ℕ = aligned_start block_size run_start in
        let e : ℕ = aligned_end block_size run_end in
        let low : s ≤ run_start = aligned_start_le block_size pos run_start in
        let high : run_end ≤ e = aligned_end_ge block_size pos run_end in
        let fit : e ≤ length disk =
          rw whole_blocks
            (aligned_end_le block_size pos run_end blocks (rw whole_blocks at within)) in
        let sum : s + (e - s) ≡ e = omega arith in
        let got : read_raw_at s (e - s) ≡ some (slice s (s + (e - s)) disk) =
          reads s (e - s) (omega arith) in
        let wide : All (λ t. (s ≤ t.disk_offset) × (end_of t ≤ e)) ts =
          All-weaken (λ t. (run_start ≤ t.disk_offset) × (end_of t ≤ run_end))
            (λ t. (s ≤ t.disk_offset) × (end_of t ≤ e))
            (λ t p. (omega (arith, p.0), omega (arith, p.1))) ts h in
        rw (got, sum) (loop-run s e ts w wide fit)

    -- The runs read one after the other.
    read_runs-direct :
        (n : ℕ) (ts : List ExtentTask) (w : Shelf ch)
        → length ts ≤ n
        → Ascending (λ t. t.disk_offset) ts
        → All (λ t. end_of t ≤ length disk) ts
        → read_runs ch read_raw_at block_size max_run_bytes n ts w ≡ then_loop read_directly ts w
    unfolding read_runs
    read_runs-direct n [] w h up within = refl
    read_runs-direct zero (t ∷ ts) w h up within = absurd (omega arith)
    read_runs-direct (suc n) (t ∷ ts) w h (low, up) (p, within) =
        let r = grow max_run_bytes t.disk_offset (end_of t) ts in
        let run : IsRun max_run_bytes t.disk_offset (end_of t) ts r =
          grow-IsRun max_run_bytes t.disk_offset (end_of t) ts low in
        let short : length r.2 ≤ n =
          let len = ap length run.whole in omega (arith, len, length-append r.1 r.2) in
        let up' : Ascending (λ t. t.disk_offset) r.2 =
          Ascending-append_right (λ t. t.disk_offset) r.1 r.2 (rw run.whole up) in
        let within' : All (λ t. end_of t ≤ length disk) r.2 =
          All-append_right (λ t. end_of t ≤ length disk) r.1 r.2 (rw run.whole within) in
        ap
          (λ (o : Outcome (Shelf ch)).
            and_then o (read_runs ch read_raw_at block_size max_run_bytes n r.2))
          (read_run-direct t.disk_offset r.0 (t ∷ r.1) w ((omega arith, run.grows), run.inside)
            (omega (arith, run.grows))
            (grow_below max_run_bytes t.disk_offset (end_of t) (length disk) ts within p))
        ∙ (ap
              (λ (k : Shelf ch → Outcome (Shelf ch)).
                and_then (then_loop read_directly (t ∷ r.1) w) k)
              (λ i w'. read_runs-direct n r.2 w' short up' within' i)
            ∙ (sym (then_loop-append read_directly (t ∷ r.1) r.2 w)
                ∙ ap (λ (l : List ExtentTask). then_loop read_directly (t ∷ l) w) run.whole))

    -- Read in runs, the window ends as it does when every task is read alone, in the order of the disk.
    -- (The disk is made of whole blocks, reads within it succeed, and no task ends behind it.)
    pub phase2-direct :
        (tasks : List ExtentTask) (w : Shelf ch)
        → All (λ t. end_of t ≤ length disk) tasks
        → phase2 ch read_raw_at block_size max_run_bytes tasks w
          ≡ then_loop read_directly (sort_by_key (λ t. t.disk_offset) tasks) w
    unfolding phase2
    phase2-direct tasks w within =
        read_runs-direct (length tasks) (sort_by_key (λ t. t.disk_offset) tasks) w
          (let len = length-sort_by_key (λ t. t.disk_offset) tasks in omega arith)
          (sort_by_key-Ascending (λ t. t.disk_offset) tasks)
          (sort_by_key-All (λ t. t.disk_offset) (λ t. end_of t ≤ length disk) tasks within)
