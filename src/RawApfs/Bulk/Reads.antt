-- ===== src/RawApfs/Bulk/Reads.antt =====
-- Phase 2 of `bulk_read_window` in src/raw_apfs.rs: the runs are read and their bytes go to the slots.
-- `ApfsVolume::read_raw_at` is a parameter. The part of the run buffer behind what a read fills is never
-- looked at, so a run's buffer is what the read fills.
pub mod Direct
pub mod Fitting
pub mod Safe
pub mod Contents
pub mod Pointwise
use tzip.Prelude.{
  ℕ, zero, suc, ◌+◌, ◌-◌, ◌==◌, leb, not, ◌&&◌, Option, none, some, ◌>>=◌, List, [], ◌∷◌,
  if◌then◌else◌, Bool, length, get_elem?,
}
use tzip.Prelude.Sort.{sort_by_key}
use tzip.Bytes.{Bytes, copy_from_slice, slice}
use tzip.Walk.Item.{WorkItem}
use tzip.Channel.{RawItem, Channel, Outcome, and_then, then_loop}
use tzip.RawApfs.Bulk.Task.{Slot, ExtentTask}
use tzip.RawApfs.Bulk.Runs.{end_of, grow, aligned_start, aligned_end}

-- What `std::mem::replace` leaves in a slot that is sent.
abbrev pub empty_item : WorkItem
empty_item = record {
  path = [];
  name_in_archive = [];
  size = 0;
  mtime = (0, 0);
  dirfd = none;
  basename = none;
}

abbrev pub set_at {ℓ} : {A : Type ℓ} → ℕ → A → List A → List A
set_at i y [] = []
set_at zero y (x ∷ xs) = y ∷ xs
set_at (suc i) y (x ∷ xs) = x ∷ set_at i y xs

-- A task's bytes out of the run that starts at `start`. An index out of range and a subtraction below 0
-- panic: `none`.
unfoldable pub place : ℕ → Bytes → ExtentTask → Slot → Option Slot
place start run t s =
    let off_in_run : ℕ = t.disk_offset - start in
    let filled : Slot = record s {
      bytes = copy_from_slice t.file_offset (slice off_in_run (off_in_run + t.length) run) s.bytes;
      remaining = s.remaining - t.length;
    } in
    if leb (off_in_run + t.length) (length run)
      && leb (t.file_offset + t.length) (length s.bytes)
      && leb t.length s.remaining
    then some filled
    else none

abbrev pub taken : Slot → Slot
taken s = record s { item = empty_item; bytes = []; sent = Bool.true }

module _ (ch : Channel RawItem) where
  abbrev pub Shelf : Type 0
  Shelf = List Slot × ch.State

  abbrev pub after_send : List Slot → ch.State → Option ch.State → Outcome Shelf
  after_send slots c none = Outcome.closed (slots, c)
  after_send slots c (some c') = Outcome.next (slots, c')

  -- `raw_tx.send(..)` of slot `i`, which is marked as sent first.
  unfoldable pub ship : ℕ → Slot → Bytes → Shelf → Outcome Shelf
  ship i s bytes (slots, c) =
      after_send (set_at i (taken s) slots) c
        (ch.send (record { index = s.index; item = s.item; bytes = bytes }) c)

  unfoldable pub place_and_ship : ℕ → Option Slot → Shelf → Outcome Shelf
  place_and_ship i none w = Outcome.panicked
  place_and_ship i (some s) (slots, c) =
      if s.remaining == 0 && not s.special && not s.sent
      then ship i s s.bytes (slots, c)
      else Outcome.next (set_at i s slots, c)

  unfoldable pub deliver : ℕ → Bytes → ExtentTask → Shelf → Outcome Shelf
  deliver start run t (slots, c) =
      place_and_ship t.slot_idx (get_elem? slots t.slot_idx >>= place start run t) (slots, c)

  abbrev pub deliver_read : Option Bytes → ℕ → List ExtentTask → Shelf → Outcome Shelf
  deliver_read none start ts w = Outcome.failed w
  deliver_read (some run) start ts w = then_loop (deliver start run) ts w

  module _ (read_raw_at : ℕ → ℕ → Option Bytes) (block_size max_run_bytes : ℕ) where
    unfoldable pub read_run : ℕ → ℕ → List ExtentTask → Shelf → Outcome Shelf
    read_run run_start run_end ts w =
        let start : ℕ = aligned_start block_size run_start in
        let len : ℕ = aligned_end block_size run_end - start in
        deliver_read (read_raw_at start len) start ts w

    -- The loop over the runs, on fuel: each run takes at least one task.
    unfoldable pub read_runs : ℕ → List ExtentTask → Shelf → Outcome Shelf
    read_runs n [] w = Outcome.next w
    read_runs zero (t ∷ ts) w = Outcome.panicked
    read_runs (suc n) (t ∷ ts) w =
        let (run_end, inside, behind) = grow max_run_bytes t.disk_offset (end_of t) ts in
        and_then (read_run t.disk_offset run_end (t ∷ inside) w) (read_runs n behind)

    unfoldable pub phase2 : List ExtentTask → Shelf → Outcome Shelf
    phase2 tasks w = read_runs (length tasks) (sort_by_key (λ t. t.disk_offset) tasks) w
