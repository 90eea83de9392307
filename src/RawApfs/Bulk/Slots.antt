-- ===== src/RawApfs/Bulk/Slots.antt =====
-- Phase 1d of `bulk_read_window` in src/raw_apfs.rs: the slots of a window and the tasks that fill them.
-- A physical block lies on the device, so its place in bytes does not wrap.
pub mod Fit
pub mod Files
use tzip.Prelude.{
  ℕ, suc, ◌+◌, ◌-◌, ◌*◌, ◌/◌, ◌%◌, ◌==◌, leb, min, Bool, true, false, ◌||◌, Option, none, some,
  List, [], ◌∷◌, ◌++◌, if◌then◌else◌, replicate, length,
}
use tzip.Prelude.Int.{ℤ, pos, negsuc, sub_ℕ}
use tzip.Prelude.Assoc.{Map, lookup, remove}
use tzip.Time.Dos.{unix_to_dos}
use tzip.Walk.Item.{WorkItem}
use tzip.RawApfs.Volume.{Volume, InodeVal, FileExtentVal, Extents}
use tzip.RawApfs.Bulk.Task.{Slot, ExtentTask}

-- `inode.modify_time / 1_000_000_000`, towards 0
unfoldable pub whole_seconds : ℤ → ℤ
whole_seconds (pos n) = pos (n / 1_000_000_000)
whole_seconds (negsuc n) = sub_ℕ 0 (suc n / 1_000_000_000)

-- A symlink, or `bsd_flags & UF_COMPRESSED != 0`.
unfoldable pub is_special : InodeVal → Bool
is_special inode = inode.is_symlink || inode.bsd_flags / 0x20 % 2 == 1

abbrev pub empty_slot : ℕ → WorkItem → Bool → Slot
empty_slot idx item special = record {
  index = idx;
  item = item;
  bytes = [];
  remaining = 0;
  special = special;
  sent = false;
}

-- An extent from the end of the file on is skipped, one across it is cut.
unfoldable pub tasks_of : ℕ → ℕ → ℕ → Extents → List ExtentTask
tasks_of block_size file_size slot_idx [] = []
tasks_of block_size file_size slot_idx ((file_off, val) ∷ recs) =
    let usable : ℕ = min val.length (file_size - file_off) in
    let rest : List ExtentTask = tasks_of block_size file_size slot_idx recs in
    let task : ExtentTask = record {
      disk_offset = val.phys_block_num * block_size;
      length = usable;
      slot_idx = slot_idx;
      file_offset = file_off;
    } in
    if leb file_size file_off then rest else if usable == 0 then rest else task ∷ rest

abbrev pub total : List ExtentTask → ℕ
total [] = 0
total (t ∷ ts) = t.length + total ts

abbrev pub file_slot : ℕ → WorkItem → ℕ → List ExtentTask → Slot
file_slot idx item file_size tasks = record {
  index = idx;
  item = item;
  bytes = replicate file_size 0;
  remaining = total tasks;
  special = false;
  sent = false;
}

module _ (vol : Volume) (block_size : ℕ) (extent_cache : Map Extents) where
  -- From the cache, from the window's scan (which gives them away), or looked up.
  abbrev pub found_extents :
      ℕ → Map Extents → Option Extents → Option Extents → Map Extents × Option Extents
  found_extents pid batch (some recs) scanned = (batch, some recs)
  found_extents pid batch none (some recs) = (remove pid batch, some recs)
  found_extents pid batch none none = (batch, vol.lookup_extents_by_private_id pid)

  unfoldable pub extents_of : ℕ → Map Extents → Map Extents × Option Extents
  extents_of pid batch = found_extents pid batch (lookup pid extent_cache) (lookup pid batch)

  abbrev pub data_slot : ℕ → WorkItem → ℕ → ℕ → Option Extents → Slot × List ExtentTask
  data_slot idx item file_size n none = (empty_slot idx item true, [])
  data_slot idx item file_size n (some recs) =
      let tasks : List ExtentTask = tasks_of block_size file_size n recs in
      (file_slot idx item file_size tasks, tasks)

  -- The slot with number `n`.
  unfoldable pub slot_of :
      ℕ → ℕ → WorkItem → InodeVal → Map Extents → Map Extents × Slot × List ExtentTask
  slot_of n idx item inode batch =
      let stamped : WorkItem = record item {
        mtime = unix_to_dos (whole_seconds inode.modify_time);
      } in
      let sized : WorkItem = record stamped { size = inode.size } in
      let (batch', recs) = extents_of inode.private_id batch in
      let (slot, tasks) = data_slot idx sized inode.size n recs in
      if is_special inode
      then (batch, empty_slot idx stamped true, [])
      else if inode.size == 0
      then (batch, empty_slot idx sized false, [])
      else (batch', slot, tasks)

  unfoldable pub build_slots :
      ℕ → List (ℕ × WorkItem × ℕ × InodeVal) → Map Extents → List Slot × List ExtentTask
  build_slots n [] batch = ([], [])
  build_slots n ((idx, item, oid, inode) ∷ per_item) batch =
      let (batch', slot, tasks) = slot_of n idx item inode batch in
      let (slots, more) = build_slots (suc n) per_item batch' in (slot ∷ slots, tasks ++ more)
