-- ===== src/RawApfs/Bulk/Window.antt =====
-- Phase 3 of `bulk_read_window`, the whole of a window, and `bulk_read_all` of src/raw_apfs.rs. The
-- volume that `bulk_read_all` borrows from the pool is a parameter.
pub mod OfFile
pub mod Whole
use tzip.Prelude.{
  unwrap_or, ℕ, zero, suc, ◌+◌, ◌==◌, not, ◌&&◌, Option, none, some, List, [], ◌∷◌, if◌then◌else◌,
  length, get_elem?,
}
use tzip.Prelude.Chunks.{chunks}
use tzip.Prelude.Assoc.{Map}
use tzip.Bytes.{Bytes}
use tzip.Walk.Item.{WorkItem}
use tzip.Channel.{RawItem, Channel, Outcome, and_then, then_loop}
use tzip.RawApfs.Volume.{Volume, Extents}
use tzip.RawApfs.Oid.{OidCache, resolve_oid}
use tzip.RawApfs.Bulk.Task.{Slot, ExtentTask}
use tzip.RawApfs.Bulk.Meta.{
  Caches, rel_str, resolve_window, scan_inodes, fetch_inodes, scan_extents,
}
use tzip.RawApfs.Bulk.Slots.{build_slots}
use tzip.RawApfs.Bulk.Runs.{max_run_bytes}
use tzip.RawApfs.Bulk.Reads.{Shelf, ship, phase2}

-- Files per window.
abbrev pub bulk_window : ℕ
bulk_window = 512

abbrev pub indices : ℕ → ℕ → List ℕ
indices n zero = []
indices n (suc k) = n ∷ indices (suc n) k

abbrev pub carry : {S T : Type 0} → (S → T) → Outcome S → Outcome T
carry f (Outcome.failed s) = Outcome.failed (f s)
carry f Outcome.panicked = Outcome.panicked
carry f (Outcome.closed s) = Outcome.closed (f s)
carry f (Outcome.next s) = Outcome.next (f s)

module _ (ch : Channel RawItem) (vol : Volume) (strip_mount : Bytes → Option Bytes) where
  -- The slots, the channel and the cache of ids.
  abbrev pub Rest : Type 0
  Rest = Shelf ch × OidCache

  -- A symlink or a compressed file is read by its id; a read that fails gives no bytes.
  abbrev pub read_special : ℕ → Slot → Shelf ch → OidCache × Option ℕ → Outcome Rest
  read_special i s w (c, none) = Outcome.next (w, c)
  read_special i s w (c, some oid) =
      carry (λ (w' : Shelf ch). (w', c)) (ship ch i s (unwrap_or (vol.read_file_by_oid oid) []) w)

  -- `slot` is the slot `i`.
  unfoldable pub finish_slot : ℕ → Slot → Rest → Outcome Rest
  finish_slot i s (w, c) =
      if s.sent
      then Outcome.next (w, c)
      else if not s.special && s.remaining == 0
      then carry (λ (w' : Shelf ch). (w', c)) (ship ch i s [] w)
      else if s.special
      then read_special i s w (resolve_oid vol (rel_str strip_mount s.item.path) c)
      else Outcome.next (w, c)

  abbrev pub finish_found : ℕ → Option Slot → Rest → Outcome Rest
  finish_found i none r = Outcome.next r
  finish_found i (some s) r = finish_slot i s r

  abbrev pub finish_at : ℕ → Rest → Outcome Rest
  finish_at i ((slots, s), c) = finish_found i (get_elem? slots i) ((slots, s), c)

  unfoldable pub phase3 : OidCache → Shelf ch → Outcome Rest
  phase3 c (slots, s) = then_loop finish_at (indices 0 (length slots)) ((slots, s), c)

  -- Between windows: the caches and the channel.
  abbrev pub BulkState : Type 0
  BulkState = Caches × ch.State

  unfoldable pub bulk_read_window : List (ℕ × WorkItem) → BulkState → Outcome BulkState
  bulk_read_window window (caches, s) =
      let (oids, resolved) = resolve_window vol strip_mount window caches.oid_cache in
      let scanned = scan_inodes vol resolved caches.inode_cache in
      let (inodes, per_item) = fetch_inodes vol resolved scanned in
      let extent_batch : Map Extents = scan_extents vol per_item in
      let (slots, tasks) =
        build_slots vol vol.block_size caches.extent_cache 0 per_item extent_batch in
      let cached : OidCache → Caches =
        λ c. record { oid_cache = c; inode_cache = inodes; extent_cache = caches.extent_cache } in
      let filled : Outcome Rest =
        carry (λ (w : Shelf ch). (w, oids))
          (phase2 ch vol.read_raw_at vol.block_size max_run_bytes tasks (slots, s)) in
      carry (λ (r : Rest). (cached r.1, r.0.1)) (and_then filled (λ r. phase3 oids r.0))

  -- What is left when the loop is over is dropped, the channel closed or not: both are `Ok(())`.
  unfoldable pub bulk_read_all : List (ℕ × WorkItem) → BulkState → Outcome BulkState
  bulk_read_all items r = then_loop bulk_read_window (chunks (length items) bulk_window items) r
