-- ===== src/RawApfs/Bulk/Window/OfFile.antt =====
-- What phase 2 of src/raw_apfs.rs sends against the files of the window and their extents.
use tzip.Prelude.{
  ℕ, ◌≤◌, ◌≡◌, refl, sym, ap, ◌∙◌, arith, false, Any, replicate, length-replicate, inl, inr, ◌⊎◌,
  some, List, All, length, get_elem?,
}
use tzip.Prelude.Assoc.{Map}
use tzip.Prelude.Sort.{sort_by_key, sort_by_key-All, sort_by_key-Any}
use tzip.Bytes.{Bytes}
use tzip.Walk.Item.{WorkItem}
use tzip.Channel.{RawItem, Channel}
use tzip.RawApfs.Volume.{Volume, InodeVal, Extents}
use tzip.RawApfs.Bulk.Task.{Slot, ExtentTask}
use tzip.RawApfs.Bulk.Runs.{end_of}
use tzip.RawApfs.Bulk.Slots.{build_slots}
use tzip.RawApfs.Bulk.Slots.Fit.{build_slots-IsReady}
use tzip.RawApfs.Bulk.Reads.Fitting.{IsFitting, sort_by_key-IsReady}
use tzip.RawApfs.Bulk.Reads.Contents.{contents, IsWhole}
use tzip.RawApfs.Bulk.Reads.Pointwise.{
  sort_by_key-keeps, length-contents, contents-byte, get_elem?-replicate,
}
use tzip.RawApfs.Bulk.Slots.{is_special}
use tzip.RawApfs.Bulk.Slots.Files.{
  InExtent, IsExtentsOf, OnDisk, Somewhere, IsBrought, timed, build_slots-IsSlotOf,
}

abbrev pub by_disk : List ExtentTask → List ExtentTask
by_disk tasks = sort_by_key (λ t. t.disk_offset) tasks

-- The files of a window, and the extents that phase 1 finds for them.
module _ (vol : Volume) (block_size : ℕ) (cache batch : Map Extents) (disk : Bytes)
    (items : List (ℕ × WorkItem × ℕ × InodeVal)) where
  -- A byte of a file is the disk's, where an extent says so, or 0 where no extent covers it.
  abbrev pub IsByte : Extents → ℕ → ℕ → Type 0
  IsByte recs k v =
      Any (InExtent block_size k (OnDisk vol block_size cache batch disk v)) recs
      ⊎ ((Any (InExtent block_size k (Somewhere vol block_size cache batch disk)) recs → ⊥)
          × (v ≡ 0))

  -- An item that is sent for a file: its index, its `WorkItem`, its size and its bytes.
  pub record IsOfFile (r : RawItem) : Type 0 where
    pub number : ℕ
    pub idx : ℕ
    pub item : WorkItem
    pub oid : ℕ
    pub inode : InodeVal
    pub there : get_elem? items number ≡ some (idx, item, oid, inode)
    pub same_index : r.index ≡ idx
    pub same_item : r.item ≡ timed vol block_size cache batch disk item inode
    pub not_special : is_special inode ≡ false
    pub whole : length r.bytes ≡ inode.size
    pub by_extents :
        (inode.size ≡ 0)
        ⊎ ((recs : Extents) × IsExtentsOf vol block_size cache batch disk inode.private_id recs
            × ((k v : ℕ) → get_elem? r.bytes k ≡ some v → IsByte recs k v))

  abbrev slots_of : List Slot
  slots_of = (build_slots vol block_size cache 0 items batch).0

  abbrev tasks_made : List ExtentTask
  tasks_made = (build_slots vol block_size cache 0 items batch).1

  module _ (ch : Channel RawItem) (within : All (λ t. end_of t ≤ length disk) tasks_made) where
    fills :
        All (IsFitting slots_of) (by_disk tasks_made)
        × All (λ t. end_of t ≤ length disk) (by_disk tasks_made)
    fills =
        let key : ExtentTask → ℕ = λ t. t.disk_offset in
        (
          (sort_by_key-IsReady key slots_of tasks_made
              (build_slots-IsReady vol block_size cache items batch)).0,
          sort_by_key-All key (λ t. end_of t ≤ length disk) tasks_made within,
        )

    brought-IsByte :
        (i : ℕ) (inode : InodeVal) (s : Slot)
        → get_elem? slots_of i ≡ some s
        → (b : IsBrought vol block_size cache batch disk i inode s tasks_made) → (k v : ℕ)
        → get_elem? (contents disk i (by_disk tasks_made) s.bytes) k ≡ some v
        → IsByte b.recs k v
    brought-IsByte i inode s there b k v g =
        let key : ExtentTask → ℕ = λ t. t.disk_offset in
        elim (contents-byte disk slots_of i s there (by_disk tasks_made) s.bytes k v fills refl g) [
          | inl hit ↦ inl (b.hits k v (sort_by_key-Any key _ tasks_made hit))
          | inr (missed, before) ↦
              let zeroed : get_elem? (replicate inode.size 0) k ≡ some v =
                ap (λ (l : Bytes). get_elem? l k) (sym b.zeroed) ∙ before in
              let (less, zero_there) = get_elem?-replicate inode.size k v zeroed in
              inr (λ a. missed (sort_by_key-keeps _ key tasks_made (b.covers k less a)), zero_there)
        ]

    pub whole-IsOfFile :
        (r : RawItem) → IsWhole ch disk slots_of (by_disk tasks_made) r → IsOfFile r
    whole-IsOfFile r w =
        let ((idx, item, oid, inode), there, (same, file)) =
          build_slots-IsSlotOf vol block_size cache batch disk items w.number w.slot w.there in
        let (its, not_special, what) = file w.plain in
        let len : length r.bytes ≡ length w.slot.bytes =
          ap (λ (l : Bytes). length l) w.bytes
          ∙ length-contents disk slots_of w.number w.slot w.there (by_disk tasks_made) w.slot.bytes
              fills refl in
        let of_file : length r.bytes ≡ inode.size
            → ((inode.size ≡ 0)
                ⊎ ((recs : Extents) × IsExtentsOf vol block_size cache batch disk inode.private_id
                      recs
                    × ((k v : ℕ) → get_elem? r.bytes k ≡ some v → IsByte recs k v)))
            → IsOfFile r =
          λ size bytes. record {
            number = w.number;
            idx = idx;
            item = item;
            oid = oid;
            inode = inode;
            there = there;
            same_index = w.index ∙ same;
            same_item = w.item ∙ its;
            not_special = not_special;
            whole = size;
            by_extents = bytes;
          } in
        elim what [
          | inl (empty, none_there) ↦
              let none_left = ap (λ (l : Bytes). length l) none_there in
              of_file (omega arith) (inl empty)
          | inr b ↦
              let zeros = ap (λ (l : Bytes). length l) b.zeroed in
              of_file (omega (arith, length-replicate {A = ℕ} inode.size 0)) (
                inr (
                  b.recs,
                  b.source,
                  λ k v g.
                      brought-IsByte w.number inode w.slot w.there b k v
                        (ap (λ (l : Bytes). get_elem? l k) (sym w.bytes) ∙ g),
                ))
        ]
