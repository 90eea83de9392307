-- ===== src/RawApfs/Bulk/Reads/Safe.antt =====
-- The indices of phase 2 of src/raw_apfs.rs against the slots.
use tzip.Prelude.{
  ℕ, ◌+◌, ◌-◌, ◌*◌, ◌≤◌, ◌<◌, ◌==◌, ◌≡◌, ◌≢◌, refl, arith, true, false, leb, Bool-cases, not, ◌&&◌,
  inl, inr, Option, some, none, List, [], ◌∷◌, All, length, get_elem?,
}
use tzip.Prelude.Sort.{sort_by_key, sort_by_key-All}
use tzip.Bytes.{Bytes, slice, copy_from_slice}
use tzip.Bytes.Slices.{length-slice, length-copy_from_slice}
use tzip.Channel.{RawItem, Channel, then_loop, Always, and_then-Always}
use tzip.RawApfs.Bulk.Task.{Slot, ExtentTask}
use tzip.RawApfs.Bulk.Runs.{end_of}
use tzip.RawApfs.Bulk.Reads.{
  Shelf, place, place_and_ship, after_send, ship, deliver, set_at, taken, phase2,
}
use tzip.RawApfs.Bulk.Reads.Direct.{read_directly, phase2-direct}
use tzip.RawApfs.Bulk.Reads.Fitting.{IsReady, owed, set_at-IsReady, sort_by_key-IsReady}

place-some :
    (run : Bytes) (t : ExtentTask) (s : Slot)
    → t.length ≤ length run
    → t.file_offset + t.length ≤ length s.bytes
    → t.length ≤ s.remaining
    → (filled : Slot) × (place t.disk_offset run t s ≡ some filled)
      × (filled.remaining ≡ s.remaining - t.length)
      × (length filled.bytes ≡ length s.bytes)
unfolding place
place-some run t s long room owes =
    let off : ℕ = t.disk_offset - t.disk_offset in
    let zero_off : off ≡ 0 = omega arith in
    let part : Bytes = slice off (off + t.length) run in
    let len : length part ≡ t.length =
      omega (arith, zero_off, length-slice off (off + t.length) run (omega (arith, zero_off))) in
    let a : leb (off + t.length) (length run) ≡ true = ground (arith, zero_off) in
    let b : leb (t.file_offset + t.length) (length s.bytes) ≡ true = ground arith in
    let c : leb t.length s.remaining ≡ true = ground arith in
    let filled : Slot = record s {
      bytes = copy_from_slice t.file_offset part s.bytes;
      remaining = s.remaining - t.length;
    } in
    (
      filled,
      rw (a, b, c) refl,
      refl,
      length-copy_from_slice t.file_offset part s.bytes (omega (arith, len)),
    )

module _ (ch : Channel RawItem) (ts : List ExtentTask) where
  abbrev Going : Shelf ch → Type 0
  Going w = IsReady ts w.0

  after_send-Always :
      (slots : List Slot) (c : ch.State) (o : Option ch.State)
      → IsReady ts slots
      → Always Going (after_send ch slots c o)
  after_send-Always slots c none h = tt
  after_send-Always slots c (some c') h = h

  place_and_ship-Always :
      (i : ℕ) (s : Slot) (slots : List Slot) (c : ch.State)
      → IsReady ts (set_at i s slots)
      → (s.remaining ≡ 0 → IsReady ts (set_at i (taken s) slots))
      → Always Going (place_and_ship ch i (some s) (slots, c))
  unfolding place_and_ship ship
  place_and_ship-Always i s slots c kept sent =
      elim (Bool-cases (s.remaining == 0 && not s.special && not s.sent)) [
        | inr wait ↦ rw wait kept
        | inl done ↦ rw done (
            after_send-Always (set_at i (taken s) slots) c
              (ch.send (record { index = s.index; item = s.item; bytes = s.bytes }) c)
              (sent (ground arith)))
      ]

  pub read_directly-Always :
      (disk : Bytes) (t : ExtentTask) (w : Shelf ch)
      → IsReady (t ∷ ts) w.0
      → end_of t ≤ length disk
      → Always Going (read_directly ch disk t w)
  unfolding read_directly deliver
  read_directly-Always disk t (slots, c) ((f, fits), owes) within =
      let i : ℕ = t.slot_idx in
      let s : Slot = f.slot in
      let hit : (i == i) ≡ true = ground arith in
      let due : s.remaining ≡ t.length + owed i ts = rw hit at (owes i s f.there) in
      let others : (j : ℕ) (x : Slot)
          → j ≢ i
          → get_elem? slots j ≡ some x
          → x.remaining ≡ owed j ts =
        λ j x d g.
          let miss : (i == j) ≡ false = ground arith in
          let found = rw miss at (owes j x g) in omega arith in
      let run : Bytes = slice t.disk_offset (end_of t) disk in
      let len : length run ≡ end_of t - t.disk_offset =
        length-slice t.disk_offset (end_of t) disk within in
      let (filled, placed, left, kept) = place-some run t s (omega arith) f.room (omega arith) in
      rw (f.there, placed)
        (place_and_ship-Always i filled slots c
          (set_at-IsReady slots i s filled f.there ts (omega arith) (inl kept) fits others)
          (λ z.
            set_at-IsReady slots i s (taken filled) f.there ts (omega arith) (inr (omega arith))
              fits others))

module _ (ch : Channel RawItem) (disk : Bytes) where
  pub read_directly-IsReady :
      (ts : List ExtentTask) (w : Shelf ch)
      → IsReady ts w.0
      → All (λ t. end_of t ≤ length disk) ts
      → Always (λ (w' : Shelf ch). IsReady [] w'.0) (then_loop (read_directly ch disk) ts w)
  read_directly-IsReady [] w h within = h
  read_directly-IsReady (t ∷ ts) w h (p, within) =
      and_then-Always (λ (v : Shelf ch). IsReady ts v.0) (λ (v : Shelf ch). IsReady [] v.0)
        (read_directly ch disk t w) (then_loop (read_directly ch disk) ts)
        (read_directly-Always ch ts disk t w h p) (λ v k. read_directly-IsReady ts v k within)

  module _ (read_raw_at : ℕ → ℕ → Option Bytes) (block_size max_run_bytes blocks : ℕ)
      (pos : 0 < block_size) (whole_blocks : length disk ≡ blocks * block_size)
      (reads : (off n : ℕ)
        → off + n ≤ length disk
        → read_raw_at off n ≡ some (slice off (off + n) disk)) where
    -- Where the tasks fit their slots, phase 2 never leaves the bounds of a buffer or of a counter, and when it
    -- goes on, no slot waits for bytes any more. (Reads within the disk succeed, no task ends behind it.)
    pub phase2-IsReady :
        (tasks : List ExtentTask) (w : Shelf ch)
        → IsReady tasks w.0
        → All (λ t. end_of t ≤ length disk) tasks
        → Always
            (λ (v : Shelf ch). IsReady [] v.0)
            (phase2 ch read_raw_at block_size max_run_bytes tasks w)
    phase2-IsReady tasks w h within =
        let key : ExtentTask → ℕ = λ t. t.disk_offset in
        rw
          (phase2-direct ch disk read_raw_at block_size max_run_bytes blocks pos whole_blocks reads
            tasks w within)
          (read_directly-IsReady (sort_by_key key tasks) w (sort_by_key-IsReady key w.0 tasks h)
            (sort_by_key-All key (λ t. end_of t ≤ length disk) tasks within))
