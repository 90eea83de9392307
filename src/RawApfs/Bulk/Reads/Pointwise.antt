-- ===== src/RawApfs/Bulk/Reads/Pointwise.antt =====
-- The bytes that the tasks of a window of src/raw_apfs.rs leave in a slot, one by one.
use tzip.Prelude.{
  ℕ, zero, suc, ◌+◌, ◌-◌, ◌≤◌, ◌<◌, ◌==◌, ==_iff, ◌≡◌, sym, ap, ◌∙◌, arith, leb, Bool-cases, inl,
  inr, ◌⊎◌, some, some-inj, List, [], ◌∷◌, All, Any, length, get_elem?, replicate,
}
use tzip.Prelude.Sort.{insert_by_key, sort_by_key}
use tzip.Bytes.{Bytes, slice, copy_from_slice}
use tzip.Bytes.Slices.{
  length-slice, length-copy_from_slice, get_elem?-slice, get_elem?-copy_from_slice,
}
use tzip.RawApfs.Bulk.Task.{Slot, ExtentTask}
use tzip.RawApfs.Bulk.Runs.{end_of}
use tzip.RawApfs.Bulk.Slots.Files.{InTask}
use tzip.RawApfs.Bulk.Reads.Fitting.{IsFitting}
use tzip.RawApfs.Bulk.Reads.Contents.{contents}

-- What is in the list is in the sorted list.
module _ (P : ExtentTask → Type 0) (key : ExtentTask → ℕ) where
  insert_by_key-keeps :
      (x : ExtentTask) (xs : List ExtentTask) → P x ⊎ Any P xs → Any P (insert_by_key key x xs)
  unfolding insert_by_key
  insert_by_key-keeps x [] h = h
  insert_by_key-keeps x (y ∷ ys) h = elim (Bool-cases (leb (key x) (key y))) [
    | inl first ↦ rw first h
    | inr later ↦ rw later (elim h [
      | inl p ↦ inr (insert_by_key-keeps x ys (inl p))
      | inr k ↦ elim k [ inl p ↦ inl p | inr k' ↦ inr (insert_by_key-keeps x ys (inr k')) ]
    ])
  ]

  pub sort_by_key-keeps : (xs : List ExtentTask) → Any P xs → Any P (sort_by_key key xs)
  unfolding sort_by_key
  sort_by_key-keeps [] h = h
  sort_by_key-keeps (x ∷ xs) (inl p) = insert_by_key-keeps x (sort_by_key key xs) (inl p)
  sort_by_key-keeps (x ∷ xs) (inr h) =
      insert_by_key-keeps x (sort_by_key key xs) (inr (sort_by_key-keeps xs h))

module _ (disk : Bytes) (slots : List Slot) (i : ℕ) (s : Slot)
    (there : get_elem? slots i ≡ some s) where
  abbrev Fills : List ExtentTask → Type 0
  Fills ts = All (IsFitting slots) ts × All (λ t. end_of t ≤ length disk) ts

  room_of :
      (t : ExtentTask)
      → IsFitting slots t
      → t.slot_idx ≡ i
      → t.file_offset + t.length ≤ length s.bytes
  room_of t f e =
      let same : f.slot ≡ s = some-inj (sym f.there ∙ (ap (get_elem? slots) e ∙ there)) in
      let len = ap (λ (x : Slot). length x.bytes) same in let room = f.room in omega arith

  length-task :
      (t : ExtentTask)
      → end_of t ≤ length disk
      → length (slice t.disk_offset (end_of t) disk) ≡ t.length
  length-task t within = omega (arith, length-slice t.disk_offset (end_of t) disk within)

  pub length-contents :
      (ts : List ExtentTask) (b : Bytes)
      → Fills ts
      → length b ≡ length s.bytes
      → length (contents disk i ts b) ≡ length s.bytes
  length-contents [] b h e = e
  length-contents (t ∷ ts) b ((f, fits), (p, within)) e = elim (Bool-cases (t.slot_idx == i)) [
    | inl hit ↦
        let room = room_of t f ((==_iff t.slot_idx i).0 hit) in
        let len = length-task t p in
        rw hit (
          length-contents ts _ (fits, within)
            (length-copy_from_slice t.file_offset (slice t.disk_offset (end_of t) disk) b
                (omega arith)
              ∙ e))
    | inr miss ↦ rw miss (length-contents ts b (fits, within) e)
  ]

  -- A byte comes off the disk by a task, or no task brings it and it was there before.
  pub contents-byte :
      (ts : List ExtentTask) (b : Bytes) (k v : ℕ)
      → Fills ts
      → length b ≡ length s.bytes
      → get_elem? (contents disk i ts b) k ≡ some v
      → Any (InTask i k (λ p. get_elem? disk p ≡ some v)) ts
        ⊎ ((Any (InTask i k (λ p. Unit)) ts → ⊥) × (get_elem? b k ≡ some v))
  contents-byte [] b k v h e g = inr ((λ a. a), g)
  contents-byte (t ∷ ts) b k v ((f, fits), (p, within)) e g = elim (Bool-cases (t.slot_idx == i)) [
    | inl hit ↦
        let own : t.slot_idx ≡ i = (==_iff t.slot_idx i).0 hit in
        let room = room_of t f own in
        let len = length-task t p in
        let bs : Bytes = slice t.disk_offset (end_of t) disk in
        let kept : length (copy_from_slice t.file_offset bs b) ≡ length s.bytes =
          length-copy_from_slice t.file_offset bs b (omega arith) ∙ e in
        elim (contents-byte ts (copy_from_slice t.file_offset bs b) k v (fits, within) kept
          (rw hit at g)) [
            | inl later ↦ inl (inr later)
            | inr (not_later, now) ↦
                elim (get_elem?-copy_from_slice t.file_offset k v bs b (omega arith) now) [
                  | inl (low, high, copied) ↦ inl (
                      inl (
                        own,
                        low,
                        omega arith,
                        get_elem?-slice t.disk_offset (end_of t) (k - t.file_offset) v disk copied,
                      ))
                  | inr (outside, before) ↦ inr (
                    λ a. elim a [
                      | inl (_, low, high, _) ↦ omega arith
                      | inr later ↦ not_later later
                    ],
                    before,
                  )
                ]
          ]
    | inr miss ↦ elim (contents-byte ts b k v (fits, within) e (rw miss at g)) [
      | inl later ↦ inl (inr later)
      | inr (not_later, before) ↦
          inr (
            λ a. elim a [ inl (own, _, _, _) ↦ ground arith | inr later ↦ not_later later ],
            before,
          )
    ]
  ]

pub get_elem?-replicate : (n k v : ℕ) → get_elem? (replicate n 0) k ≡ some v → (k < n) × (v ≡ 0)
get_elem?-replicate zero k v h = absurd cc
get_elem?-replicate (suc n) zero v h = (omega arith, sym (some-inj h))
get_elem?-replicate (suc n) (suc k) v h =
    let (less, z) = get_elem?-replicate n k v h in (omega arith, z)
