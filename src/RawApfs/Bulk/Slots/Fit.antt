-- ===== src/RawApfs/Bulk/Slots/Fit.antt =====
-- The slots and tasks of a window of src/raw_apfs.rs against each other.
use tzip.Prelude.{
  ℕ, zero, suc, ◌+◌, ◌-◌, ◌≤◌, ◌<◌, ◌==◌, ◌≡◌, ◌≢◌, refl, ap, ◌∙◌, arith, leb, min, Bool-cases, inl,
  inr, Option, some, none, some-inj, List, [], ◌∷◌, ◌++◌, All, All-weaken, All-append, length,
  length-replicate, get_elem?,
}
use tzip.Prelude.Assoc.{Map}
use tzip.Walk.Item.{WorkItem}
use tzip.RawApfs.Volume.{Volume, InodeVal, Extents}
use tzip.RawApfs.Bulk.Task.{Slot, ExtentTask}
use tzip.RawApfs.Bulk.Slots.{
  tasks_of, total, is_special, extents_of, data_slot, slot_of, build_slots,
}
use tzip.RawApfs.Bulk.Reads.Fitting.{IsFitting, IsReady, owed}

-- The tasks of slot `n` lie within its `size` bytes.
abbrev pub IsOwn : ℕ → ℕ → ExtentTask → Type 0
IsOwn n size t = (0 < t.length) × (t.slot_idx ≡ n) × (t.file_offset + t.length ≤ size)

tasks_of-IsOwn :
    (block_size size n : ℕ) (recs : Extents) → All (IsOwn n size) (tasks_of block_size size n recs)
unfolding tasks_of
tasks_of-IsOwn block_size size n [] = tt
tasks_of-IsOwn block_size size n ((off, val) ∷ recs) =
    let rest = tasks_of-IsOwn block_size size n recs in
    elim (Bool-cases (leb size off)) [
      | inl outside ↦ rw outside rest
      | inr inside ↦ elim (Bool-cases (min val.length (size - off) == 0)) [
        | inl nothing ↦ rw (inside, nothing) rest
        | inr some_bytes ↦ rw (inside, some_bytes) ((ground arith, refl, ground arith), rest)
      ]
    ]

abbrev pub IsOne : ℕ → Slot × List ExtentTask → Type 0
IsOne n (s, ts) = All (IsOwn n (length s.bytes)) ts × (s.remaining ≡ total ts)

module _ (vol : Volume) (block_size : ℕ) (cache : Map Extents) where
  data_slot-IsOne :
      (idx : ℕ) (item : WorkItem) (size n : ℕ) (recs : Option Extents)
      → IsOne n (data_slot vol block_size cache idx item size n recs)
  data_slot-IsOne idx item size n none = (tt, refl)
  data_slot-IsOne idx item size n (some recs) =
      (rw (length-replicate {A = ℕ} size 0) (tasks_of-IsOwn block_size size n recs), refl)

  pub slot_of-IsOne :
      (n idx : ℕ) (item : WorkItem) (inode : InodeVal) (batch : Map Extents)
      → IsOne n (
        (slot_of vol block_size cache n idx item inode batch).1,
        (slot_of vol block_size cache n idx item inode batch).2,
      )
  unfolding slot_of
  slot_of-IsOne n idx item inode batch = elim (Bool-cases (is_special inode)) [
    | inl special ↦ rw special (tt, refl)
    | inr plain ↦ elim (Bool-cases (inode.size == 0)) [
      | inl hollow ↦ rw (plain, hollow) (tt, refl)
      | inr full ↦
          rw (plain, full)
            (data_slot-IsOne idx _ inode.size n
              (extents_of vol block_size cache inode.private_id batch).1)
    ]
  ]

-- A task fits the slot with its number, counted from `n` on.
pub record IsPlaced (n : ℕ) (slots : List Slot) (t : ExtentTask) : Type 0 where
  pub positive : 0 < t.length
  pub position : ℕ
  pub slot : Slot
  pub number : t.slot_idx ≡ n + position
  pub there : get_elem? slots position ≡ some slot
  pub room : t.file_offset + t.length ≤ length slot.bytes

-- The slots from number `n` on.
pub record IsBuilt (n : ℕ) (slots : List Slot) (ts : List ExtentTask) : Type 0 where
  pub fits : All (IsPlaced n slots) ts
  pub owes : (k : ℕ) (s : Slot) → get_elem? slots k ≡ some s → s.remaining ≡ owed (n + k) ts

owed_own : (n size : ℕ) (ts : List ExtentTask) → All (IsOwn n size) ts → owed n ts ≡ total ts
owed_own n size [] h = refl
owed_own n size (t ∷ ts) ((p, e, room), h) = ground (arith, owed_own n size ts h)

owed_other : (n m size : ℕ) (ts : List ExtentTask) → n ≢ m → All (IsOwn n size) ts → owed m ts ≡ 0
owed_other n m size [] d h = refl
owed_other n m size (t ∷ ts) d ((p, e, room), h) = ground (arith, owed_other n m size ts d h)

owed_behind :
    (n : ℕ) (slots : List Slot) (ts : List ExtentTask)
    → All (IsPlaced (suc n) slots) ts
    → owed n ts ≡ 0
owed_behind n slots [] h = refl
owed_behind n slots (t ∷ ts) (f, h) =
    let number : t.slot_idx ≡ suc n + f.position = f.number in
    ground (arith, owed_behind n slots ts h)

owed-append : (i : ℕ) (ts us : List ExtentTask) → owed i (ts ++ us) ≡ owed i ts + owed i us
owed-append i [] us = omega arith
owed-append i (t ∷ ts) us = omega (arith, owed-append i ts us)

module _ (n : ℕ) (s : Slot) (slots : List Slot) (ts us : List ExtentTask) (one : IsOne n (s, ts))
    (built : IsBuilt (suc n) slots us) where
  owes-cons :
      (k : ℕ) (x : Slot) → get_elem? (s ∷ slots) k ≡ some x → x.remaining ≡ owed (n + k) (ts ++ us)
  owes-cons zero x g =
      let here : n + 0 ≡ n = omega arith in
      let same : s.remaining ≡ x.remaining = ap (λ (y : Slot). y.remaining) (some-inj g) in
      rw here (
        omega (
          arith,
          one.1,
          same,
          owed-append n ts us,
          owed_own n (length s.bytes) ts one.0,
          owed_behind n slots us built.fits,
        ))
  owes-cons (suc k) x g =
      let next : n + suc k ≡ suc n + k = omega arith in
      rw next (
        omega (
          arith,
          built.owes k x g,
          owed-append (suc n + k) ts us,
          owed_other n (suc n + k) (length s.bytes) ts (λ e. omega (arith, e)) one.0,
        ))

  IsBuilt-cons : IsBuilt n (s ∷ slots) (ts ++ us)
  IsBuilt-cons = record {
    fits =
        All-append (IsPlaced n (s ∷ slots)) ts us
          (All-weaken (IsOwn n (length s.bytes)) (IsPlaced n (s ∷ slots))
            (λ t o. record {
              positive = o.0;
              position = 0;
              slot = s;
              number = omega (arith, o.1);
              there = refl;
              room = o.2;
            })
            ts one.0)
          (All-weaken (IsPlaced (suc n) slots) (IsPlaced n (s ∷ slots))
            (λ t f. record {
              positive = f.positive;
              position = suc f.position;
              slot = f.slot;
              number = omega (arith, f.number);
              there = f.there;
              room = f.room;
            })
            us built.fits);
    owes = owes-cons;
  }

module _ (vol : Volume) (block_size : ℕ) (cache : Map Extents) where
  pub build_slots-IsBuilt :
      (n : ℕ) (items : List (ℕ × WorkItem × ℕ × InodeVal)) (batch : Map Extents)
      → IsBuilt n
          (build_slots vol block_size cache n items batch).0
          (build_slots vol block_size cache n items batch).1
  unfolding build_slots
  build_slots-IsBuilt n [] batch = record { fits = tt; owes = λ k s g. absurd cc }
  build_slots-IsBuilt n ((idx, item, oid, inode) ∷ items) batch =
      let r = slot_of vol block_size cache n idx item inode batch in
      let more = build_slots vol block_size cache (suc n) items r.0 in
      IsBuilt-cons n r.1 more.0 r.2 more.1
        (slot_of-IsOne vol block_size cache n idx item inode batch)
        (build_slots-IsBuilt (suc n) items r.0)

  -- Of any files and any extents: the tasks that are made lie within their slots, bring bytes, and a slot
  -- waits for exactly the bytes that they bring.
  pub build_slots-IsReady :
      (items : List (ℕ × WorkItem × ℕ × InodeVal)) (batch : Map Extents)
      → IsReady
          (build_slots vol block_size cache 0 items batch).1
          (build_slots vol block_size cache 0 items batch).0
  build_slots-IsReady items batch =
      let r = build_slots vol block_size cache 0 items batch in
      let built : IsBuilt 0 r.0 r.1 = build_slots-IsBuilt 0 items batch in
      (
        All-weaken (IsPlaced 0 r.0) (IsFitting r.0)
            (λ t f.
              let at_place : t.slot_idx ≡ f.position = omega (arith, f.number) in
              record {
                positive = f.positive;
                slot = f.slot;
                there = ap (get_elem? r.0) at_place ∙ f.there;
                room = f.room;
              })
            r.1 built.fits,
        λ i s g. let same : 0 + i ≡ i = omega arith in rw same at (built.owes i s g),
      )
