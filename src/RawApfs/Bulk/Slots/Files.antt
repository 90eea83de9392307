-- ===== src/RawApfs/Bulk/Slots/Files.antt =====
-- The slots and tasks of a window of src/raw_apfs.rs against the files and their extents.
use mathlib.Core.Path.{subst}
use tzip.Prelude.{
  ℕ, zero, suc, ◌+◌, ◌-◌, ◌*◌, ◌≤◌, ◌<◌, ◌==◌, ◌≡◌, ◌≢◌, refl, sym, ◌∙◌, arith, leb, min, true,
  false, Bool-cases, inl, inr, ◌⊎◌, Option, none, some, some-inj, List, [], ◌∷◌, ◌++◌, All, Any,
  Any-append, length, replicate, get_elem?,
}
use tzip.Prelude.Assoc.{Map, lookup, remove-some}
use tzip.Bytes.{Bytes}
use tzip.Time.Dos.{unix_to_dos}
use tzip.Walk.Item.{WorkItem}
use tzip.RawApfs.Volume.{Volume, InodeVal, FileExtentVal, Extents}
use tzip.RawApfs.Bulk.Task.{Slot, ExtentTask}
use tzip.RawApfs.Bulk.Slots.{
  tasks_of, whole_seconds, is_special, empty_slot, found_extents, extents_of, data_slot, slot_of,
  build_slots,
}
use tzip.RawApfs.Bulk.Slots.Fit.{IsOwn, IsPlaced, IsBuilt, slot_of-IsOne, build_slots-IsBuilt}

-- A byte `k` of a file lies in an extent, at a place on the disk with `Q`.
abbrev pub InExtent : ℕ → ℕ → (ℕ → Type 0) → ℕ × FileExtentVal → Type 0
InExtent block_size k Q (off, val) =
    (off ≤ k) × (k < off + val.length) × Q (val.phys_block_num * block_size + (k - off))

-- A task brings byte `k` to slot `i`, from such a place.
abbrev pub InTask : ℕ → ℕ → (ℕ → Type 0) → ExtentTask → Type 0
InTask i k Q t =
    (t.slot_idx ≡ i)
    × (t.file_offset ≤ k)
    × (k < t.file_offset + t.length)
    × Q (t.disk_offset + (k - t.file_offset))

module _ (block_size size i k : ℕ) (Q : ℕ → Type 0) where
  tasks_of-InExtent :
      (recs : Extents)
      → Any (InTask i k Q) (tasks_of block_size size i recs)
      → Any (InExtent block_size k Q) recs
  unfolding tasks_of
  tasks_of-InExtent [] h = absurd h
  tasks_of-InExtent ((off, val) ∷ recs) h = elim (Bool-cases (leb size off)) [
    | inl outside ↦ inr (tasks_of-InExtent recs (rw outside at h))
    | inr inside ↦ elim (Bool-cases (min val.length (size - off) == 0)) [
      | inl nothing ↦ inr (tasks_of-InExtent recs (rw (inside, nothing) at h))
      | inr some_bytes ↦ elim (rw (inside, some_bytes) at h) [
        | inl (same, low, high, q) ↦ inl (low, omega arith, q)
        | inr rest ↦ inr (tasks_of-InExtent recs rest)
      ]
    ]
  ]

  tasks_of-InTask :
      (recs : Extents)
      → k < size
      → Any (InExtent block_size k Q) recs
      → Any (InTask i k Q) (tasks_of block_size size i recs)
  unfolding tasks_of
  tasks_of-InTask [] less h = absurd h
  tasks_of-InTask ((off, val) ∷ recs) less (inl (low, high, q)) =
      let inside : leb size off ≡ false = ground arith in
      let some_bytes : (min val.length (size - off) == 0) ≡ false = ground arith in
      rw (inside, some_bytes) (inl (refl, low, omega arith, q))
  tasks_of-InTask ((off, val) ∷ recs) less (inr h) =
      let rest = tasks_of-InTask recs less h in
      elim (Bool-cases (leb size off)) [
        | inl outside ↦ rw outside rest
        | inr inside ↦ elim (Bool-cases (min val.length (size - off) == 0)) [
          | inl nothing ↦ rw (inside, nothing) rest
          | inr some_bytes ↦ rw (inside, some_bytes) (inr rest)
        ]
      ]

module _ (i k : ℕ) (Q : ℕ → Type 0) where
  Any-either :
      (ts us : List ExtentTask)
      → Any (InTask i k Q) (ts ++ us)
      → Any (InTask i k Q) ts ⊎ Any (InTask i k Q) us
  Any-either [] us h = inr h
  Any-either (t ∷ ts) us (inl p) = inl (inl p)
  Any-either (t ∷ ts) us (inr h) = elim (Any-either ts us h) [
    | inl here ↦ inl (inr here)
    | inr there ↦ inr there
  ]

  -- The tasks of another slot.
  own-absurd :
      (n size : ℕ) (ts : List ExtentTask)
      → n ≢ i
      → All (IsOwn n size) ts
      → Any (InTask i k Q) ts
      → ⊥
  own-absurd n size [] d h a = a
  own-absurd n size (t ∷ ts) d ((p, e, room), h) (inl (same, _, _, _)) = d (sym e ∙ same)
  own-absurd n size (t ∷ ts) d (p, h) (inr a) = own-absurd n size ts d h a

  placed-absurd :
      (n : ℕ) (slots : List Slot) (ts : List ExtentTask)
      → i < n
      → All (IsPlaced n slots) ts
      → Any (InTask i k Q) ts
      → ⊥
  placed-absurd n slots [] d h a = a
  placed-absurd n slots (t ∷ ts) d (f, h) (inl (same, _, _, _)) =
      let number : t.slot_idx ≡ n + f.position = f.number in omega arith
  placed-absurd n slots (t ∷ ts) d (f, h) (inr a) = placed-absurd n slots ts d h a

module _ (vol : Volume) (block_size : ℕ) (cache batch₀ : Map Extents) (disk : Bytes) where
  -- The extents of a file: of the cache, of the window's scan, or looked up.
  abbrev pub IsExtentsOf : ℕ → Extents → Type 0
  IsExtentsOf pid recs =
      (lookup pid cache ≡ some recs)
      ⊎ ((lookup pid batch₀ ≡ some recs) ⊎ (vol.lookup_extents_by_private_id pid ≡ some recs))

  abbrev pub OnDisk : ℕ → ℕ → Type 0
  OnDisk v p = get_elem? disk p ≡ some v

  abbrev pub Somewhere : ℕ → Type 0
  Somewhere p = Unit

  -- What the tasks bring to slot `i` is what the extents of the file say.
  pub record IsBrought (i : ℕ) (inode : InodeVal) (s : Slot) (ts : List ExtentTask) : Type 0 where
    pub recs : Extents
    pub source : IsExtentsOf inode.private_id recs
    pub zeroed : s.bytes ≡ replicate inode.size 0
    pub hits :
        (k v : ℕ) → Any (InTask i k (OnDisk v)) ts → Any (InExtent block_size k (OnDisk v)) recs
    pub covers :
        (k : ℕ)
        → k < inode.size
        → Any (InExtent block_size k Somewhere) recs
        → Any (InTask i k Somewhere) ts

  abbrev pub timed : WorkItem → InodeVal → WorkItem
  timed item inode = record item {
    mtime = unix_to_dos (whole_seconds inode.modify_time);
    size = inode.size;
  }

  -- A slot that is filled in phase 2 is that of a file with extents, or of an empty one.
  abbrev pub IsFile : ℕ → WorkItem → InodeVal → Slot → List ExtentTask → Type 0
  IsFile i item inode s ts =
      (s.item ≡ timed item inode)
      × (is_special inode ≡ false)
      × (((inode.size ≡ 0) × (s.bytes ≡ [])) ⊎ IsBrought i inode s ts)

  abbrev pub IsSlotOf : ℕ → ℕ × WorkItem × ℕ × InodeVal → Slot → List ExtentTask → Type 0
  IsSlotOf i (idx, item, oid, inode) s ts =
      (s.index ≡ idx) × (s.special ≡ false → IsFile i item inode s ts)

  -- Extents that are left in the batch were there at first.
  abbrev Within : Map Extents → Type 0
  Within batch =
      (pid : ℕ) (recs : Extents) → lookup pid batch ≡ some recs → lookup pid batch₀ ≡ some recs

  found_extents-IsExtentsOf :
      (pid : ℕ) (batch : Map Extents) (a b : Option Extents)
      → Within batch
      → lookup pid cache ≡ a
      → lookup pid batch ≡ b
      → Within ((found_extents vol block_size cache pid batch a b).0)
        × ((recs : Extents)
            → (found_extents vol block_size cache pid batch a b).1 ≡ some recs
            → IsExtentsOf pid recs)
  found_extents-IsExtentsOf pid batch (some r) b w e f = (w, λ recs g. inl (e ∙ g))
  found_extents-IsExtentsOf pid batch none (some r) w e f = (
    λ p recs g. w p recs (remove-some p pid batch recs g),
    λ recs g. inr (inl (w pid recs (f ∙ g))),
  )
  found_extents-IsExtentsOf pid batch none none w e f = (w, λ recs g. inr (inr g))

  data_slot-IsFile :
      (idx : ℕ) (item : WorkItem) (inode : InodeVal) (n : ℕ) (o : Option Extents)
      → ((recs : Extents) → o ≡ some recs → IsExtentsOf inode.private_id recs)
      → is_special inode ≡ false
      → let r = data_slot vol block_size cache idx (timed item inode) inode.size n o in
        IsSlotOf n (idx, item, 0, inode) r.0 r.1
  data_slot-IsFile idx item inode n none source plain = (refl, λ h. absurd cc)
  data_slot-IsFile idx item inode n (some recs) source plain = (
    refl,
    λ h. (
      refl,
      plain,
      inr (record {
        recs = recs;
        source = source recs refl;
        zeroed = refl;
        hits = λ k v a. tasks_of-InExtent block_size inode.size n k (OnDisk v) recs a;
        covers = λ k less a. tasks_of-InTask block_size inode.size n k Somewhere recs less a;
      }),
    ),
  )

  abbrev IsStep : ℕ → ℕ × WorkItem × ℕ × InodeVal → Map Extents × Slot × List ExtentTask → Type 0
  IsStep n e (batch, s, ts) = Within batch × IsSlotOf n e s ts

  slot_of-IsSlotOf :
      (n idx : ℕ) (item : WorkItem) (oid : ℕ) (inode : InodeVal) (batch : Map Extents)
      → Within batch
      → IsStep n (idx, item, oid, inode) (slot_of vol block_size cache n idx item inode batch)
  unfolding slot_of extents_of
  slot_of-IsSlotOf n idx item oid inode batch w =
      let e : ℕ × WorkItem × ℕ × InodeVal = (idx, item, oid, inode) in
      let o : Option Extents = (extents_of vol block_size cache inode.private_id batch).1 in
      let r : Map Extents × Slot × List ExtentTask =
        slot_of vol block_size cache n idx item inode batch in
      let stamped : WorkItem = record item {
        mtime = unix_to_dos (whole_seconds inode.modify_time);
      } in
      elim (Bool-cases (is_special inode)) [
        | inl special ↦
            let is : r ≡ (batch, empty_slot idx stamped true, []) = rw special refl in
            subst (IsStep n e) (sym is) (w, (refl, λ h. absurd cc))
        | inr plain ↦ elim (Bool-cases (inode.size == 0)) [
          | inl hollow ↦
              let none_there : inode.size ≡ 0 = ground arith in
              let is : r ≡ (batch, empty_slot idx (timed item inode) false, []) =
                rw (plain, hollow) refl in
              subst (IsStep n e) (sym is) (w, (refl, λ h. (refl, plain, inl (none_there, refl))))
          | inr full ↦
              let found =
                found_extents-IsExtentsOf inode.private_id batch (lookup inode.private_id cache)
                  (lookup inode.private_id batch) w refl refl in
              let made = data_slot vol block_size cache idx (timed item inode) inode.size n o in
              let is : r
                  ≡ ((extents_of vol block_size cache inode.private_id batch).0, made.0, made.1) =
                rw (plain, full) refl in
              subst (IsStep n e) (sym is)
                (found.0, data_slot-IsFile idx item inode n o found.1 plain)
        ]
      ]

  -- More tasks, for other slots.
  IsSlotOf-more :
      (i : ℕ) (e : ℕ × WorkItem × ℕ × InodeVal) (s : Slot) (ts us : List ExtentTask)
      → ((k : ℕ) (Q : ℕ → Type 0) → Any (InTask i k Q) us → Any (InTask i k Q) ts)
      → ((k : ℕ) (Q : ℕ → Type 0) → Any (InTask i k Q) ts → Any (InTask i k Q) us)
      → IsSlotOf i e s ts
      → IsSlotOf i e s us
  IsSlotOf-more i (idx, item, oid, inode) s ts us back on (same, file) = (
    same,
    λ plain.
        let (its, not_special, what) = file plain in
        (
          its,
          not_special,
          elim what [
            | inl empty ↦ inl empty
            | inr b ↦ inr (record {
              recs = b.recs;
              source = b.source;
              zeroed = b.zeroed;
              hits = λ k v a. b.hits k v (back k (OnDisk v) a);
              covers = λ k less a. on k Somewhere (b.covers k less a);
            })
          ],
        ),
  )

  abbrev pub IsSlotAt : List (ℕ × WorkItem × ℕ × InodeVal) → ℕ → ℕ → Slot → List ExtentTask → Type 0
  IsSlotAt items n j s ts =
      (e : ℕ × WorkItem × ℕ × InodeVal) × (get_elem? items j ≡ some e) × IsSlotOf (n + j) e s ts

  build_slots-IsSlotAt :
      (n : ℕ) (items : List (ℕ × WorkItem × ℕ × InodeVal)) (batch : Map Extents)
      → Within batch
      → let r = build_slots vol block_size cache n items batch in
        (j : ℕ) (s : Slot) → get_elem? r.0 j ≡ some s → IsSlotAt items n j s r.1
  unfolding build_slots
  build_slots-IsSlotAt n [] batch w j s g = absurd cc
  build_slots-IsSlotAt n ((idx, item, oid, inode) ∷ items) batch w zero s g =
      let r = slot_of vol block_size cache n idx item inode batch in
      let more = build_slots vol block_size cache (suc n) items r.0 in
      let built : IsBuilt (suc n) more.0 more.1 =
        build_slots-IsBuilt vol block_size cache (suc n) items r.0 in
      let first : IsSlotOf n (idx, item, oid, inode) r.1 r.2 =
        (slot_of-IsSlotOf n idx item oid inode batch w).1 in
      let here : n + 0 ≡ n = omega arith in
      (
        (idx, item, oid, inode),
        refl,
        rw (here, ← some-inj g)
            (IsSlotOf-more n (idx, item, oid, inode) r.1 r.2 (r.2 ++ more.1)
              (λ k Q a. elim (Any-either n k Q r.2 more.1 a) [
                | inl own ↦ own
                | inr other ↦
                    absurd
                      (placed-absurd n k Q (suc n) more.0 more.1 (omega arith) built.fits other)
              ])
              (λ k Q a. Any-append (InTask n k Q) r.2 more.1 (inl a)) first),
      )
  build_slots-IsSlotAt n ((idx, item, oid, inode) ∷ items) batch w (suc j) s g =
      let r = slot_of vol block_size cache n idx item inode batch in
      let more = build_slots vol block_size cache (suc n) items r.0 in
      let one = slot_of-IsOne vol block_size cache n idx item inode batch in
      let (e, there, is) =
        build_slots-IsSlotAt (suc n) items r.0 (slot_of-IsSlotOf n idx item oid inode batch w).0 j s
          g in
      let next : n + suc j ≡ suc n + j = omega arith in
      (
        e,
        there,
        rw next (
            IsSlotOf-more (suc n + j) e s more.1 (r.2 ++ more.1)
              (λ k Q a. elim (Any-either (suc n + j) k Q r.2 more.1 a) [
                | inl other ↦ absurd (
                    own-absurd (suc n + j) k Q n (length r.1.bytes) r.2
                      (λ same. omega (arith, same)) one.0 other)
                | inr own ↦ own
              ])
              (λ k Q a. Any-append (InTask (suc n + j) k Q) r.2 more.1 (inr a)) is),
      )

  pub build_slots-IsSlotOf :
      (items : List (ℕ × WorkItem × ℕ × InodeVal)) (j : ℕ) (s : Slot)
      → get_elem? (build_slots vol block_size cache 0 items batch₀).0 j ≡ some s
      → (e : ℕ × WorkItem × ℕ × InodeVal) × (get_elem? items j ≡ some e)
        × IsSlotOf j e s (build_slots vol block_size cache 0 items batch₀).1
  build_slots-IsSlotOf items j s g =
      let (e, there, is) = build_slots-IsSlotAt 0 items batch₀ (λ pid recs h. h) j s g in
      let same : 0 + j ≡ j = omega arith in (e, there, rw same at is)
