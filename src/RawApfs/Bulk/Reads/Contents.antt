-- ===== src/RawApfs/Bulk/Reads/Contents.antt =====
-- What phase 2 of src/raw_apfs.rs sends.
use tzip.Prelude.{
  ℕ, ◌+◌, ◌-◌, ◌≤◌, ◌<◌, ◌==◌, ◌≡◌, refl, sym, ap, ◌∙◌, arith, true, false, Bool, Bool-cases, not,
  ◌&&◌, inl, inr, ◌⊎◌, Option, some, none, List, [], ◌∷◌, ◌++◌, All, All-append, append_assoc,
  length, get_elem?, if◌then◌else◌, leb,
}
use tzip.Bytes.{Bytes, slice, copy_from_slice}
use tzip.Bytes.Slices.{slice-slice, length-slice}
use tzip.Channel.{RawItem, Channel, then_loop, Through, and_then-Through, Through-both}
use tzip.RawApfs.Bulk.Task.{Slot, ExtentTask}
use tzip.RawApfs.Bulk.Runs.{end_of}
use tzip.RawApfs.Bulk.Reads.{Shelf, place, place_and_ship, after_send, ship, deliver, set_at, taken}
use tzip.RawApfs.Bulk.Reads.Direct.{read_directly}
use tzip.RawApfs.Bulk.Reads.Fitting.{IsFitting, IsReady, owed, each-set_at}
use tzip.RawApfs.Bulk.Reads.Safe.{read_directly-Always}

-- The bytes of a slot after its tasks, read off the disk one after the other.
abbrev pub contents : Bytes → ℕ → List ExtentTask → Bytes → Bytes
contents disk i [] b = b
contents disk i (t ∷ ts) b = contents disk i ts (
    if t.slot_idx == i
    then copy_from_slice t.file_offset (slice t.disk_offset (end_of t) disk) b
    else b)

served_unless :
    {Z : Type 0} (remaining : ℕ) (special sent : Bool)
    → (remaining == 0 && not special && not sent) ≡ false
    → (special ≡ true) ⊎ ((sent ≡ true) ⊎ ((0 < remaining) ⊎ Z))
served_unless remaining true sent h = inl refl
served_unless remaining false true h = inr (inl refl)
served_unless remaining false false h = inr (inr (inl (ground arith)))

-- Nothing comes where nothing is owed.
contents_none :
    (disk : Bytes) (slots : List Slot) (i : ℕ) (ts : List ExtentTask) (b : Bytes)
    → All (IsFitting slots) ts
    → owed i ts ≡ 0
    → contents disk i ts b ≡ b
contents_none disk slots i [] b h e = refl
contents_none disk slots i (t ∷ ts) b (f, h) e =
    let positive : 0 < t.length = f.positive in
    let miss : (t.slot_idx == i) ≡ false = ground arith in
    rw miss (contents_none disk slots i ts b h (omega arith))

slice_self :
    (off len : ℕ) (xs : Bytes)
    → slice (off - off) (off - off + len) (slice off (off + len) xs) ≡ slice off (off + len) xs
slice_self off len xs = slice-slice off (off + len) off len xs (omega arith) (omega arith)

module _ (ch : Channel RawItem) (disk : Bytes) (slots₀ : List Slot) (ts₀ : List ExtentTask) where
  -- An item that was sent is that of a slot, with all the slot's bytes.
  pub record IsWhole (r : RawItem) : Type 0 where
    pub number : ℕ
    pub slot : Slot
    pub there : get_elem? slots₀ number ≡ some slot
    pub index : r.index ≡ slot.index
    pub item : r.item ≡ slot.item
    pub plain : slot.special ≡ false
    pub bytes : r.bytes ≡ contents disk number ts₀ slot.bytes

  -- A slot is sent, or it will hold the bytes that it is to hold.
  pub record IsWaiting (ts : List ExtentTask) (i : ℕ) (s : Slot) : Type 0 where
    pub slot : Slot
    pub there : get_elem? slots₀ i ≡ some slot
    pub index : s.index ≡ slot.index
    pub item : s.item ≡ slot.item
    pub special : s.special ≡ slot.special
    pub bytes : contents disk i ts s.bytes ≡ contents disk i ts₀ slot.bytes

  -- When nothing more comes for a slot that something was to come for, it is sent.
  abbrev pub IsServed : ℕ → Slot → Type 0
  IsServed i s = (s.special ≡ true) ⊎ ((s.sent ≡ true) ⊎ ((0 < s.remaining) ⊎ (owed i ts₀ ≡ 0)))

  -- What was sent behind `c₀` is whole.
  abbrev pub HasSent : ch.State → ch.State → Type 0
  HasSent c₀ c = (out : List RawItem) × (ch.received c ≡ ch.received c₀ ++ out) × All IsWhole out

  pub record IsOnWay (c₀ : ch.State) (ts : List ExtentTask) (w : Shelf ch) : Type 0 where
    pub waiting : (i : ℕ) (s : Slot) → get_elem? w.0 i ≡ some s → (s.sent ≡ true) ⊎ IsWaiting ts i s
    pub served : (i : ℕ) (s : Slot) → get_elem? w.0 i ≡ some s → IsServed i s
    pub out : List RawItem
    pub received : ch.received w.1 ≡ ch.received c₀ ++ out
    pub whole : All IsWhole out

  module _ (c₀ : ch.State) (t : ExtentTask) (ts : List ExtentTask) (slots : List Slot)
      (c : ch.State) (s : Slot) (there : get_elem? slots t.slot_idx ≡ some s)
      (way : IsOnWay c₀ (t ∷ ts) (slots, c)) where
    IsWaiting-set_at :
        (s' : Slot)
        → (s'.sent ≡ true) ⊎ IsWaiting ts t.slot_idx s'
        → (j : ℕ) (x : Slot) → get_elem? (set_at t.slot_idx s' slots) j ≡ some x
        → (x.sent ≡ true) ⊎ IsWaiting ts j x
    IsWaiting-set_at s' h =
        each-set_at (λ j x. (x.sent ≡ true) ⊎ IsWaiting ts j x) t.slot_idx s s' slots there h
          (λ j x d g. elim (way.waiting j x g) [
            | inl sent ↦ inl sent
            | inr w ↦
                let miss : (t.slot_idx == j) ≡ false = ground arith in
                inr (record {
                  slot = w.slot;
                  there = w.there;
                  index = w.index;
                  item = w.item;
                  special = w.special;
                  bytes = rw miss at w.bytes;
                })
          ])

    abbrev filled : Slot
    filled = record s {
      bytes = copy_from_slice t.file_offset (slice t.disk_offset (end_of t) disk) s.bytes;
      remaining = s.remaining - t.length;
    }

    filled-IsWaiting :
        (s.sent ≡ true) ⊎ IsWaiting (t ∷ ts) t.slot_idx s
        → (s.sent ≡ true) ⊎ IsWaiting ts t.slot_idx filled
    filled-IsWaiting (inl sent) = inl sent
    filled-IsWaiting (inr w) =
        let hit : (t.slot_idx == t.slot_idx) ≡ true = ground arith in
        inr (record {
          slot = w.slot;
          there = w.there;
          index = w.index;
          item = w.item;
          special = w.special;
          bytes = rw hit at w.bytes;
        })

    abbrev Going : Shelf ch → Type 0
    Going = IsOnWay c₀ ts

    abbrev Sent : Shelf ch → Type 0
    Sent v = HasSent c₀ v.1

    after_send-way :
        (s' : Slot) (r : RawItem) (o : Option ch.State)
        → ch.send r c ≡ o
        → s'.sent ≡ true
        → IsWhole r
        → Through Sent Going (after_send ch (set_at t.slot_idx s' slots) c o)
    after_send-way s' r none e sent whole = (way.out, way.received, way.whole)
    after_send-way s' r (some c') e sent whole = record {
      waiting = IsWaiting-set_at s' (inl sent);
      served =
          each-set_at IsServed t.slot_idx s s' slots there (inr (inl sent))
            (λ j x d g. way.served j x g);
      out = way.out ++ (r ∷ []);
      received =
          ch.send-received r c c' e
          ∙ (ap (λ (l : List RawItem). l ++ (r ∷ [])) way.received
              ∙ append_assoc (ch.received c₀) way.out (r ∷ []));
      whole = All-append IsWhole way.out (r ∷ []) way.whole (whole, tt);
    }

    sent-IsWhole :
        IsWaiting ts t.slot_idx filled
        → s.special ≡ false
        → contents disk t.slot_idx ts filled.bytes ≡ filled.bytes
        → IsWhole (record { index = filled.index; item = filled.item; bytes = filled.bytes })
    sent-IsWhole w plain last = record {
      number = t.slot_idx;
      slot = w.slot;
      there = w.there;
      index = w.index;
      item = w.item;
      plain = sym w.special ∙ plain;
      bytes = sym last ∙ w.bytes;
    }

    place_and_ship-way :
        (filled.remaining ≡ 0 → contents disk t.slot_idx ts filled.bytes ≡ filled.bytes)
        → Through Sent Going (place_and_ship ch t.slot_idx (some filled) (slots, c))
    unfolding place_and_ship ship
    place_and_ship-way last =
        let next = filled-IsWaiting (way.waiting t.slot_idx s there) in
        elim (Bool-cases (filled.remaining == 0 && not filled.special && not filled.sent)) [
          | inl done ↦ elim next [
            | inl sent ↦ absurd (ground arith)
            | inr w ↦
                let r : RawItem = record {
                  index = filled.index;
                  item = filled.item;
                  bytes = filled.bytes;
                } in
                rw done (
                  after_send-way (taken filled) r (ch.send r c) refl refl
                    (sent-IsWhole w (ground arith) (last (ground arith))))
          ]
          | inr wait ↦ rw wait (record {
            waiting = IsWaiting-set_at filled next;
            served =
                each-set_at IsServed t.slot_idx s filled slots there
                  (served_unless filled.remaining filled.special filled.sent wait)
                  (λ j x d g. way.served j x g);
            out = way.out;
            received = way.received;
            whole = way.whole;
          })
        ]

    place-filled :
        end_of t ≤ length disk
        → t.file_offset + t.length ≤ length s.bytes
        → t.length ≤ s.remaining
        → place t.disk_offset (slice t.disk_offset (end_of t) disk) t s ≡ some filled
    unfolding place
    place-filled within room owes =
        let off : ℕ = t.disk_offset in
        let len : length (slice off (off + t.length) disk) ≡ off + t.length - off =
          length-slice off (off + t.length) disk within in
        let a : leb (off - off + t.length) (length (slice off (off + t.length) disk)) ≡ true =
          ground arith in
        let b : leb (t.file_offset + t.length) (length s.bytes) ≡ true = ground arith in
        let d : leb t.length s.remaining ≡ true = ground arith in
        rw (a, b, d, slice_self off t.length disk) refl

  abbrev pub IsGoing : ch.State → List ExtentTask → Shelf ch → Type 0
  IsGoing c₀ ts w = IsReady ts w.0 × IsOnWay c₀ ts w

  step-IsGoing :
      (c₀ : ch.State) (t : ExtentTask) (ts : List ExtentTask) (w : Shelf ch)
      → IsGoing c₀ (t ∷ ts) w
      → end_of t ≤ length disk
      → Through (λ v. HasSent c₀ v.1) (IsGoing c₀ ts) (read_directly ch disk t w)
  unfolding read_directly deliver
  step-IsGoing c₀ t ts (slots, c) (((f, fits), owes), way) within =
      let i : ℕ = t.slot_idx in
      let s : Slot = f.slot in
      let hit : (i == i) ≡ true = ground arith in
      let due : s.remaining ≡ t.length + owed i ts = rw hit at (owes i s f.there) in
      let kept = read_directly-Always ch ts disk t (slots, c) ((f, fits), owes) within in
      Through-both (λ v. HasSent c₀ v.1) (λ v. IsReady ts v.0) (IsOnWay c₀ ts)
        (read_directly ch disk t (slots, c)) kept
        (rw (f.there, place-filled c₀ t ts slots c s f.there way within f.room (omega arith))
          (place_and_ship-way c₀ t ts slots c s f.there way
            (λ z. contents_none disk slots i ts _ fits (omega arith))))

  pub loop-IsGoing :
      (c₀ : ch.State) (ts : List ExtentTask) (w : Shelf ch)
      → IsGoing c₀ ts w
      → All (λ t. end_of t ≤ length disk) ts
      → Through (λ v. HasSent c₀ v.1) (IsGoing c₀ []) (then_loop (read_directly ch disk) ts w)
  loop-IsGoing c₀ [] w h within = h
  loop-IsGoing c₀ (t ∷ ts) w h (p, within) =
      and_then-Through (λ v. HasSent c₀ v.1) (IsGoing c₀ ts) (IsGoing c₀ [])
        (read_directly ch disk t w) (then_loop (read_directly ch disk) ts)
        (step-IsGoing c₀ t ts w h p) (λ v k. loop-IsGoing c₀ ts v k within)
