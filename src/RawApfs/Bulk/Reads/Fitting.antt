-- ===== src/RawApfs/Bulk/Reads/Fitting.antt =====
-- Tasks of src/raw_apfs.rs against the slots that they fill.
use mathlib.Core.Path.{subst}
use tzip.Prelude.{
  ℕ, zero, suc, ◌+◌, ◌≤◌, ◌<◌, ◌==◌, ◌≡◌, ◌≢◌, refl, sym, ap, ◌∙◌, arith, leb, Bool-cases, inl, inr,
  ◌⊎◌, some, List, [], ◌∷◌, All, length, get_elem?, if◌then◌else◌, ==_iff, some-inj,
}
use tzip.Prelude.Sort.{insert_by_key, sort_by_key, sort_by_key-All}
use tzip.RawApfs.Bulk.Task.{Slot, ExtentTask}
use tzip.RawApfs.Bulk.Reads.{set_at}

module _ {A : Type 0} where
  pub get_elem?-set_at_same :
      (i : ℕ) (x y : A) (xs : List A)
      → get_elem? xs i ≡ some x
      → get_elem? (set_at i y xs) i ≡ some y
  get_elem?-set_at_same i x y [] h = absurd cc
  get_elem?-set_at_same zero x y (z ∷ xs) h = refl
  get_elem?-set_at_same (suc i) x y (z ∷ xs) h = get_elem?-set_at_same i x y xs h

  pub get_elem?-set_at_other :
      (i j : ℕ) (y : A) (xs : List A) → i ≢ j → get_elem? (set_at i y xs) j ≡ get_elem? xs j
  get_elem?-set_at_other i j y [] d = refl
  get_elem?-set_at_other zero zero y (z ∷ xs) d = absurd (d refl)
  get_elem?-set_at_other zero (suc j) y (z ∷ xs) d = refl
  get_elem?-set_at_other (suc i) zero y (z ∷ xs) d = refl
  get_elem?-set_at_other (suc i) (suc j) y (z ∷ xs) d =
      get_elem?-set_at_other i j y xs (λ e. d (ap suc e))

-- A slot changes, the others do not.
pub each-set_at :
    {A : Type 0} (Q : ℕ → A → Type 0) (i : ℕ) (x y : A) (xs : List A)
    → get_elem? xs i ≡ some x
    → Q i y
    → ((j : ℕ) (z : A) → j ≢ i → get_elem? xs j ≡ some z → Q j z)
    → (j : ℕ) (z : A) → get_elem? (set_at i y xs) j ≡ some z
    → Q j z
each-set_at Q i x y xs there q others j z g = elim (Bool-cases (j == i)) [
  | inl e ↦
      let here : i ≡ j = sym ((==_iff j i).0 e) in
      let one : some y ≡ some z =
        sym (get_elem?-set_at_same i x y xs there) ∙ (ap (get_elem? (set_at i y xs)) here ∙ g) in
      subst (λ k. Q k z) here (subst (λ v. Q i v) (some-inj one) q)
  | inr d ↦
      let other : j ≢ i = λ e. ground arith in
      others j z other (sym (get_elem?-set_at_other i j y xs (λ e. other (sym e))) ∙ g)
]

-- What the tasks still bring to a slot.
abbrev pub owed : ℕ → List ExtentTask → ℕ
owed i [] = 0
owed i (t ∷ ts) = (if t.slot_idx == i then t.length else 0) + owed i ts

-- A task brings bytes, and its slot has the room.
pub record IsFitting (slots : List Slot) (t : ExtentTask) : Type 0 where
  pub positive : 0 < t.length
  pub slot : Slot
  pub there : get_elem? slots t.slot_idx ≡ some slot
  pub room : t.file_offset + t.length ≤ length slot.bytes

-- Every task fits, and a slot waits for the bytes that the tasks bring to it.
abbrev pub IsReady : List ExtentTask → List Slot → Type 0
IsReady ts slots =
    All (IsFitting slots) ts
    × ((i : ℕ) (s : Slot) → get_elem? slots i ≡ some s → s.remaining ≡ owed i ts)

-- Slot `i` changes; it keeps its room, or no task is left for it.
module _ (slots : List Slot) (i : ℕ) (s s' : Slot) (there : get_elem? slots i ≡ some s) where
  IsFitting-kept :
      (t : ExtentTask)
      → IsFitting slots t
      → (length s'.bytes ≡ length s.bytes) ⊎ (t.slot_idx ≢ i)
      → IsFitting (set_at i s' slots) t
  IsFitting-kept t f (inr d) = record {
    positive = f.positive;
    slot = f.slot;
    there = get_elem?-set_at_other i t.slot_idx s' slots (λ e. d (sym e)) ∙ f.there;
    room = f.room;
  }
  IsFitting-kept t f (inl same) = elim (Bool-cases (t.slot_idx == i)) [
    | inr d ↦ record {
      positive = f.positive;
      slot = f.slot;
      there = get_elem?-set_at_other i t.slot_idx s' slots (λ e. ground arith) ∙ f.there;
      room = f.room;
    }
    | inl e ↦
        let here : t.slot_idx ≡ i = (==_iff t.slot_idx i).0 e in
        let one : some f.slot ≡ some s = sym f.there ∙ (ap (get_elem? slots) here ∙ there) in
        let len : length f.slot.bytes ≡ length s.bytes =
          ap (λ (x : Slot). length x.bytes) (some-inj one) in
        let room : t.file_offset + t.length ≤ length f.slot.bytes = f.room in
        record {
          positive = f.positive;
          slot = s';
          there =
              ap (get_elem? (set_at i s' slots)) here ∙ get_elem?-set_at_same i s s' slots there;
          room = omega arith;
        }
  ]

  fits_kept :
      (ts : List ExtentTask)
      → All (IsFitting slots) ts
      → (length s'.bytes ≡ length s.bytes) ⊎ (owed i ts ≡ 0)
      → All (IsFitting (set_at i s' slots)) ts
  fits_kept [] h room = tt
  fits_kept (t ∷ ts) (f, h) (inl same) = (IsFitting-kept t f (inl same), fits_kept ts h (inl same))
  fits_kept (t ∷ ts) (f, h) (inr gone) =
      let positive : 0 < t.length = f.positive in
      let other : t.slot_idx ≢ i = λ e. ground arith in
      (IsFitting-kept t f (inr other), fits_kept ts h (inr (omega arith)))

  pub set_at-IsReady :
      (ts : List ExtentTask)
      → s'.remaining ≡ owed i ts
      → (length s'.bytes ≡ length s.bytes) ⊎ (owed i ts ≡ 0)
      → All (IsFitting slots) ts
      → ((j : ℕ) (x : Slot) → j ≢ i → get_elem? slots j ≡ some x → x.remaining ≡ owed j ts)
      → IsReady ts (set_at i s' slots)
  set_at-IsReady ts r room fits owes = (
    fits_kept ts fits room,
    each-set_at (λ j x. x.remaining ≡ owed j ts) i s s' slots there r owes,
  )

-- Sorting leaves what is owed to a slot.
module _ (i : ℕ) (key : ExtentTask → ℕ) where
  owed-insert_by_key :
      (t : ExtentTask) (ts : List ExtentTask) → owed i (insert_by_key key t ts) ≡ owed i (t ∷ ts)
  unfolding insert_by_key
  owed-insert_by_key t [] = refl
  owed-insert_by_key t (u ∷ ts) = elim (Bool-cases (leb (key t) (key u))) [
    | inl first ↦ rw first refl
    | inr later ↦ rw later (omega (arith, owed-insert_by_key t ts))
  ]

  owed-sort_by_key : (ts : List ExtentTask) → owed i (sort_by_key key ts) ≡ owed i ts
  unfolding sort_by_key
  owed-sort_by_key [] = refl
  owed-sort_by_key (t ∷ ts) =
      omega (arith, owed-insert_by_key t (sort_by_key key ts), owed-sort_by_key ts)

pub sort_by_key-IsReady :
    (key : ExtentTask → ℕ) (slots : List Slot) (ts : List ExtentTask)
    → IsReady ts slots
    → IsReady (sort_by_key key ts) slots
sort_by_key-IsReady key slots ts (fits, owes) = (
  sort_by_key-All key (IsFitting slots) ts fits,
  λ i s g. owes i s g ∙ sym (owed-sort_by_key i key ts),
)
