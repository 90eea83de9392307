-- ===== src/RawApfs/Bulk/Window/Whole.antt =====
-- A window of src/raw_apfs.rs from its slots to what is sent.
use tzip.Prelude.{ℕ, ◌≡◌, true, ◌⊎◌, some, List, ◌++◌, All, get_elem?}
use tzip.Bytes.{Bytes}
use tzip.Channel.{RawItem, Channel}
use tzip.RawApfs.Volume.{Volume}
use tzip.RawApfs.Bulk.Task.{Slot, ExtentTask}
use tzip.RawApfs.Bulk.Reads.{Shelf}
use tzip.RawApfs.Bulk.Reads.Fitting.{owed}

-- What is sent behind `c₀`.
abbrev pub HasSentAll : (ch : Channel RawItem) → (RawItem → Type 0) → ch.State → ch.State → Type 0
HasSentAll ch P c₀ c = (out : List RawItem) × (ch.received c ≡ ch.received c₀ ++ out) × All P out

-- Every slot that bytes were to come for is sent.
abbrev pub IsDone : (ch : Channel RawItem) → List ExtentTask → Shelf ch → Type 0
IsDone ch tasks v =
    (i : ℕ) (s : Slot)
    → get_elem? v.0 i ≡ some s
    → (s.special ≡ true) ⊎ ((s.sent ≡ true) ⊎ (owed i tasks ≡ 0))
