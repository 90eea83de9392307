-- ===== src/RawApfs/Bulk/Task.antt =====
-- The state of one window of `bulk_read_window` in src/raw_apfs.rs.
use tzip.Prelude.{ℕ, Bool}
use tzip.Bytes.{Bytes}
use tzip.Walk.Item.{WorkItem}

-- `bytes` is the field `data`.
pub record Slot : Type 0 where
  pub index : ℕ
  pub item : WorkItem
  pub bytes : Bytes
  pub remaining : ℕ
  pub special : Bool
  pub sent : Bool

-- Read `length` bytes at `disk_offset` into the slot `slot_idx` at `file_offset`.
pub record ExtentTask : Type 0 where
  pub disk_offset : ℕ
  pub length : ℕ
  pub slot_idx : ℕ
  pub file_offset : ℕ
