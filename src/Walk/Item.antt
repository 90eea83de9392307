-- ===== src/Walk/Item.antt =====
-- `WorkItem` of src/walker.rs. Paths are UTF-8 bytes; a directory's descriptor is a number.
use tzip.Prelude.{ℕ, Option}
use tzip.Bytes.{Bytes}

pub record WorkItem : Type 0 where
  pub path : Bytes
  pub name_in_archive : Bytes
  pub size : ℕ
  pub mtime : ℕ × ℕ
  pub dirfd : Option ℕ
  pub basename : Option Bytes
