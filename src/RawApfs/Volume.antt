-- ===== src/RawApfs/Volume.antt =====
-- What src/raw_apfs.rs asks of an `ApfsVolume` of the vendored parser: a parameter. A call that fails is
-- `none`. Of an inode and of an extent, the fields that are read.
use tzip.Prelude.{ℕ, Bool, Option, List}
use tzip.Prelude.Int.{ℤ}
use tzip.Bytes.{Bytes}

pub data EntryKind : Type 0 where
  file : EntryKind
  directory : EntryKind
  symlink : EntryKind

-- `is_symlink` is `kind() == INODE_SYMLINK_TYPE`, `size` is a method; `modify_time` is in nanoseconds.
pub record InodeVal : Type 0 where
  pub private_id : ℕ
  pub modify_time : ℤ
  pub bsd_flags : ℕ
  pub is_symlink : Bool
  pub size : ℕ

pub record FileExtentVal : Type 0 where
  pub phys_block_num : ℕ
  pub length : ℕ

-- The extents of a file, each with its place in the file.
abbrev pub Extents : Type 0
Extents = List (ℕ × FileExtentVal)

pub record Volume : Type 0 where
  pub block_size : ℕ
  pub open_directory : Bytes → Option ℕ
  pub list_directory_names_by_oid : ℕ → Option (List (Bytes × ℕ × EntryKind))
  pub batch_inodes_in_range : ℕ → ℕ → Option (List (ℕ × InodeVal))
  pub lookup_inode_by_oid : ℕ → Option InodeVal
  pub batch_extents_in_range : ℕ → ℕ → Option (List (ℕ × ℕ × FileExtentVal))
  pub lookup_extents_by_private_id : ℕ → Option Extents
  pub read_file_by_oid : ℕ → Option Bytes
  pub read_file_by_oid_with_inode : ℕ → InodeVal → Option Bytes
  pub read_raw_at : ℕ → ℕ → Option Bytes
