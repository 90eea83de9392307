-- ===== src/RawApfs/Source.antt =====
-- `<RawApfsSource as Source>::read` and `whole_disk_raw` of src/raw_apfs.rs. The volume that `read`
-- borrows from the pool is a parameter.
pub mod Device
use tzip.Prelude.{ℕ, ◌==◌, ◌&&◌, leb, Option, none, some, [], ◌∷◌, ◌++◌, if◌then◌else◌, Bool}
use tzip.Prelude.Assoc.{lookup}
use tzip.Bytes.{Bytes}
use tzip.Walk.Item.{WorkItem}
use tzip.RawApfs.Volume.{Volume, InodeVal}
use tzip.RawApfs.Oid.{OidCache, resolve_oid}
use tzip.RawApfs.Bulk.Meta.{Caches, rel_str}

module _ (vol : Volume) (strip_mount : Bytes → Option Bytes) where
  abbrev pub read_cached : ℕ → Option InodeVal → Option Bytes
  read_cached oid (some inode) = vol.read_file_by_oid_with_inode oid inode
  read_cached oid none = vol.read_file_by_oid oid

  abbrev pub read_oid : Caches → OidCache × Option ℕ → Caches × Option Bytes
  read_oid caches (c, none) = (record caches { oid_cache = c }, none)
  read_oid caches (c, some oid) =
      (record caches { oid_cache = c }, read_cached oid (lookup oid caches.inode_cache))

  unfoldable pub read : WorkItem → Caches → Caches × Option Bytes
  read item caches =
      read_oid caches (resolve_oid vol (rel_str strip_mount item.path) caches.oid_cache)

-- "/dev/disk" and "/dev/rdisk"
abbrev pub dev_disk : Bytes
dev_disk = 47 ∷ 100 ∷ 101 ∷ 118 ∷ 47 ∷ 100 ∷ 105 ∷ 115 ∷ 107 ∷ []

abbrev pub dev_rdisk : Bytes
dev_rdisk = 47 ∷ 100 ∷ 101 ∷ 118 ∷ 47 ∷ 114 ∷ 100 ∷ 105 ∷ 115 ∷ 107 ∷ []

-- `str::strip_prefix`
unfoldable pub strip_str : Bytes → Bytes → Option Bytes
strip_str [] s = some s
strip_str (p ∷ ps) [] = none
strip_str (p ∷ ps) (c ∷ s) = let rest = strip_str ps s in if p == c then rest else none

abbrev pub is_ascii_digit : ℕ → Bool
is_ascii_digit c = leb 48 c && leb c 57

unfoldable pub leading_digits : Bytes → Bytes
leading_digits [] = []
leading_digits (c ∷ s) = let rest = leading_digits s in if is_ascii_digit c then c ∷ rest else []

abbrev pub rdisk : Bytes → Option Bytes
rdisk [] = none
rdisk (c ∷ n) = some (dev_rdisk ++ (c ∷ n))

abbrev pub rdisk_of : Option Bytes → Option Bytes
rdisk_of none = none
rdisk_of (some base) = rdisk (leading_digits base)

unfoldable pub whole_disk_raw : Bytes → Option Bytes
whole_disk_raw s = rdisk_of (strip_str dev_disk s)
