-- ===== src/RawApfs/Bulk/Meta.antt =====
-- Phases 1a to 1c of `bulk_read_window` in src/raw_apfs.rs: object ids, inodes and extents of a window,
-- from the caches, from scans over a range, or one by one. `strip_mount` is `Path::strip_prefix` with
-- the mount point. The counters of `ReadStats` are left out.
use tzip.Prelude.{
  unwrap_or, ℕ, ◌-◌, ◌*◌, ◌^◌, leb, min, max, Bool, Option, none, some, List, [], ◌∷◌, ◌++◌,
  if◌then◌else◌, length, map,
}
use tzip.Prelude.Assoc.{Map, lookup, insert}
use tzip.Bytes.{Bytes}
use tzip.Walk.Item.{WorkItem}
use tzip.Walk.Name.{slash, trim_start}
use tzip.RawApfs.Volume.{Volume, InodeVal, FileExtentVal, Extents}
use tzip.RawApfs.Oid.{OidCache, resolve_oid}

-- The caches of `RawApfsSource`.
pub record Caches : Type 0 where
  pub oid_cache : OidCache
  pub inode_cache : Map InodeVal
  pub extent_cache : Map Extents

unfoldable pub rel_str : (Bytes → Option Bytes) → Bytes → Bytes
rel_str strip_mount path = slash ∷ trim_start (unwrap_or (strip_mount path) path)

-- `w.entry(k).or_insert(v)`
unfoldable pub or_insert : {A : Type 0} → ℕ → A → Map A → Map A
or_insert k v m = elim (lookup k m) [ none ↦ insert k v m | some x ↦ m ]

-- The least and the greatest number, from the start values of the fold.
unfoldable pub range_of : List ℕ → ℕ × ℕ
range_of [] = (2 ^ 64 - 1, 0)
range_of (n ∷ ns) = let (low, high) = range_of ns in (min n low, max n high)

-- The guard on a scan: `range <= n.saturating_mul(32).max(64)`.
unfoldable pub tight : ℕ → ℕ → ℕ × ℕ → Bool
tight factor n (low, high) = leb (high - low) (max (min (n * factor) (2 ^ 64 - 1)) 64)

module _ (vol : Volume) (strip_mount : Bytes → Option Bytes) where
  -- An item whose id is not found is left out.
  unfoldable pub resolve_window :
      List (ℕ × WorkItem) → OidCache → OidCache × List (ℕ × WorkItem × ℕ)
  resolve_window [] c = (c, [])
  resolve_window ((idx, item) ∷ window) c =
      let (c', found) = resolve_oid vol (rel_str strip_mount item.path) c in
      let (c'', rest) = resolve_window window c' in
      (c'', elim found [ some oid ↦ (idx, item, oid) ∷ rest | none ↦ rest ])

unfoldable pub add_inodes : List (ℕ × InodeVal) → Map InodeVal → Map InodeVal
add_inodes [] m = m
add_inodes ((oid, inode) ∷ inodes) m = add_inodes inodes (or_insert oid inode m)

module _ (vol : Volume) where
  unfoldable pub scan_inodes : List (ℕ × WorkItem × ℕ) → Map InodeVal → Map InodeVal
  scan_inodes [] m = m
  scan_inodes (r ∷ rs) m =
      let oids : List ℕ = map (λ (e : ℕ × WorkItem × ℕ). e.2) (r ∷ rs) in
      let (low, high) = range_of oids in
      if tight 32 (length (r ∷ rs)) (low, high)
      then elim (vol.batch_inodes_in_range low high) [
        | some inodes ↦ add_inodes inodes m
        | none ↦ m
      ]
      else m

  -- The inode from the cache, or looked up and cached.
  unfoldable pub inode_of : ℕ → Map InodeVal → Map InodeVal × Option InodeVal
  inode_of oid m = elim (lookup oid m) [
    | some inode ↦ (m, some inode)
    | none ↦ elim (vol.lookup_inode_by_oid oid) [
      | some inode ↦ (insert oid inode m, some inode)
      | none ↦ (m, none)
    ]
  ]

  unfoldable pub fetch_inodes :
      List (ℕ × WorkItem × ℕ) → Map InodeVal → Map InodeVal × List (ℕ × WorkItem × ℕ × InodeVal)
  fetch_inodes [] m = (m, [])
  fetch_inodes ((idx, item, oid) ∷ resolved) m =
      let (m', found) = inode_of oid m in
      let (m'', rest) = fetch_inodes resolved m' in
      (m'', elim found [ some inode ↦ (idx, item, oid, inode) ∷ rest | none ↦ rest ])

-- `entry(pid).or_default().push(..)`
unfoldable pub add_extents : List (ℕ × ℕ × FileExtentVal) → Map Extents → Map Extents
add_extents [] m = m
add_extents ((pid, logical_addr, val) ∷ exts) m =
    add_extents exts (insert pid (unwrap_or (lookup pid m) [] ++ ((logical_addr, val) ∷ [])) m)

module _ (vol : Volume) where
  unfoldable pub scan_extents : List (ℕ × WorkItem × ℕ × InodeVal) → Map Extents
  scan_extents [] = []
  scan_extents (p ∷ ps) =
      let pids : List ℕ = map (λ (e : ℕ × WorkItem × ℕ × InodeVal). e.3.private_id) (p ∷ ps) in
      let (low, high) = range_of pids in
      if tight 32 (length (p ∷ ps)) (low, high)
      then elim (vol.batch_extents_in_range low high) [
        | some exts ↦ add_extents exts []
        | none ↦ []
      ]
      else []
