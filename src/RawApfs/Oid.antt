-- ===== src/RawApfs/Oid.antt =====
-- `resolve_oid` and `split_parent_name` of src/raw_apfs.rs: object ids by path, behind a cache.
pub mod Sound
use tzip.Prelude.{ℕ, ◌==◌, Option, none, some, List, [], ◌∷◌, ◌++◌, if◌then◌else◌}
use tzip.Bytes.{Bytes, bytes_eq}
use tzip.Walk.Name.{slash, trim_start, trim_end}
use tzip.RawApfs.Volume.{Volume, EntryKind}

-- `HashMap<String, u64>`: what is inserted last is found first.
abbrev pub OidCache : Type 0
OidCache = List (Bytes × ℕ)

unfoldable pub cached_oid : Bytes → OidCache → Option ℕ
cached_oid p [] = none
cached_oid p ((q, oid) ∷ c) = if bytes_eq q p then some oid else cached_oid p c

-- `rsplit_once`: around the last such byte.
unfoldable pub rsplit_once : ℕ → Bytes → Option (Bytes × Bytes)
rsplit_once b [] = none
rsplit_once b (c ∷ s) = elim (rsplit_once b s) [
  | some (before, after) ↦ some (c ∷ before, after)
  | none ↦ if c == b then some ([], s) else none
]

abbrev pub parent_or_root : Bytes → Bytes
parent_or_root [] = slash ∷ []
parent_or_root (c ∷ parent) = c ∷ parent

unfoldable pub split_parent_name : Bytes → Bytes × Bytes
split_parent_name rel = elim (rsplit_once slash rel) [
  | some (parent, name) ↦ (parent_or_root parent, name)
  | none ↦ (slash ∷ [], rel)
]

-- `format!("{}/{}", ..)`, or `format!("/{}", ..)` under the root.
unfoldable pub child_rel : Bytes → Bytes → Bytes
child_rel parent name = trim_end parent ++ (slash ∷ name)

unfoldable pub cache_children : Bytes → List (Bytes × ℕ × EntryKind) → OidCache → OidCache
cache_children parent [] c = c
cache_children parent ((name, oid, kind) ∷ es) c =
    cache_children parent es ((child_rel parent name, oid) ∷ c)

module _ (vol : Volume) where
  abbrev pub found_in :
      Bytes → Bytes → Option (List (Bytes × ℕ × EntryKind)) → OidCache → OidCache × Option ℕ
  found_in rel parent none c = (c, none)
  found_in rel parent (some entries) c =
      let listed = cache_children parent entries c in (listed, cached_oid rel listed)

  -- The parent's id, from the cache or from the volume.
  abbrev pub open_parent : Bytes → Option ℕ → Option ℕ → OidCache → OidCache × Option ℕ
  open_parent parent (some oid) opened c = (c, some oid)
  open_parent parent none (some oid) c = ((parent, oid) ∷ c, some oid)
  open_parent parent none none c = (c, none)

  abbrev pub list_parent : Bytes → Bytes → OidCache × Option ℕ → OidCache × Option ℕ
  list_parent rel parent (c, none) = (c, none)
  list_parent rel parent (c, some oid) = found_in rel parent (vol.list_directory_names_by_oid oid) c

  abbrev pub resolve_miss : Bytes → Bytes → OidCache → OidCache × Option ℕ
  resolve_miss rel parent c =
      list_parent rel parent
        (open_parent parent (cached_oid parent c) (vol.open_directory parent) c)

  abbrev pub resolve_after : Bytes → Option ℕ → OidCache → OidCache × Option ℕ
  resolve_after rel (some oid) c = (c, some oid)
  resolve_after rel none c = resolve_miss rel (split_parent_name rel).0 c

  unfoldable pub resolve_oid : Bytes → OidCache → OidCache × Option ℕ
  resolve_oid rel c = resolve_after rel (cached_oid rel c) c
