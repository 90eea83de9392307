-- ===== src/RawApfs/Cache.antt =====
-- `BlockCacheInner` of src/raw_apfs.rs: one shard of the block cache.
pub mod Fifo
use tzip.Prelude.{
  ℕ, ◌==◌, ltb, not, Bool, Option, none, some, List, [], ◌∷◌, ◌++◌, if◌then◌else◌, length,
}
use tzip.Prelude.Assoc.{Map, lookup, remove, insert}
use tzip.Bytes.{Bytes}

pub record BlockCacheInner : Type 0 where
  pub map : Map Bytes
  pub order : List ℕ
  pub capacity : ℕ
  pub block : ℕ

unfoldable pub new : ℕ → ℕ → BlockCacheInner
new capacity block = record { map = []; order = []; capacity = capacity; block = block }

unfoldable pub get : BlockCacheInner → ℕ → Option Bytes
get c off = lookup off c.map

abbrev pub is_some : Option Bytes → Bool
is_some none = Bool.false
is_some (some d) = Bool.true

-- The loop that makes room: the oldest offset goes first.
unfoldable pub evict : ℕ → List ℕ → Map Bytes → List ℕ × Map Bytes
evict capacity [] map = ([], map)
evict capacity (old ∷ order) map =
    let rest = evict capacity order (remove old map) in
    if ltb (length (old ∷ order)) capacity then (old ∷ order, map) else rest

unfoldable pub put : BlockCacheInner → ℕ → Bytes → BlockCacheInner
put c off bytes =
    if not (length bytes == c.block)
    then c
    else if is_some (lookup off c.map)
    then c
    else (let (order, map) = evict c.capacity c.order c.map in
        record {
          map = insert off bytes map;
          order = order ++ (off ∷ []);
          capacity = c.capacity;
          block = c.block;
        })
