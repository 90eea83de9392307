-- ===== src/RawApfs/Aligned/Mirror.antt =====
-- The block cache of src/raw_apfs.rs against the device.
use tzip.Prelude.{
  ℕ, zero, suc, ◌+◌, ◌-◌, ◌≤◌, ◌==◌, ◌≡◌, sym, ap, ◌∙◌, arith, not, leb, ltb, Bool-cases, inl, inr,
  some, some-inj, List, [], ◌∷◌, All, All-append, length, take, drop, get_elem?, get_elem?-All,
  length-drop, drop-drop, take-take, drop-take_comm, >>=-eq-some,
}
use tzip.Prelude.Assoc.{Map, lookup, remove, insert}
use tzip.Bytes.{Bytes, slice}
use tzip.RawApfs.Cache.{BlockCacheInner, get, put, evict, is_some}
use tzip.RawApfs.Shards.{SharedBlockCache, shard_for, shared_get, shared_put}
use tzip.RawApfs.Shards.Bound.{at_index-All}
use tzip.RawApfs.Aligned.{put_blocks}

module _ (disk : Bytes) (block : ℕ) where
  -- A block of the cache is the block of the device.
  abbrev pub IsBlock : ℕ × Bytes → Type 0
  IsBlock (off, bytes) = bytes ≡ slice off (off + block) disk

  abbrev pub IsMirror : SharedBlockCache → Type 0
  IsMirror c = All (λ s. All IsBlock s.map) c.shards

  remove-IsBlock : (k : ℕ) (m : Map Bytes) → All IsBlock m → All IsBlock (remove k m)
  unfolding remove
  remove-IsBlock k [] h = tt
  remove-IsBlock k ((j, d) ∷ m) (p, h) = elim (Bool-cases (j == k)) [
    | inl same ↦ rw same (remove-IsBlock k m h)
    | inr other ↦ rw other (p, remove-IsBlock k m h)
  ]

  evict-IsBlock :
      (capacity : ℕ) (order : List ℕ) (m : Map Bytes)
      → All IsBlock m
      → All IsBlock (evict capacity order m).1
  unfolding evict
  evict-IsBlock capacity [] m h = h
  evict-IsBlock capacity (old ∷ order) m h =
      elim (Bool-cases (ltb (length (old ∷ order)) capacity)) [
        | inl room ↦ rw room h
        | inr full ↦ rw full (evict-IsBlock capacity order (remove old m) (remove-IsBlock old m h))
      ]

  lookup-IsBlock :
      (k : ℕ) (m : Map Bytes) (d : Bytes) → All IsBlock m → lookup k m ≡ some d → IsBlock (k, d)
  unfolding lookup
  lookup-IsBlock k [] d h e = absurd cc
  lookup-IsBlock k ((j, x) ∷ m) d (p, h) e = elim (Bool-cases (j == k)) [
    | inl same ↦
        let got : some x ≡ some d = rw same at e in
        let key : j ≡ k = ground arith in
        sym (some-inj got) ∙ (p ∙ ap (λ (o : ℕ). slice o (o + block) disk) key)
    | inr other ↦ lookup-IsBlock k m d h (rw other at e)
  ]

  put-IsBlock :
      (s : BlockCacheInner) (off : ℕ) (bytes : Bytes)
      → IsBlock (off, bytes)
      → All IsBlock s.map
      → All IsBlock (put s off bytes).map
  unfolding put insert
  put-IsBlock s off bytes p h = elim (Bool-cases (not (length bytes == s.block))) [
    | inl odd ↦ rw odd h
    | inr whole ↦ elim (Bool-cases (is_some (lookup off s.map))) [
      | inl there ↦ rw (whole, there) h
      | inr new_block ↦
          let kept = evict s.capacity s.order s.map in
          rw (whole, new_block)
            (All-append IsBlock (remove off kept.1) ((off, bytes) ∷ [])
              (remove-IsBlock off kept.1 (evict-IsBlock s.capacity s.order s.map h)) (p, tt))
    ]
  ]

  shared_put-IsMirror :
      (c : SharedBlockCache) (off : ℕ) (bytes : Bytes)
      → IsBlock (off, bytes)
      → IsMirror c
      → IsMirror (shared_put c off bytes)
  unfolding shared_put
  shared_put-IsMirror c off bytes p h =
      at_index-All (λ s. All IsBlock s.map) _ (λ s. put s off bytes) c.shards
        (λ s k. put-IsBlock s off bytes p k) h

  pub shared_get-IsBlock :
      (c : SharedBlockCache) (off : ℕ) (d : Bytes)
      → IsMirror c
      → shared_get c off ≡ some d
      → IsBlock (off, d)
  unfolding shared_get get
  shared_get-IsBlock c off d h e =
      let (s, at_shard, found) =
        >>=-eq-some (get_elem? c.shards (shard_for c off)) (λ s. get s off) e in
      lookup-IsBlock off s.map d
        (get_elem?-All (λ s. All IsBlock s.map) c.shards (shard_for c off) s h at_shard) found

  pub put_blocks-IsMirror :
      (fuel abs : ℕ) (bytes : Bytes) (c : SharedBlockCache)
      → bytes ≡ take (length bytes) (drop abs disk)
      → IsMirror c
      → IsMirror (put_blocks fuel block abs bytes c)
  unfolding put_blocks slice
  put_blocks-IsMirror zero abs bytes c e h = h
  put_blocks-IsMirror (suc fuel) abs bytes c e h = elim (Bool-cases (leb block (length bytes))) [
    | inr short ↦ rw short h
    | inl whole ↦
        let le : block ≤ length bytes = ground arith in
        let width : abs + block - abs ≡ block = omega arith in
        let piece : take block bytes ≡ slice abs (abs + block) disk = rw width (
          ap (λ (b : Bytes). take block b) e ∙ take-take block (length bytes) (drop abs disk) le) in
        let len : length (drop block bytes) ≡ length bytes - block = length-drop block bytes in
        let rest : drop block bytes ≡ take (length (drop block bytes)) (drop (abs + block) disk) =
          rw len (
            ap (λ (b : Bytes). drop block b) e
            ∙ (drop-take_comm block (length bytes) (drop abs disk)
                ∙ ap (λ (b : Bytes). take (length bytes - block) b) (drop-drop block abs disk))) in
        rw whole (
          put_blocks-IsMirror fuel (abs + block) (drop block bytes)
            (shared_put c abs (take block bytes)) rest
            (shared_put-IsMirror c abs (take block bytes) piece h))
  ]
