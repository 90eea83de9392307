-- ===== src/RawApfs/Shards.antt =====
-- `SharedBlockCache` of src/raw_apfs.rs: the shards, each behind a lock of its own.
pub mod Bound
use tzip.Prelude.{
  ℕ, zero, suc, ◌+◌, ◌/◌, ◌%◌, ◌^◌, ◌==◌, max, Option, List, [], ◌∷◌, if◌then◌else◌, length,
  get_elem?, replicate, ◌>>=◌,
}
use tzip.Bytes.{Bytes}
use tzip.RawApfs.Cache.{BlockCacheInner, get, put}
use tzip.RawApfs.Cache

abbrev pub shard_count : ℕ
shard_count = 16

pub record SharedBlockCache : Type 0 where
  pub shards : List BlockCacheInner
  pub block_shift : ℕ

abbrev pub at_index {ℓ} : {A : Type ℓ} → ℕ → (A → A) → List A → List A
at_index i f [] = []
at_index zero f (x ∷ xs) = f x ∷ xs
at_index (suc i) f (x ∷ xs) = x ∷ at_index i f xs

unfoldable pub shard_for : SharedBlockCache → ℕ → ℕ
shard_for c off = off / 2 ^ c.block_shift % length c.shards

unfoldable pub shared_get : SharedBlockCache → ℕ → Option Bytes
shared_get c off = do s ← get_elem? c.shards (shard_for c off); get s off

unfoldable pub shared_put : SharedBlockCache → ℕ → Bytes → SharedBlockCache
shared_put c off bytes = record c {
  shards = at_index (shard_for c off) (λ s. put s off bytes) c.shards;
}

-- `trailing_zeros` of a number of 32 bits, the number of bits as fuel.
unfoldable pub trailing_zeros : ℕ → ℕ → ℕ
trailing_zeros zero n = 0
trailing_zeros (suc bits) n =
    let more = trailing_zeros bits (n / 2) in if n % 2 == 0 then more + 1 else 0

unfoldable pub new_shared_block_cache : ℕ → ℕ → SharedBlockCache
new_shared_block_cache total_capacity_blocks block_size =
    let per_shard = max (total_capacity_blocks / shard_count) 1 in
    record {
      shards = replicate shard_count (Cache.new per_shard block_size);
      block_shift = trailing_zeros 32 (block_size % 2 ^ 32);
    }
