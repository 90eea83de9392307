-- ===== src/RawApfs/Shards/Bound.antt =====
-- The shards of src/raw_apfs.rs together.
use tzip.Prelude.{
  ℕ, zero, suc, ◌+◌, ◌*◌, ◌/◌, ◌%◌, ◌^◌, ◌≤◌, ◌≡◌, ◌≢◌, refl, ap, ◌∙◌, arith, List, [], ◌∷◌, length,
  get_elem?, All,
}
use tzip.Bytes.{Bytes}
use tzip.RawApfs.Cache.{BlockCacheInner, put}
use tzip.RawApfs.Cache.Fifo.{IsValid, put-queued, put-capacity}
use tzip.RawApfs.Shards.{SharedBlockCache, at_index, shard_for, shared_get, shared_put}

-- Every shard is valid and may hold `per` blocks.
abbrev pub IsSound : ℕ → BlockCacheInner → Type 0
IsSound per s = IsValid s × (s.capacity ≡ per)

-- The blocks in all shards.
abbrev pub stored : List BlockCacheInner → ℕ
stored [] = 0
stored (s ∷ ss) = length s.map + stored ss

stored-bound :
    (per : ℕ) (ss : List BlockCacheInner) → All (IsSound per) ss → stored ss ≤ length ss * per
unfolding IsValid
stored-bound per [] h = omega arith
stored-bound per (s ∷ ss) (((_, _, within), cap), h) =
    let more : suc (length ss) * per ≡ per + length ss * per = omega arith in
    rw more (omega (arith, stored-bound per ss h, within, cap))

length-at_index :
    {A : Type 0} (i : ℕ) (f : A → A) (xs : List A) → length (at_index i f xs) ≡ length xs
length-at_index i f [] = refl
length-at_index zero f (x ∷ xs) = refl
length-at_index (suc i) f (x ∷ xs) = ap suc (length-at_index i f xs)

pub at_index-All :
    {A : Type 0} (P : A → Type 0) (i : ℕ) (f : A → A) (xs : List A)
    → ((x : A) → P x → P (f x))
    → All P xs
    → All P (at_index i f xs)
at_index-All P i f [] step h = h
at_index-All P zero f (x ∷ xs) step (p, h) = (step x p, h)
at_index-All P (suc i) f (x ∷ xs) step (p, h) = (p, at_index-All P i f xs step h)

get_elem?-at_index :
    {A : Type 0} (i j : ℕ) (f : A → A) (xs : List A)
    → i ≢ j
    → get_elem? (at_index i f xs) j ≡ get_elem? xs j
get_elem?-at_index i j f [] h = refl
get_elem?-at_index zero zero f (x ∷ xs) h = absurd (h refl)
get_elem?-at_index zero (suc j) f (x ∷ xs) h = refl
get_elem?-at_index (suc i) zero f (x ∷ xs) h = refl
get_elem?-at_index (suc i) (suc j) f (x ∷ xs) h = get_elem?-at_index i j f xs (omega arith)

put-IsSound :
    (per off : ℕ) (bytes : Bytes) (s : BlockCacheInner)
    → 1 ≤ per
    → IsSound per s
    → IsSound per (put s off bytes)
put-IsSound per off bytes s h (valid, cap) =
    let (kept, _) = put-queued s off bytes valid (omega arith) in
    (kept, put-capacity s off bytes ∙ cap)

shared_put-other :
    (c : SharedBlockCache) (off : ℕ) (bytes : Bytes) (other : ℕ)
    → shard_for c off ≢ shard_for c other
    → shared_get (shared_put c off bytes) other ≡ shared_get c other
unfolding shared_put shared_get shard_for
shared_put-other c off bytes other apart =
    let f : BlockCacheInner → BlockCacheInner = λ s. put s off bytes in
    let i = off / 2 ^ c.block_shift % length c.shards in
    let j = other / 2 ^ c.block_shift % length c.shards in
    rw (length-at_index i f c.shards, get_elem?-at_index i j f c.shards apart) refl

-- A `put` keeps every shard valid and all of them within their capacities, and leaves what the offsets
-- of other shards read as it was.
pub shared_put-bound :
    (c : SharedBlockCache) (per off : ℕ) (bytes : Bytes)
    → 1 ≤ per
    → All (IsSound per) c.shards
    → All (IsSound per) (shared_put c off bytes).shards
      × (stored (shared_put c off bytes).shards ≤ length c.shards * per)
      × ((other : ℕ)
          → shard_for c off ≢ shard_for c other
          → shared_get (shared_put c off bytes) other ≡ shared_get c other)
unfolding shared_put
shared_put-bound c per off bytes h valid =
    let f : BlockCacheInner → BlockCacheInner = λ s. put s off bytes in
    let i = shard_for c off in
    let same_length = length-at_index i f c.shards in
    let sound =
      at_index-All (IsSound per) i f c.shards (λ s. put-IsSound per off bytes s h) valid in
    (
      sound,
      rw (← same_length) (stored-bound per (at_index i f c.shards) sound),
      λ other apart. shared_put-other c off bytes other apart,
    )
