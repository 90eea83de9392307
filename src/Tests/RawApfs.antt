-- ===== src/Tests/RawApfs.antt =====
-- A shard of one block.
use tzip.Prelude.{◌++◌, List, some, ℕ, ◌≤◌, ◌≢◌, All, ◌≡◌, refl, arith, [], ◌∷◌}
use tzip.Bytes.{Bytes, slice}
use tzip.RawApfs.Aligned.{
  AlignedRawReader, DeviceRead, read, fill, put_blocks, aligned_from, aligned_to,
}
use tzip.RawApfs.Aligned.Sound.{IsRead, read-IsRead}
use tzip.RawApfs.Source.{dev_disk, dev_rdisk, leading_digits, whole_disk_raw}
use tzip.RawApfs.Source.Device.{whole_disk_raw-append}
use tzip.RawApfs.Cache.{BlockCacheInner, put}
use tzip.RawApfs.Shards.{SharedBlockCache, shard_for, shared_get, shared_put}
use tzip.RawApfs.Shards.Bound.{IsSound, stored, shared_put-bound}
use tzip.RawApfs.Cache.Fifo.{IsValid, queued, put-queued}

abbrev full : BlockCacheInner
full = record { map = (8, 1 ∷ 2 ∷ []) ∷ []; order = 8 ∷ []; capacity = 1; block = 2 }

full-IsValid : IsValid full
unfolding IsValid
full-IsValid = (refl, (tt, tt), omega arith)

put-queued_example :
    IsValid (put full 16 (3 ∷ 4 ∷ []))
    × ((put full 16 (3 ∷ 4 ∷ [])).map ≡ queued full 16 (3 ∷ 4 ∷ []))
put-queued_example = put-queued full 16 (3 ∷ 4 ∷ []) full-IsValid (omega arith)

abbrev shared : SharedBlockCache
shared = record { shards = full ∷ full ∷ []; block_shift = 1 }

shared_put-bound_example :
    All (IsSound 1) (shared_put shared 16 (3 ∷ 4 ∷ [])).shards
    × (stored (shared_put shared 16 (3 ∷ 4 ∷ [])).shards ≤ 2)
    × ((other : ℕ)
        → shard_for shared 16 ≢ shard_for shared other
        → shared_get (shared_put shared 16 (3 ∷ 4 ∷ [])) other ≡ shared_get shared other)
shared_put-bound_example =
    shared_put-bound shared 1 16 (3 ∷ 4 ∷ []) (omega arith)
      ((full-IsValid, refl), ((full-IsValid, refl), tt))

-- A device of two blocks; the second is read across a short read.
abbrev device : Bytes
device = 1 ∷ 2 ∷ 3 ∷ 4 ∷ []

abbrev fresh : BlockCacheInner
fresh = record { map = []; order = []; capacity = 1; block = 2 }

abbrev reader : AlignedRawReader
reader = record { pos = 3; block = 2; cache = record { shards = fresh ∷ []; block_shift = 1 } }

abbrev calls : List DeviceRead
calls =
    DeviceRead.interrupted ∷ DeviceRead.brings 0 ∷ DeviceRead.brings 9 ∷ DeviceRead.brings 0 ∷ []

abbrev after : AlignedRawReader
after = record { pos = 4; block = 2; cache = shared_put reader.cache 2 (3 ∷ 4 ∷ []) }

device_reads : read device calls 5 reader ≡ some (4 ∷ [], after)
unfolding read fill put_blocks aligned_from aligned_to slice
device_reads = refl

read-IsRead_example : IsRead device 2 5 reader (4 ∷ [], after)
read-IsRead_example =
    read-IsRead device reader 5 (omega arith) (omega arith) (tt, tt) calls (4 ∷ [], after)
      device_reads

-- "/dev/disk5s1" belongs to "/dev/rdisk5".
s1-digits : leading_digits (115 ∷ 49 ∷ []) ≡ []
unfolding leading_digits
s1-digits = refl

whole_disk_raw-append_example :
    whole_disk_raw (dev_disk ++ ((53 ∷ []) ++ (115 ∷ 49 ∷ []))) ≡ some (dev_rdisk ++ (53 ∷ []))
whole_disk_raw-append_example =
    whole_disk_raw-append (53 ∷ []) (115 ∷ 49 ∷ []) (λ e. absurd cc) (refl, tt) s1-digits
