-- ===== src/RawApfs/Aligned.antt =====
-- `AlignedRawReader` of src/raw_apfs.rs: reads of any range over a device that reads whole blocks. What the
-- reads of the device bring is an argument: each is interrupted, fails, or brings up to so many bytes. A
-- place on the device is below 2^63; the end of a read saturates at 2^64 - 1 as in the source.
pub mod Mirror
pub mod Sound
use tzip.Prelude.{
  ℕ, zero, suc, ◌+◌, ◌-◌, ◌*◌, ◌/◌, ◌%◌, ◌^◌, ◌==◌, leb, ltb, min, Bool, Option, none, some, List,
  [], ◌∷◌, ◌++◌, if◌then◌else◌, length, take, drop,
}
use tzip.Prelude.Int.{ℤ, pos, negsuc}
use tzip.Bytes.{Bytes, slice}
use tzip.RawApfs.Shards.{SharedBlockCache, shared_get, shared_put}

abbrev pub read_ahead : ℕ
read_ahead = 256 * 1024

pub record AlignedRawReader : Type 0 where
  pub pos : ℕ
  pub block : ℕ
  pub cache : SharedBlockCache

-- One call of `File::read`: up to `1 + n` bytes, none at the end of the device only.
pub data DeviceRead : Type 0 where
  interrupted : DeviceRead
  broken : DeviceRead
  brings : ℕ → DeviceRead

-- The loop that fills the scratch buffer with `want` bytes from `start` on; `got` is what it has so far.
-- It gives nothing where the calls end before it does.
unfoldable pub fill : Bytes → ℕ → ℕ → List DeviceRead → Bytes → Option Bytes
fill disk start want [] got = if leb want (length got) then some got else none
fill disk start want (DeviceRead.interrupted ∷ calls) got =
    let rest = fill disk start want calls got in if leb want (length got) then some got else rest
fill disk start want (DeviceRead.broken ∷ calls) got =
    if leb want (length got) then some got else none
fill disk start want (DeviceRead.brings n ∷ calls) got =
    let piece : Bytes = take (min (suc n) (want - length got)) (drop (start + length got) disk) in
    let rest = fill disk start want calls (got ++ piece) in
    if leb want (length got) then some got else if length piece == 0 then some got else rest

-- Every whole block that was read, on the number of bytes.
unfoldable pub put_blocks : ℕ → ℕ → ℕ → Bytes → SharedBlockCache → SharedBlockCache
put_blocks zero block abs bytes c = c
put_blocks (suc fuel) block abs bytes c =
    let rest =
      put_blocks fuel block (abs + block) (drop block bytes)
        (shared_put c abs (take block bytes)) in
    if leb block (length bytes) then rest else c

unfoldable pub aligned_from : ℕ → ℕ → ℕ
aligned_from block start = start / block * block

-- `checked_add`, or the end as it is.
unfoldable pub aligned_to : ℕ → ℕ → ℕ
aligned_to block end =
    if ltb (end + (block - 1)) (2 ^ 64) then (end + (block - 1)) / block * block else end

-- `n` bytes from `off` on are given out, and the reader goes on behind them.
abbrev pub moved_by : AlignedRawReader → SharedBlockCache → ℕ → ℕ → Bytes → Bytes × AlignedRawReader
moved_by r cache n off bytes =
    (slice off (off + n) bytes, record r { pos = r.pos + n; cache = cache })

abbrev pub from_device :
    AlignedRawReader → ℕ → ℕ → Bool → Option Bytes → Option (Bytes × AlignedRawReader)
from_device r want start widen none = none
from_device r want start widen (some got) =
    let filled : SharedBlockCache = put_blocks (length got) r.block start got r.cache in
    let off : ℕ = r.pos - start in
    some (moved_by r (if widen then filled else r.cache) (min want (length got - off)) off got)

-- A request that lies in one block is served from the cache.
abbrev pub from_cache :
    AlignedRawReader
    → ℕ
    → ℕ
    → Option (Bytes × AlignedRawReader)
    → Option Bytes
    → Option (Bytes × AlignedRawReader)
from_cache r want start otherwise none = otherwise
from_cache r want start otherwise (some cached) =
    let off : ℕ = r.pos - start in some (moved_by r r.cache (min want (r.block - off)) off cached)

unfoldable pub read :
    Bytes → List DeviceRead → ℕ → AlignedRawReader → Option (Bytes × AlignedRawReader)
read disk calls want r =
    let start : ℕ = aligned_from r.block r.pos in
    let len : ℕ = aligned_to r.block (min (r.pos + want) (2 ^ 64 - 1)) - start in
    let widen : Bool = ltb len read_ahead in
    let phys_len : ℕ = if widen then read_ahead else len in
    let device : Option (Bytes × AlignedRawReader) =
      from_device r want start widen (fill disk start phys_len calls []) in
    let cached : Option (Bytes × AlignedRawReader) =
      from_cache r want start device (shared_get r.cache start) in
    if want == 0 then some ([], r) else if len == r.block then cached else device

-- `SeekFrom::Start`, and `SeekFrom::Current` by the bit pattern of the sum.
unfoldable pub seek_start : ℕ → AlignedRawReader → AlignedRawReader
seek_start o r = record r { pos = o }

unfoldable pub seek_current : ℤ → AlignedRawReader → AlignedRawReader
seek_current (pos d) r = record r { pos = (r.pos + d) % 2 ^ 64 }
seek_current (negsuc d) r = record r { pos = (r.pos + (2 ^ 64 - suc d % 2 ^ 64)) % 2 ^ 64 }
