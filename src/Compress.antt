-- ===== src/Compress.antt =====
-- src/compress.rs: one call of a codec for each item. The codecs are crates: they are parameters here.
pub mod Decode
pub mod Reuse
use tzip.Prelude.{
  ℕ, zero, suc, ◌+◌, ◌-◌, ◌*◌, ◌/◌, ◌≤◌, min, max, Bool, true, false, not, ◌&&◌, ◌||◌, ◌==◌, ltb,
  leb, Option, none, some, List, [], ◌∷◌, ◌++◌, if◌then◌else◌, length, take, drop, ◌>>=◌, ◌>>◌,
  guard, concat,
}
use tzip.Prelude.Int.{ℤ, pos, negsuc}
use tzip.Prelude.Chunks.{chunks}
use tzip.Bytes.{Bytes}

pub data Method : Type 0 where
  store : Method
  deflate : Method
  bzip2 : Method
  lzma : Method
  zstd : Method
  xz : Method

-- `flate2::FlushCompress` and `flate2::Status`, as far as the source uses them.
pub data Flush : Type 0 where
  sync : Flush
  finish : Flush

pub data Status : Type 0 where
  ok : Status
  buf_error : Status
  stream_end : Status

-- What the source calls: `none` is an error of the codec. Levels are clamped by the source.
pub record Codecs : Type 1 where
  pub Compressor : Type 0
  pub compressor_new : ℕ → Option Compressor
  pub deflate_compress : Compressor → Bytes → Option Bytes
  -- `flate2::Compress`: a raw stream of a level, and one call on the input that is left, with room for
  -- so many bytes: the stream, what is consumed of the input, and what is written.
  pub Deflater : Type 0
  pub deflater_new : ℕ → Deflater
  pub deflater_compress : Deflater → Bytes → ℕ → Flush → Option (Deflater × ℕ × Bytes × Status)
  -- The capacity that `Vec::with_capacity` gives, and that `reserve` leaves of a capacity, for a length
  -- and a number of bytes more.
  pub with_capacity : ℕ → ℕ
  pub reserve : ℕ → ℕ → ℕ → ℕ
  pub with_capacity_le : (n : ℕ) → n ≤ with_capacity n
  pub bzip2_encode : ℕ → Bytes → Option Bytes
  -- The stream that `new_lzma_encoder` writes.
  pub lzma_alone : ℕ → Bytes → Option Bytes
  pub xz_encode : ℕ → Bytes → Option Bytes
  pub zstd_encode : ℕ → Bytes → Option Bytes

pub record CompressOut : Type 0 where
  pub bytes : Bytes
  pub gp_bit1 : Bool

-- `level.clamp(lo, hi)`
abbrev pub clamp : ℕ → ℕ → ℕ → ℕ
clamp lo hi level = max lo (min level hi)

unfoldable pub method_id : Method → ℕ
method_id store = 0
method_id deflate = 8
method_id bzip2 = 12
method_id lzma = 14
method_id zstd = 93
method_id xz = 95

unfoldable pub version_needed : Method → ℕ
version_needed store = 20
version_needed deflate = 20
version_needed bzip2 = 46
version_needed lzma = 63
version_needed zstd = 63
version_needed xz = 63

abbrev pub flush_of : Bool → Flush
flush_of true = Flush.finish
flush_of false = Flush.sync

abbrev pub is_end : Status → Bool
is_end Status.ok = false
is_end Status.buf_error = false
is_end Status.stream_end = true

abbrev pub is_ok : Status → Bool
is_ok Status.ok = true
is_ok Status.buf_error = false
is_ok Status.stream_end = false

abbrev pub chunk_size : ℕ
chunk_size = 1024 * 1024

-- LZMA-in-ZIP from an LZMA_ALONE stream: versions, the length of the properties, the properties, the
-- data without the eight bytes of the size.
unfoldable pub relayout : Bytes → Option Bytes
relayout alone =
    if ltb (length alone) 13
    then none
    else some (0x13 ∷ 0x00 ∷ 0x05 ∷ 0x00 ∷ (take 5 alone ++ drop 13 alone))

module _ (C : Codecs) where
  open C use {
    Compressor, compressor_new, deflate_compress, Deflater, deflater_new, deflater_compress,
    with_capacity, reserve, bzip2_encode, lzma_alone, xz_encode, zstd_encode,
  }

  -- `deflate_level` is -1 before the first compressor.
  pub record Scratch : Type 0 where
    pub out : Bytes
    pub compressor : Option Compressor
    pub deflate_level : ℤ

  unfoldable pub new : Scratch
  new = record { out = []; compressor = none; deflate_level = negsuc 0 }

  abbrev pub is_level : ℤ → ℕ → Bool
  is_level (pos n) lvl = n == lvl
  is_level (negsuc n) lvl = false

  abbrev pub replaced : Scratch → ℕ → Option Compressor → Scratch × Option Compressor
  replaced s lvl none = (s, none)
  replaced s lvl (some c) =
      (record { out = s.out; compressor = some c; deflate_level = pos lvl }, some c)

  abbrev pub reused : Scratch → ℕ → Option Compressor → Scratch × Option Compressor
  reused s lvl none = replaced s lvl (compressor_new lvl)
  reused s lvl (some c) =
      if is_level s.deflate_level lvl then (s, some c) else replaced s lvl (compressor_new lvl)

  unfoldable pub get_deflate : Scratch → ℕ → Scratch × Option Compressor
  get_deflate s level = reused s (clamp 0 12 level) s.compressor

  unfoldable pub lzma_for_zip : Bytes → ℕ → Option Bytes
  lzma_for_zip input level = do alone ← lzma_alone (clamp 0 9 level) input; relayout alone

  abbrev pub plain_out : Bool → Option Bytes → Option CompressOut
  plain_out bit1 o = do d ← o; some (record { bytes = d; gp_bit1 = bit1 })

  unfoldable pub compress : Method → ℕ → Bytes → Scratch → Scratch × Option CompressOut
  compress store level input s = (
    record { out = []; compressor = s.compressor; deflate_level = s.deflate_level },
    some (record { bytes = [] ++ input; gp_bit1 = false }),
  )
  compress deflate level input s =
      let taken : Scratch = record {
        out = [];
        compressor = s.compressor;
        deflate_level = s.deflate_level;
      } in
      let (s', c) = get_deflate taken level in
      (s', plain_out false (do c' ← c; deflate_compress c' input))
  compress bzip2 level input s = (s, plain_out false (bzip2_encode (clamp 1 9 level) input))
  compress lzma level input s = (s, plain_out true (lzma_for_zip input level))
  compress xz level input s = (s, plain_out false (xz_encode (clamp 0 9 level) input))
  compress zstd level input s = (s, plain_out false (zstd_encode (clamp 1 22 level) input))

  -- One round of the loop over a chunk, behind the call.
  abbrev pub after_call :
      (Deflater → ℕ → Bytes → ℕ → Option Bytes)
      → Bytes
      → Bool
      → ℕ
      → Bytes
      → ℕ
      → Deflater × ℕ × Bytes × Status
      → Option Bytes
  after_call again chunk is_last in_pos out capacity (z, consumed, produced, status) =
      let in_pos' : ℕ = in_pos + consumed in
      let out' : Bytes = out ++ produced in
      let capacity' : ℕ =
        if capacity == length out'
        then reserve capacity (length out') (max (length chunk / 4) 4096)
        else capacity in
      let rest : Option Bytes = again z in_pos' out' capacity' in
      if is_end status || (leb (length chunk) in_pos' && is_ok status && not is_last)
      then some out'
      else rest

  -- The loop over a chunk, on fuel.
  unfoldable pub chunk_loop : ℕ → Bytes → Bool → Deflater → ℕ → Bytes → ℕ → Option Bytes
  chunk_loop zero chunk is_last z in_pos out capacity = none
  chunk_loop (suc fuel) chunk is_last z in_pos out capacity =
      deflater_compress z (drop in_pos chunk) (capacity - length out) (flush_of is_last)
      >>= after_call (chunk_loop fuel chunk is_last) chunk is_last in_pos out capacity

  -- `bound`
  abbrev pub bound_of : Bytes → ℕ
  bound_of chunk = length chunk + length chunk / 100 + 128

  unfoldable pub deflate_chunk : ℕ → Bool → Bytes → Option Bytes
  deflate_chunk level is_last chunk =
      chunk_loop (suc (length chunk)) chunk is_last (deflater_new level) 0 []
        (with_capacity (bound_of chunk))

  -- Every chunk but the last ends in a sync flush; the parts are joined in the order of the chunks.
  unfoldable pub deflate_parts : ℕ → List Bytes → Option (List Bytes)
  deflate_parts level [] = some []
  deflate_parts level (c ∷ []) = do p ← deflate_chunk level true c; some (p ∷ [])
  deflate_parts level (c ∷ d ∷ cs) = do
    p ← deflate_chunk level false c
    ps ← deflate_parts level (d ∷ cs)
    some (p ∷ ps)

  unfoldable pub compress_parallel_deflate : Bytes → ℕ → Option CompressOut
  compress_parallel_deflate input level = do
    parts ← deflate_parts (clamp 0 9 level) (chunks (length input) chunk_size input)
    some (record { bytes = concat parts; gp_bit1 = false })
