-- ===== src/Tests/Codec.antt =====
-- src/compress.rs and src/crypto.rs on codecs and a cipher that the laws hold for.
pub mod Toy
use tzip.Prelude.{ℕ, ◌≡◌, refl, arith, ◌++◌, some, List, [], ◌∷◌, length, replicate}
use tzip.Bytes.{Bytes}
use tzip.Prelude.Chunks.{chunks}
use tzip.Compress.{
  Method, lzma, deflate, CompressOut, new, compress, method_id, deflate_parts, lzma_for_zip,
  relayout, get_deflate,
}
use tzip.Compress.Decode.{decompress, compress-decompress}
use tzip.Compress.Reuse.{IsFresh, compress-reuse}
use tzip.Crypto.{encrypt_with_salt}
use tzip.Crypto.Envelope.{envelope, encrypt_with_salt-envelope}
use tzip.Tests.Codec.Toy.{stored, stored_decoders, flipping}

abbrev input : Bytes
input = 5 ∷ 6 ∷ []

abbrev lzma_out : CompressOut
lzma_out = record {
  bytes = 0x13 ∷ 0 ∷ 5 ∷ 0 ∷ 0 ∷ 0 ∷ 0 ∷ 0 ∷ 0 ∷ 5 ∷ 6 ∷ [];
  gp_bit1 = mathlib.Core.Bool.true;
}

lzma_runs : (compress stored lzma 6 input (new stored)).1 ≡ some lzma_out
unfolding compress lzma_for_zip relayout new
lzma_runs = refl

compress-decompress_example : decompress stored_decoders 14 lzma_out.bytes ≡ some input
unfolding method_id
compress-decompress_example =
    compress-decompress stored_decoders lzma 6 input (new stored) lzma_out lzma_runs

new_scratch : IsFresh stored (new stored)
unfolding new
new_scratch = λ c n h k. absurd cc

compress-reuse_example :
    ((compress stored deflate 6 input (new stored)).1
      ≡ (compress stored deflate 6 input (new stored)).1)
    × IsFresh stored ((compress stored deflate 6 input (new stored)).0)
compress-reuse_example = compress-reuse stored deflate 6 input (new stored) new_scratch

encrypt_with_salt-envelope_example :
    encrypt_with_salt flipping
      (112 ∷ [])
      (replicate 16 3)
      (replicate 18 0 ++ (input ++ replicate 10 0))
      2
    ≡ some (envelope flipping (112 ∷ []) (replicate 16 3) input)
encrypt_with_salt-envelope_example =
    encrypt_with_salt-envelope flipping (112 ∷ []) (replicate 16 3) (replicate 18 0) input
      (replicate 10 0) refl refl refl
