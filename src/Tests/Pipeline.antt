-- ===== src/Tests/Pipeline.antt =====
-- src/pipeline.rs: entries that arrive out of order, an encrypted entry, and a feed cut in two.
use tzip.Prelude.{
  none, ℕ, ◌≡◌, ◌≤◌, ◌<◌, refl, arith, true, false, some, List, [], ◌∷◌, All, Any, concat, length,
  replicate,
}
use tzip.Bytes.{Bytes}
use tzip.Zip.Entry.{EncodedEntry}
use tzip.Zip.Writer.{new, write_entries}
use tzip.Compress.{lzma, compress, lzma_for_zip, relayout, CompressOut}
use tzip.Compress
use tzip.Pipeline.Reorder.{write_sorted, start}
use tzip.Pipeline.Reorder.Order.{write_sorted-order, view, counted_m}
use tzip.Pipeline.Split.{split}
use tzip.Pipeline.Split.Cover.{split-cover, IsChunk}
use tzip.Channel.{RawItem}
use tzip.Pipeline.Encode.{encode_one, compressed_with}
use tzip.Pipeline.Encode.Decode.{decode, encode_one-decode}
use tzip.Tests.Zip.{two_entries, plain, locked, vec}
use tzip.Tests.Codec.Toy.{stored, stored_decoders, flipping}

all_come : (j : ℕ) → j < 2 → Any (λ e. e.index ≡ j) (locked ∷ plain ∷ [])
all_come j h = omega arith

write_sorted-order_example :
    view vec two_entries 2 (write_sorted vec (start vec (new vec [])) (locked ∷ plain ∷ []))
    ≡ counted_m vec two_entries 2 (write_entries vec (new vec []) two_entries)
write_sorted-order_example =
    write_sorted-order vec two_entries 2 (locked ∷ plain ∷ []) (new vec [])
      ((refl, omega arith), ((refl, omega arith), tt)) all_come

abbrev feed : List ℕ
feed = 1 ∷ 2 ∷ 3 ∷ []

split-cover_example :
    (concat (split 2 feed) ≡ feed) × (length (split 2 feed) ≤ 2) × All (IsChunk 2) (split 2 feed)
split-cover_example = split-cover 2 feed (omega arith) (omega arith)

abbrev item : RawItem
item = record {
  index = 0;
  item = record {
    path = 97 ∷ [];
    name_in_archive = 97 ∷ [];
    size = 2;
    mtime = (33, 0);
    dirfd = none;
    basename = none;
  };
  bytes = 5 ∷ 6 ∷ [];
}

abbrev out : CompressOut
out = record { bytes = 0x13 ∷ 0 ∷ 5 ∷ 0 ∷ 0 ∷ 0 ∷ 0 ∷ 0 ∷ 0 ∷ 5 ∷ 6 ∷ []; gp_bit1 = true }

abbrev crc : Bytes → ℕ
crc x = length x

abbrev salt : Bytes
salt = replicate 16 3

compressed_runs :
    (compressed_with stored flipping crc salt item lzma 6 (Compress.new stored) false).1 ≡ some out
unfolding compressed_with compress lzma_for_zip relayout Compress.new
compressed_runs = refl

encode_one-decode_example :
    (e : EncodedEntry) × ((encode_one stored flipping crc salt item lzma 6
        (some (112 ∷ []))
        (Compress.new stored)
        false).1
      ≡ some e)
    × (decode stored_decoders flipping (112 ∷ []) e ≡ some (5 ∷ 6 ∷ []))
encode_one-decode_example =
    encode_one-decode stored_decoders flipping crc salt refl item lzma 6 (some (112 ∷ []))
      (Compress.new stored) false out (λ h. absurd cc) compressed_runs
