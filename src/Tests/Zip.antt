-- ===== src/Tests/Zip.antt =====
-- src/zipwriter.rs on an archive of two entries, one of them encrypted.
use tzip.Prelude.{
  ◌<◌, ◌^◌, ◌≡◌, refl, true, false, some, List, [], ◌∷◌, ◌++◌, map, arith, length, All, ◌>>=◌,
}
use tzip.Bytes.{Bytes, le}
use tzip.Zip.Entry.{EncodedEntry}
use tzip.Zip.Header.{
  needs_zip64, gpbf, aes_extra, vn, wire_crc, lfh_zip64, lfh, cdr_zip64, cdr, needs_zip64_eocd,
  eocd,
}
use tzip.Zip.Writer.{
  Sink, central_entry, new, write_entry, write_entries, write_cdrs, write_eocd64, write_end, finish,
}
use tzip.Zip.Layout.{end_records, archive}
use tzip.Zip.Layout.Written.{IsReliable, write_archive-bytes, write_archive_total}
use tzip.Zip.Reader.{read_archive}
use tzip.Zip.Reader.Headers.{IsWritable}
use tzip.Zip.RoundTrip.{member, read_archive-archive}

abbrev pub plain : EncodedEntry
plain = record {
  index = 0;
  name = b'a' ∷ b'.' ∷ b'c' ∷ [];
  body = 104 ∷ 105 ∷ [];
  uncompressed_size = 2;
  crc32 = 0xd893_2aac;
  method_on_wire = 0;
  inner_method = 0;
  encrypted = false;
  gp_bit1 = false;
  version_needed = 20;
  mtime = (33, 0);
}

abbrev pub locked : EncodedEntry
locked = record {
  index = 1;
  name = b'b' ∷ [];
  body = 1 ∷ 2 ∷ 3 ∷ [];
  uncompressed_size = 0xFFFF_FFFF;
  crc32 = 7;
  method_on_wire = 99;
  inner_method = 14;
  encrypted = true;
  gp_bit1 = true;
  version_needed = 63;
  mtime = (20_000, 30_000);
}

abbrev pub two_entries : List EncodedEntry
two_entries = plain ∷ locked ∷ []

-- The output in memory.
abbrev pub vec : Sink
vec = record {
  W = Bytes;
  contents = λ w. w;
  write_all = λ w bs. some (w ++ bs);
  flush = λ w. some w;
  contents-write_all = λ w bs w' h. some_inj h;
  contents-flush = λ w w' h. some_inj h;
}
  where
    some_inj : {a b : Bytes} → some a ≡ some b → b ≡ a
    some_inj h = cc

two_entries-IsWritable : All IsWritable two_entries
two_entries-IsWritable = omega arith

archive-short : length (archive two_entries) < 2 ^ 64
unfolding archive end_records needs_zip64_eocd lfh cdr eocd lfh_zip64 cdr_zip64 aes_extra
    central_entry vn wire_crc needs_zip64 gpbf le
archive-short = omega arith

read_archive-archive_example : read_archive (archive two_entries) ≡ some (map member two_entries)
read_archive-archive_example = read_archive-archive two_entries two_entries-IsWritable archive-short

vec-IsReliable : IsReliable vec
vec-IsReliable = record { writes = λ w bs. (w ++ bs, refl); flushes = λ w. (w, refl) }

write_archive_total_example :
    (w' : Bytes) × ((write_entries vec (new vec []) two_entries >>= finish vec) ≡ some w')
    × (w' ≡ archive two_entries)
write_archive_total_example =
    write_archive_total vec [] two_entries vec-IsReliable refl archive-short

-- The writer run on the two entries.
writer_runs :
    (write_entries vec (new vec []) two_entries >>= finish vec) ≡ some (archive two_entries)
unfolding new write_entries write_entry finish write_cdrs write_end write_eocd64 archive end_records
    needs_zip64_eocd lfh cdr eocd lfh_zip64 cdr_zip64 aes_extra central_entry vn wire_crc
    needs_zip64 gpbf le
writer_runs = refl

write_archive-bytes_example : archive two_entries ≡ archive two_entries
write_archive-bytes_example =
    write_archive-bytes vec [] two_entries (archive two_entries) refl archive-short writer_runs
