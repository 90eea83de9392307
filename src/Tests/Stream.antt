-- ===== src/Tests/Stream.antt =====
-- src/walker.rs: a directory with two files and a directory, found in two orders.
use mathlib.Core.List.{Permᴰ}
use tzip.Prelude.{ℕ, ◌≡◌, refl, true, false, none, Option, some, List, [], ◌∷◌, inr}
use tzip.Prelude.SortBy.{bytes_le, sort_by, insert_by, Distinct}
use tzip.Bytes.{Bytes}
use tzip.Walk.Item.{WorkItem}
use tzip.Walk.Glob.{is_excluded}
use tzip.Walk.Name.{archive_name, archive_prefix_for_root, trim_end, trim_start}
use tzip.Time.Dos.{unix_to_dos, dos_fields, as_i32, clamp_secs, i32_of_bits, shl16}
use tzip.Time.Civil.{civil_from_days, civil_of, month_day, of_doe, yoe_of}
use tzip.Walk.Stream.{
  Metadata, DirEntry, Disk, build_item, dos_time_from_meta, walk_root, walk_stream, walk,
}
use tzip.Walk.Stream.Sorted.{by_name, walk-sorted}
use tzip.Tests.Toy.{open_channel}

abbrev meta : Metadata
meta = record { len = 5; modified = none }

abbrev file : ℕ → Option DirEntry
file c = some (record { path = 47 ∷ c ∷ []; is_file = true; metadata = some meta })

abbrev directory : Option DirEntry
directory = some (record { path = 47 ∷ 99 ∷ []; is_file = false; metadata = none })

abbrev disk : Disk
disk = record {
  canonicalize = λ p. some (47 ∷ []);
  is_file = λ p. false;
  metadata = λ p. some meta;
  file_name = λ p. none;
  strip_prefix = λ base p. none;
}

abbrev one_way : ℕ → Bytes → List (Option DirEntry)
one_way n root = file 98 ∷ directory ∷ file 97 ∷ []

abbrev other_way : ℕ → Bytes → List (Option DirEntry)
other_way n root = directory ∷ file 98 ∷ file 97 ∷ []

abbrev roots : List Bytes
roots = (47 ∷ []) ∷ []

abbrev item : ℕ → WorkItem
item c = record {
  path = 47 ∷ c ∷ [];
  name_in_archive = c ∷ [];
  size = 5;
  mtime = (544, 0);
  dirfd = none;
  basename = none;
}

abbrev items : List WorkItem
items = item 97 ∷ item 98 ∷ []

walked : walk disk [] false (open_channel WorkItem) one_way 4 bytes_le [] roots true ≡ some items
unfolding walk walk_stream walk_root is_excluded sort_by insert_by bytes_le build_item archive_name
    archive_prefix_for_root trim_end trim_start dos_time_from_meta unix_to_dos dos_fields as_i32
    civil_from_days civil_of month_day of_doe yoe_of clamp_secs i32_of_bits shl16
walked = refl

apart : Distinct by_name items
unfolding bytes_le
apart = (((inr refl), tt), (tt, tt))

walk-sorted_example :
    walk disk [] false (open_channel WorkItem) other_way 1 bytes_le [] roots true ≡ some items
walk-sorted_example =
    walk-sorted disk [] false one_way other_way 4 1 (λ root. Permᴰ.swap refl refl)
      (open_channel WorkItem) (λ x s. (_, refl)) bytes_le [] refl roots items apart walked
