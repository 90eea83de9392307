-- ===== src/Walk/Stream.antt =====
-- `walk_stream` and `walk` of src/walker.rs, and `walk_stream_bulk` of src/bulk_walker.rs. The calls of the
-- file system and jwalk's traversal of a directory are parameters; jwalk runs in parallel, so that its
-- entries come in any order.
pub mod Collect
pub mod Sorted
use tzip.Prelude.{
  ℕ, ◌-◌, ◌^◌, ◌≡◌, ltb, Bool, true, false, max, Option, none, some, ◌>>=◌, List, [], ◌∷◌,
  if◌then◌else◌, map, unwrap_or,
}
use tzip.Prelude.Int.{ℤ, pos, negsuc}
use tzip.Prelude.SortBy.{bytes_le, sort_by}
use tzip.Bytes.{Bytes}
use tzip.Time.Dos.{unix_to_dos}
use tzip.Walk.Item.{WorkItem}
use tzip.Walk.Name.{archive_prefix_for_root, archive_name}
use tzip.Walk.Glob.{is_excluded}
use tzip.Channel.{Channel, Outcome, then_loop}

-- `std::fs::Metadata`: the length, and the seconds since 1970 of the time of modification, if the
-- system knows it and it is not before 1970.
pub record Metadata : Type 0 where
  pub len : ℕ
  pub modified : Option ℕ

-- An entry of jwalk's traversal.
pub record DirEntry : Type 0 where
  pub path : Bytes
  pub is_file : Bool
  pub metadata : Option Metadata

pub record Disk : Type 0 where
  pub canonicalize : Bytes → Option Bytes
  pub is_file : Bytes → Bool
  pub metadata : Bytes → Option Metadata
  pub file_name : Bytes → Option Bytes
  pub strip_prefix : Bytes → Bytes → Option Bytes

-- `as i64`
abbrev pub as_i64 : ℕ → ℤ
as_i64 n = if ltb n (2 ^ 63) then pos n else negsuc (2 ^ 64 - n - 1)

unfoldable pub dos_time_from_meta : Metadata → ℕ × ℕ
dos_time_from_meta meta =
    unix_to_dos (unwrap_or (elim meta.modified [ none ↦ none | some n ↦ some (as_i64 n) ]) (pos 0))

unfoldable pub build_item : Bytes → Bytes → Metadata → WorkItem
build_item path name meta = record {
  path = path;
  name_in_archive = name;
  size = meta.len;
  mtime = dos_time_from_meta meta;
  dirfd = none;
  basename = none;
}

module _ (d : Disk) where
  abbrev pub name_of : Bytes → Bytes → Bytes → Bytes
  name_of base_dir base_name full =
      archive_name base_name (unwrap_or (d.strip_prefix base_dir full) full)

  abbrev pub prefix_of : Bool → Bytes → Bytes
  prefix_of basename_only cli_root = archive_prefix_for_root d.file_name cli_root basename_only

module _ (d : Disk) (exclude : List Bytes) (basename_only : Bool) (ch : Channel WorkItem) where
  -- `tx.send(item)`: where it fails, the walk returns `Ok(())`.
  abbrev pub sent_item : ch.State → Option ch.State → Outcome ch.State
  sent_item s none = Outcome.closed s
  sent_item s (some s') = Outcome.next s'

  abbrev pub send_meta : Bytes → Bytes → Option Metadata → ch.State → Outcome ch.State
  send_meta path name none s = Outcome.failed s
  send_meta path name (some meta) s = sent_item s (ch.send (build_item path name meta) s)

  abbrev pub send_file : Bytes → Bytes → Option Metadata → ch.State → Outcome ch.State
  send_file root base_name none s = Outcome.failed s
  send_file root base_name (some meta) s =
      if is_excluded base_name exclude
      then Outcome.next s
      else sent_item s (ch.send (build_item root base_name meta) s)

  abbrev pub walk_entry : Bytes → Bytes → Option DirEntry → ch.State → Outcome ch.State
  walk_entry root base_name none s = Outcome.failed s
  walk_entry root base_name (some e) s =
      if e.is_file
      then (if is_excluded (name_of d root base_name e.path) exclude
          then Outcome.next s
          else send_meta e.path (name_of d root base_name e.path) e.metadata s)
      else Outcome.next s

  module _ (jwalk : ℕ → Bytes → List (Option DirEntry)) (walk_threads : ℕ) where
    abbrev pub walk_path : Bytes → Bytes → Bool → ch.State → Outcome ch.State
    walk_path cli_root root true s =
        send_file root (prefix_of d basename_only cli_root) (d.metadata root) s
    walk_path cli_root root false s =
        then_loop (walk_entry root (prefix_of d basename_only cli_root))
          (jwalk (max walk_threads 1) root) s

    abbrev pub walk_canonical : Bytes → Option Bytes → ch.State → Outcome ch.State
    walk_canonical cli_root none s = Outcome.failed s
    walk_canonical cli_root (some root) s = walk_path cli_root root (d.is_file root) s

    unfoldable pub walk_root : Bytes → ch.State → Outcome ch.State
    walk_root cli_root s = walk_canonical cli_root (d.canonicalize cli_root) s

    unfoldable pub walk_stream : List Bytes → ch.State → Outcome ch.State
    walk_stream roots s = then_loop walk_root roots s

    -- `path_le` is the order of paths of the standard library.
    module _ (path_le : Bytes → Bytes → Bool) where
      abbrev pub item_le : Bool → WorkItem → WorkItem → Bool
      item_le true a b = bytes_le a.name_in_archive b.name_in_archive
      item_le false a b = path_le a.path b.path

      abbrev pub sorted_items : Bool → Outcome ch.State → Option (List WorkItem)
      sorted_items sort (Outcome.failed s) = none
      sorted_items sort Outcome.panicked = none
      sorted_items sort (Outcome.closed s) = some (sort_by (item_le sort) (ch.received s))
      sorted_items sort (Outcome.next s) = some (sort_by (item_le sort) (ch.received s))

      -- On a channel that is made for the walk, in its first state.
      unfoldable pub walk : ch.State → List Bytes → Bool → Option (List WorkItem)
      walk empty roots sort = sorted_items sort (walk_stream roots empty)

  -- `walk_stream_bulk`: `walk_dir` is `walk_recursive` of src/bulk_walker.rs.
  module _ (walk_dir : Bytes → Bytes → ch.State → Outcome ch.State) where
    abbrev pub bulk_path : Bytes → Bytes → Bool → ch.State → Outcome ch.State
    bulk_path cli_root root true s =
        send_file root (prefix_of d basename_only cli_root) (d.metadata root) s
    bulk_path cli_root root false s = walk_dir root (prefix_of d basename_only cli_root) s

    abbrev pub bulk_canonical : Bytes → Option Bytes → ch.State → Outcome ch.State
    bulk_canonical cli_root none s = Outcome.failed s
    bulk_canonical cli_root (some root) s = bulk_path cli_root root (d.is_file root) s

    unfoldable pub walk_stream_bulk : List Bytes → ch.State → Outcome ch.State
    walk_stream_bulk roots s = then_loop (λ r. bulk_canonical r (d.canonicalize r)) roots s
