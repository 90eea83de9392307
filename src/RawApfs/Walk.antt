-- ===== src/RawApfs/Walk.antt =====
-- `walk_root` and `walk_dir` of src/raw_apfs.rs: the files below a root, as they are found. A channel that
-- is closed ends the directory at hand, and is no error.
pub mod Included
use tzip.Prelude.{
  unwrap_or, ℕ, zero, suc, ◌==◌, Bool, true, false, ◌||◌, Option, none, some, List, [], ◌∷◌, ◌++◌,
  if◌then◌else◌, map, length,
}
use tzip.Prelude.Assoc.{Map, insert, lookup}
use tzip.Bytes.{Bytes}
use tzip.Time.Dos.{dos_epoch}
use tzip.Walk.Item.{WorkItem}
use tzip.Walk.Name.{slash, trim_start, archive_prefix_for_root}
use tzip.Walk.Glob.{is_excluded}
use tzip.Channel.{Channel, Outcome, and_then, then_loop}
use tzip.RawApfs.Volume.{Volume, EntryKind, InodeVal}
use tzip.RawApfs.Oid.{OidCache, cached_oid, child_rel, cache_children, resolve_oid}
use tzip.RawApfs.Bulk.Meta.{rel_str, range_of, tight}

abbrev pub Child : Type 0
Child = Bytes × ℕ

-- Symlinks go with the files.
unfoldable pub files_of : List (Bytes × ℕ × EntryKind) → List Child
files_of [] = []
files_of ((name, oid, EntryKind.file) ∷ es) = (name, oid) ∷ files_of es
files_of ((name, oid, EntryKind.symlink) ∷ es) = (name, oid) ∷ files_of es
files_of ((name, oid, EntryKind.directory) ∷ es) = files_of es

unfoldable pub dirs_of : List (Bytes × ℕ × EntryKind) → List Child
dirs_of [] = []
dirs_of ((name, oid, EntryKind.file) ∷ es) = dirs_of es
dirs_of ((name, oid, EntryKind.symlink) ∷ es) = dirs_of es
dirs_of ((name, oid, EntryKind.directory) ∷ es) = (name, oid) ∷ dirs_of es

-- `format!("{}/{}", prefix, name)`, or the name alone under an empty prefix.
abbrev pub child_prefix : Bytes → Bytes → Bytes
child_prefix [] name = name
child_prefix (c ∷ prefix) name = (c ∷ prefix) ++ (slash ∷ name)

-- `Path::join` with a name that is not absolute: a slash between the two unless there is one.
unfoldable pub join_path : Bytes → Bytes → Bytes
join_path [] name = name
join_path (c ∷ []) name = if c == slash then c ∷ name else c ∷ slash ∷ name
join_path (c ∷ d ∷ dir) name = c ∷ join_path (d ∷ dir) name

unfoldable pub put_inodes : List (ℕ × InodeVal) → Map InodeVal → Map InodeVal
put_inodes [] m = m
put_inodes ((oid, inode) ∷ inodes) m = put_inodes inodes (insert oid inode m)

unfoldable pub prefetch : Volume → List Child → Map InodeVal → Map InodeVal
prefetch vol [] m = m
prefetch vol (f ∷ files) m =
    let oids : List ℕ = map (λ (c : Child). c.1) (f ∷ files) in
    let (low, high) = range_of oids in
    if tight 16 (length (f ∷ files)) (low, high)
    then elim (vol.batch_inodes_in_range low high) [ some inodes ↦ put_inodes inodes m | none ↦ m ]
    else m

abbrev pub found_item : Bytes → Bytes → WorkItem
found_item path name = record {
  path = path;
  name_in_archive = name;
  size = 0;
  mtime = dos_epoch;
  dirfd = none;
  basename = none;
}

module _ (ch : Channel WorkItem) where
  -- The two caches and the channel.
  abbrev pub Walker : Type 0
  Walker = OidCache × Map InodeVal × ch.State

  abbrev pub sent_item : OidCache → Map InodeVal → ch.State → Option ch.State → Outcome Walker
  sent_item c m s none = Outcome.closed (c, m, s)
  sent_item c m s (some s') = Outcome.next (c, m, s')

  unfoldable pub emit : WorkItem → Walker → Outcome Walker
  emit item (c, m, s) = sent_item c m s (ch.send item s)

  module _ (exclude : List Bytes) where
    unfoldable pub emit_file : Bytes → Bytes → Child → Walker → Outcome Walker
    emit_file dir_abs prefix (name, oid) w =
        let archive_name : Bytes = child_prefix prefix name in
        if is_excluded archive_name exclude || is_excluded name exclude
        then Outcome.next w
        else emit (found_item (join_path dir_abs name) archive_name) w

    -- `return Ok(())` where the files end in a closed channel.
    abbrev pub then_dirs : Outcome Walker → (Walker → Outcome Walker) → Outcome Walker
    then_dirs (Outcome.failed w) f = Outcome.failed w
    then_dirs Outcome.panicked f = Outcome.panicked
    then_dirs (Outcome.closed w) f = Outcome.next w
    then_dirs (Outcome.next w) f = f w

    module _ (vol : Volume) where
      -- The files of a directory, then its subdirectories by `walk`.
      abbrev pub walk_entries :
          (Bytes → Bytes → Bytes → Child → Walker → Outcome Walker)
          → Bytes
          → Bytes
          → Bytes
          → Option (List (Bytes × ℕ × EntryKind))
          → Walker
          → Outcome Walker
      walk_entries walk dir_abs dir_rel prefix none w = Outcome.failed w
      walk_entries walk dir_abs dir_rel prefix (some entries) (c, m, s) =
          let files : List Child = files_of entries in
          let seen : Walker = (cache_children dir_rel entries c, prefetch vol files m, s) in
          then_dirs (then_loop (emit_file dir_abs prefix) files seen)
            (then_loop (walk dir_abs dir_rel prefix) (dirs_of entries))

      -- On fuel: the depth of the tree. It panics where the fuel runs out.
      unfoldable pub walk_dir : ℕ → Bytes → Bytes → ℕ → Bytes → Walker → Outcome Walker
      walk_dir zero dir_abs dir_rel dir_oid prefix w = Outcome.panicked
      walk_dir (suc depth) dir_abs dir_rel dir_oid prefix w =
          walk_entries
            (λ abs rel pre child.
              walk_dir depth (join_path abs child.0) (child_rel rel child.0) child.1
                (child_prefix pre child.0))
            dir_abs dir_rel prefix (vol.list_directory_names_by_oid dir_oid) w

      module _ (strip_mount file_name canonicalize : Bytes → Option Bytes)
          (basename_only : Bool) where
        -- A failed send of the one file is ignored.
        abbrev pub ignore_closed : Outcome Walker → Outcome Walker
        ignore_closed o = then_dirs o (λ w. Outcome.next w)

        abbrev pub emit_root :
            Bytes → Bytes → OidCache × Option ℕ → Map InodeVal → ch.State → Outcome Walker
        emit_root root_abs name (c, none) m s = Outcome.next (c, m, s)
        emit_root root_abs name (c, some oid) m s =
            if is_excluded name exclude
            then Outcome.next (c, m, s)
            else ignore_closed (emit (found_item root_abs name) (c, m, s))

        abbrev pub walk_opened : ℕ → Bytes → Bytes → Bytes → Option ℕ → Walker → Outcome Walker
        walk_opened depth root_abs rel name (some oid) (c, m, s) =
            walk_dir depth root_abs rel oid name ((rel, oid) ∷ c, m, s)
        walk_opened depth root_abs rel name none (c, m, s) =
            emit_root root_abs name
              (elim (cached_oid rel c) [ some oid ↦ (c, some oid) | none ↦ resolve_oid vol rel c ])
              m s

        unfoldable pub walk_root : ℕ → Bytes → Walker → Outcome Walker
        walk_root depth cli_root w =
            let root_abs : Bytes = unwrap_or (canonicalize cli_root) cli_root in
            let rel : Bytes = rel_str strip_mount root_abs in
            let name : Bytes = archive_prefix_for_root file_name cli_root basename_only in
            walk_opened depth root_abs rel name (vol.open_directory rel) w
