-- ===== src/Walk/Bulk.antt =====
-- `walk_recursive` of src/bulk_walker.rs: the buffers of `getattrlistbulk` and the files in them. The bits of
-- the attributes are those of the system's headers; the numbers in a buffer are little-endian, as on every
-- machine that runs macOS. The system's answers for a directory are a list of buffers, each with the
-- number of its records, or an error; the list's end is the answer 0.
pub mod Included
use tzip.Prelude.{
  ℕ, zero, suc, ◌+◌, ◌-◌, ◌/◌, ◌%◌, ◌^◌, ◌==◌, leb, ltb, Bool, ◌&&◌, ◌||◌, Option, none, some,
  ◌>>=◌, List, [], ◌∷◌, ◌++◌, if◌then◌else◌, length, drop, unwrap_or,
}
use tzip.Prelude.Int.{pos}
use tzip.Bytes.{Bytes, read_le, slice, bytes_eq}
use tzip.Time.Dos.{unix_to_dos}
use tzip.Walk.Item.{WorkItem}
use tzip.Walk.Name.{slash}
use tzip.Walk.Glob.{is_excluded}
use tzip.Channel.{Channel, Outcome, and_then, then_loop}
use tzip.RawApfs.Walk.{join_path, child_prefix}
use tzip.Linux.Fiemap.{has_flag}

abbrev pub vreg : ℕ
vreg = 1

abbrev pub vdir : ℕ
vdir = 2

-- A slice out of the buffer's bounds panics: `none`.
abbrev pub int_at : ℕ → ℕ → Bytes → Option ℕ
int_at k p buf = do (v, rest) ← read_le k (drop p buf); some v

abbrev pub sub_at : ℕ → ℕ → Bytes → Option Bytes
sub_at p n buf = if leb (p + n) (length buf) then some (slice p (p + n) buf) else none

-- `p` and an `i32`, as `usize`.
abbrev pub add_signed : ℕ → ℕ → ℕ
add_signed p off = if ltb off (2 ^ 31) then p + off else (p + (2 ^ 64 - 2 ^ 32 + off)) % 2 ^ 64

abbrev pub align8 : ℕ → ℕ
align8 p = if p % 8 == 0 then p else p + (8 - p % 8)

-- A record without a name or a type is skipped.
pub data Found : Type 0 where
  skipped : Found
  entry : Bytes → ℕ → ℕ → Found

module _ (attr_cmn_name attr_cmn_objtype attr_file_totalsize : ℕ) where
  abbrev pub size_at : ℕ → ℕ → ℕ → Bytes → Option ℕ
  size_at returned_file objtype p buf =
      if objtype == vreg && has_flag attr_file_totalsize returned_file
      then int_at 8 (align8 p) buf
      else some 0

  abbrev pub typed : ℕ → ℕ → Bytes → ℕ → Bytes → Option Found
  typed returned_common returned_file name p buf =
      if has_flag attr_cmn_objtype returned_common
      then (do
        objtype ← int_at 4 p buf
        size ← size_at returned_file objtype (p + 4) buf
        some (Found.entry name objtype size))
      else some Found.skipped

  abbrev pub named : ℕ → ℕ → ℕ → Bytes → Option Found
  named returned_common returned_file p buf =
      if has_flag attr_cmn_name returned_common
      then (do
        off ← int_at 4 p buf
        len ← int_at 4 (p + 4) buf
        name ← sub_at (add_signed p off) (len - 1) buf
        typed returned_common returned_file name (p + 8) buf)
      else some Found.skipped

  -- A record's end and what it is.
  unfoldable pub parse_record : ℕ → Bytes → Option (ℕ × Found)
  parse_record start buf = do
    len ← int_at 4 start buf
    returned_common ← int_at 4 (start + 4) buf
    returned_file ← int_at 4 (start + 16) buf
    found ← named returned_common returned_file (start + 24) buf
    some (start + len, found)

abbrev pub is_dots : Bytes → Bool
is_dots name = bytes_eq name (46 ∷ []) || bytes_eq name (46 ∷ 46 ∷ [])

module _ (ch : Channel WorkItem) (exclude : List Bytes) where
  -- The subdirectories found so far, and the channel.
  abbrev pub DirState : Type 0
  DirState = List Bytes × ch.State

  abbrev pub sent_file : List Bytes → ch.State → Option ch.State → Outcome DirState
  sent_file subdirs s none = Outcome.closed (subdirs, s)
  sent_file subdirs s (some s') = Outcome.next (subdirs, s')

  abbrev pub file_item : Bytes → Bytes → ℕ → Bytes → ℕ → WorkItem
  file_item dir archive_name dirfd name size = record {
    path = join_path dir name;
    name_in_archive = archive_name;
    size = size;
    mtime = unix_to_dos (pos 0);
    dirfd = some dirfd;
    basename = some name;
  }

  unfoldable pub on_file : Bytes → Bytes → ℕ → Bytes → ℕ → DirState → Outcome DirState
  on_file dir prefix dirfd name size (subdirs, s) =
      let archive_name : Bytes = child_prefix prefix name in
      if is_excluded archive_name exclude || is_excluded name exclude
      then Outcome.next (subdirs, s)
      else sent_file subdirs s (ch.send (file_item dir archive_name dirfd name size) s)

  -- Symlinks, sockets and devices are skipped.
  unfoldable pub on_found : Bytes → Bytes → ℕ → Found → DirState → Outcome DirState
  on_found dir prefix dirfd Found.skipped st = Outcome.next st
  on_found dir prefix dirfd (Found.entry name objtype size) (subdirs, s) =
      if is_dots name
      then Outcome.next (subdirs, s)
      else if objtype == vreg
      then on_file dir prefix dirfd name size (subdirs, s)
      else if objtype == vdir
      then Outcome.next (subdirs ++ (join_path dir name ∷ []), s)
      else Outcome.next (subdirs, s)

  module _ (parse : ℕ → Bytes → Option (ℕ × Found)) where
    abbrev pub on_record :
        Bytes
        → Bytes
        → ℕ
        → (ℕ → DirState → Outcome DirState)
        → Option (ℕ × Found)
        → DirState
        → Outcome DirState
    on_record dir prefix dirfd more none st = Outcome.panicked
    on_record dir prefix dirfd more (some (end, found)) st =
        and_then (on_found dir prefix dirfd found st) (more end)

    unfoldable pub walk_records : Bytes → Bytes → ℕ → Bytes → ℕ → ℕ → DirState → Outcome DirState
    walk_records dir prefix dirfd buf zero offset st = Outcome.next st
    walk_records dir prefix dirfd buf (suc n) offset st =
        on_record dir prefix dirfd (walk_records dir prefix dirfd buf n) (parse offset buf) st

    abbrev pub walk_batch : Bytes → Bytes → ℕ → Option (ℕ × Bytes) → DirState → Outcome DirState
    walk_batch dir prefix dirfd none st = Outcome.failed st
    walk_batch dir prefix dirfd (some (n, buf)) st = walk_records dir prefix dirfd buf n 0 st

    module _ (file_name : Bytes → Option Bytes) (open_dir : Bytes → Option ℕ)
        (batches : ℕ → List (Option (ℕ × Bytes))) where
      abbrev pub sub_prefix : Bytes → Bytes → Bytes
      sub_prefix prefix [] = prefix
      sub_prefix prefix (c ∷ name) = child_prefix prefix (c ∷ name)

      -- Where the channel is closed, the subdirectories are left out, and it is no error.
      abbrev pub then_subdirs :
          (Bytes → ch.State → Outcome ch.State) → Outcome DirState → Outcome ch.State
      then_subdirs walk (Outcome.failed st) = Outcome.failed st.1
      then_subdirs walk Outcome.panicked = Outcome.panicked
      then_subdirs walk (Outcome.closed st) = Outcome.next st.1
      then_subdirs walk (Outcome.next st) = then_loop walk st.0 st.1

      abbrev pub walk_opened :
          (Bytes → ch.State → Outcome ch.State)
          → Bytes
          → Bytes
          → Option ℕ
          → ch.State
          → Outcome ch.State
      walk_opened walk dir prefix none s = Outcome.failed s
      walk_opened walk dir prefix (some dirfd) s =
          then_subdirs walk (then_loop (walk_batch dir prefix dirfd) (batches dirfd) ([], s))

      -- On fuel: the depth of the tree.
      unfoldable pub walk_recursive : ℕ → Bytes → Bytes → ch.State → Outcome ch.State
      walk_recursive zero dir prefix s = Outcome.panicked
      walk_recursive (suc depth) dir prefix s =
          walk_opened
            (λ sub. walk_recursive depth sub (sub_prefix prefix (unwrap_or (file_name sub) []))) dir
            prefix (open_dir dir) s
