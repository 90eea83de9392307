-- ===== src/Linux/Extent.antt =====
-- src/linux_raw.rs: windows of files read in the order in which they lie on the disk; and the reads of
-- `read_input` and `read_from_file` in src/platform.rs. Read-ahead and other advice to the kernel changes
-- no result, nor does the counting for `--verbose`.
pub mod Complete
pub mod Total
use tzip.Prelude.{
  ℕ, ◌-◌, ◌*◌, ◌^◌, leb, Bool, Option, none, some, ◌>>=◌, List, [], ◌∷◌, ◌++◌, if◌then◌else◌,
  length, map,
}
use tzip.Prelude.Chunks.{chunks}
use tzip.Prelude.Sort.{sort_by_key}
use tzip.Bytes.{Bytes}
use tzip.Walk.Item.{WorkItem}
use tzip.Channel.{RawItem, Channel, Outcome, and_then, then_loop}
use tzip.Linux.Fiemap.{FiemapExtent, first_physical_offset}

-- The calls of the system: opening a file by a directory's descriptor or by its path, its extents, and
-- its contents, mapped or read to the end.
pub record FileSystem : Type 1 where
  pub File : Type 0
  pub open_at : ℕ → Bytes → Option File
  pub open_path : Bytes → Option File
  pub fiemap : File → ℕ → ℕ → Option (List FiemapExtent)
  pub mmap : File → Option Bytes
  pub read_to_end : File → Option Bytes

abbrev pub mmap_threshold : ℕ
mmap_threshold = 1024 * 1024

-- Files per window.
abbrev pub window_files : ℕ
window_files = 256

module _ (fs : FileSystem) where
  unfoldable pub read_from_file : fs.File → ℕ → Option Bytes
  read_from_file f size = if leb mmap_threshold size then fs.mmap f else fs.read_to_end f

  unfoldable pub read_input : Bytes → ℕ → Option Bytes
  read_input path size = fs.open_path path >>= λ f. read_from_file f size

  abbrev pub or_by_path : Bytes → Option fs.File → Option fs.File
  or_by_path path (some f) = some f
  or_by_path path none = fs.open_path path

  abbrev pub open_at_item : Bytes → Option ℕ → Option Bytes → Option fs.File
  open_at_item path (some dirfd) (some basename) = or_by_path path (fs.open_at dirfd basename)
  open_at_item path (some dirfd) none = fs.open_path path
  open_at_item path none basename = fs.open_path path

  unfoldable pub open_item : WorkItem → Option fs.File
  open_item item = open_at_item item.path item.dirfd item.basename

  pub record Entry : Type 0 where
    pub phys : ℕ
    pub index : ℕ
    pub item : WorkItem
    pub file : Option fs.File

  -- `u64::MAX` where the place on the disk is not known.
  abbrev pub phys_of : Option fs.File → ℕ
  phys_of none = 2 ^ 64 - 1
  phys_of (some f) = elim (first_physical_offset (fs.fiemap f)) [ some p ↦ p | none ↦ 2 ^ 64 - 1 ]

  unfoldable pub probe : ℕ × WorkItem → Entry
  probe (index, item) =
      let file : Option fs.File = open_item item in
      record { phys = phys_of file; index = index; item = item; file = file }

  -- `LinuxExtentSource::read`
  unfoldable pub read : WorkItem → Option Bytes
  read item = open_item item >>= λ f. read_from_file f item.size

  abbrev pub read_opened : Option fs.File → WorkItem → Option Bytes
  read_opened (some f) item = read_from_file f item.size
  read_opened none item = read_input item.path item.size

  module _ (ch : Channel RawItem) where
    abbrev pub sent_read : ch.State → Option ch.State → Outcome ch.State
    sent_read s none = Outcome.closed s
    sent_read s (some s') = Outcome.next s'

    abbrev pub send_read : ℕ → WorkItem → Option Bytes → ch.State → Outcome ch.State
    send_read index item none s = Outcome.failed s
    send_read index item (some bytes) s =
        sent_read s (ch.send (record { index = index; item = item; bytes = bytes }) s)

    unfoldable pub read_entry : Entry → ch.State → Outcome ch.State
    read_entry e s = send_read e.index e.item (read_opened e.file e.item) s

    unfoldable pub ordered : List (ℕ × WorkItem) → List Entry
    ordered window = sort_by_key (λ e. e.phys) (map probe window)

    -- A window, with blocking reads.
    unfoldable pub read_window : List (ℕ × WorkItem) → ch.State → Outcome ch.State
    read_window window s = then_loop read_entry (ordered window) s

    unfoldable pub bulk_read_all : List (ℕ × WorkItem) → ch.State → Outcome ch.State
    bulk_read_all items s = then_loop read_window (chunks (length items) window_files items) s
