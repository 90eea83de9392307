-- ===== src/Pipeline/Tune.antt =====
-- `auto_tune` and `choose_writer_capacity` of src/pipeline.rs. What is probed of the devices is a
-- parameter; the note that is printed for the user is left out.
pub mod Respect
pub mod Capacity
use tzip.Prelude.{
  unwrap_or, ℕ, ◌*◌, ◌^◌, ◌-◌, ltb, ◌==◌, min, max, Bool, true, false, not, ◌||◌, ◌&&◌, Option,
  none, some, List, [], ◌∷◌, ◌++◌, if◌then◌else◌, map,
}
use tzip.Bytes.{Bytes, bytes_eq}
use tzip.Cli.{Options, UserSetFlags, eq_ignore_case, to_lower}

abbrev pub dot : Bytes
dot = b'.' ∷ []

abbrev pub first_path : List Bytes → Bytes
first_path [] = dot
first_path (p ∷ ps) = p

abbrev pub is_true : Option Bool → Bool
is_true none = false
is_true (some b) = b

abbrev pub has_device : Option Bytes → Bool
has_device none = false
has_device (some d) = true

-- Linux: rotational and removable media, and whether FIEMAP answers.
module _ (device_traits : Bytes → Option Bool × Option Bool) (fiemap_supported : Bytes → Bool) where
  unfoldable pub one_sweep : Options → Options
  one_sweep o =
      if not o.user_flags.read_jobs && ltb 1 o.read_jobs then record o { read_jobs = 1 } else o

  unfoldable pub tune_media : Options → Options
  tune_media o =
      if not o.user_flags.raw_block && not o.raw_block
      then (let first = first_path o.paths in
          let (rotational, removable) = device_traits first in
          let seeky = is_true rotational || is_true removable in
          if seeky && fiemap_supported first then one_sweep (record o { raw_block = true }) else o)
      else o

  unfoldable pub auto_tune_linux : Options → Options
  auto_tune_linux o = if has_device o.apfs_device then o else tune_media o

-- What is read of a `SourceReport`.
pub record Probe : Type 0 where
  pub fs_type : Bytes
  pub bus_protocol : Option Bytes

abbrev pub starts_with : Bytes → Bytes → Bool
starts_with [] text = true
starts_with (p ∷ ps) [] = false
starts_with (p ∷ ps) (c ∷ text) = p == c && starts_with ps text

abbrev pub contains : Bytes → Bytes → Bool
contains text [] = starts_with text []
contains text (c ∷ rest) = starts_with text (c ∷ rest) || contains text rest

abbrev pub apfs : Bytes
apfs = b'a' ∷ b'p' ∷ b'f' ∷ b's' ∷ []

abbrev pub usb : Bytes
usb = b'U' ∷ b'S' ∷ b'B' ∷ []

abbrev pub ntfs : Bytes
ntfs = b'n' ∷ b't' ∷ b'f' ∷ b's' ∷ []

abbrev pub is_usb : Option Bytes → Bool
is_usb none = false
is_usb (some bus) = bytes_eq bus usb

unfoldable pub apfs_on_usb : List Probe → Bool
apfs_on_usb [] = false
apfs_on_usb (r ∷ rs) = (eq_ignore_case r.fs_type apfs && is_usb r.bus_protocol) || apfs_on_usb rs

unfoldable pub ntfs_on_mac : List Probe → Bool
ntfs_on_mac [] = false
ntfs_on_mac (r ∷ rs) = contains ntfs (map to_lower r.fs_type) || ntfs_on_mac rs

abbrev pub pushed_probe : Option Probe → List Probe → List Probe
pushed_probe none rs = rs
pushed_probe (some r) rs = r ∷ rs

-- macOS: `parent` is the parent of the archive where it is not empty.
module _ (probe_path : Bytes → Option Probe) (parent : Bytes → Option Bytes) (is_root : Bool) where
  unfoldable pub probes : List Bytes → Bytes → List Probe
  probes [] archive = pushed_probe (probe_path (unwrap_or (parent archive) dot)) []
  probes (p ∷ ps) archive = pushed_probe (probe_path p) (probes ps archive)

  unfoldable pub keep_pages : Options → Options
  keep_pages o =
      if not o.user_flags.keep_cache && not o.keep_cache then record o { keep_cache = true } else o

  unfoldable pub use_raw_block : Options → Options
  use_raw_block o =
      if not o.user_flags.raw_block && not o.raw_block && is_root
      then record o { raw_block = true }
      else o

  unfoldable pub use_dispatch_io : Options → Options
  use_dispatch_io o =
      if not o.user_flags.dispatch_io && not o.dispatch_io
      then record o { dispatch_io = true }
      else o

  unfoldable pub use_readers : ℕ → Options → Options
  use_readers target o =
      if not o.user_flags.read_jobs && not (o.read_jobs == target)
      then record o { read_jobs = target }
      else o

  unfoldable pub tune_readers : Options → Options
  tune_readers o =
      if o.raw_block
      then use_readers 8 o
      else (let o' = use_dispatch_io o in use_readers (if o'.dispatch_io then 4 else 1) o')

  unfoldable pub auto_tune_macos : Options → Options
  auto_tune_macos o =
      let rs = probes o.paths o.archive in
      if has_device o.apfs_device
      then o
      else if apfs_on_usb rs
      then tune_readers (use_raw_block (keep_pages o))
      else if ntfs_on_mac rs
      then keep_pages o
      else o

-- What is read of it.
pub record FsInfo : Type 0 where
  pub fs_type : Bytes
  pub iosize : ℕ

abbrev pub exfat : Bytes
exfat = b'e' ∷ b'x' ∷ b'f' ∷ b'a' ∷ b't' ∷ []

abbrev pub msdos : Bytes
msdos = b'm' ∷ b's' ∷ b'd' ∷ b'o' ∷ b's' ∷ []

abbrev pub mib : ℕ
mib = 1024 * 1024

-- `saturating_mul` on a `usize` of 64 bits.
unfoldable pub choose_writer_capacity : Option FsInfo → ℕ
choose_writer_capacity none = 4 * mib
choose_writer_capacity (some info) =
    let fs = map to_lower info.fs_type in
    if bytes_eq fs exfat || bytes_eq fs msdos
    then 16 * mib
    else max (min (info.iosize * 4) (2 ^ 64 - 1)) (4 * mib)
