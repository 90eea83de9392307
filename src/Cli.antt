-- ===== src/Cli.antt =====
-- src/cli.rs: from the arguments to the options of a run, for a build with every feature on Linux. clap
-- fills `Args`; what is read from the system is a parameter.
pub mod Sound
use tzip.Prelude.{
  unwrap_or, ℕ, zero, suc, ◌+◌, ◌==◌, leb, min, max, Bool, true, false, not, ◌||◌, ◌&&◌, Option,
  none, some, List, [], ◌∷◌, if◌then◌else◌, map, length, ◌>>=◌, ◌>>◌, guard,
}
use tzip.Bytes.{Bytes, bytes_eq}
use tzip.Compress.{Method}

pub record UserSetFlags : Type 0 where
  pub keep_cache : Bool
  pub read_jobs : Bool
  pub dispatch_io : Bool
  pub raw_block : Bool
  pub io_uring : Bool

pub record Args : Type 0 where
  pub archive : Bytes
  pub paths : List Bytes
  pub method : Method
  pub level : ℕ
  pub solid : Bool
  pub tui : Bool
  pub jobs : Option ℕ
  pub read_jobs : Bytes
  pub walk_jobs : Option ℕ
  pub classic_walk : Bool
  pub dispatch_io : Bool
  pub usb_info : Bool
  pub raw_block : Bool
  pub apfs_device : Option Bytes
  pub io_uring : Bool
  pub basename_only : Bool
  pub warn_contention : Bool
  pub password : Option Bytes
  pub password_file : Option Bytes
  pub sort : Bool
  pub exclude : List Bytes
  pub quiet : Bool
  pub verbose : Bool
  pub keep_cache : Bool
  pub streaming : Bool

pub record Options : Type 0 where
  pub archive : Bytes
  pub paths : List Bytes
  pub method : Method
  pub level : ℕ
  pub cpu_jobs : ℕ
  pub read_jobs : ℕ
  pub walk_jobs : ℕ
  pub password : Option Bytes
  pub sort : Bool
  pub exclude : List Bytes
  pub quiet : Bool
  pub verbose : Bool
  pub keep_cache : Bool
  pub streaming : Bool
  pub solid : Bool
  pub tui : Bool
  pub classic_walk : Bool
  pub dispatch_io : Bool
  pub usb_info : Bool
  pub warn_contention : Bool
  pub raw_block : Bool
  pub apfs_device : Option Bytes
  pub io_uring : Bool
  pub basename_only : Bool
  pub user_flags : UserSetFlags

-- `eq_ignore_ascii_case`
abbrev pub to_lower : ℕ → ℕ
to_lower b = if leb 65 b && leb b 90 then b + 32 else b

abbrev pub eq_ignore_case : Bytes → Bytes → Bool
eq_ignore_case a b = bytes_eq (map to_lower a) (map to_lower b)

-- `text.lines().next().unwrap_or("")`: up to the first line feed, without a carriage return before it.
unfoldable pub first_line : Bytes → Bytes
first_line [] = []
first_line (b ∷ []) = if b == 10 then [] else b ∷ []
first_line (b ∷ c ∷ rest) =
    let more = first_line (c ∷ rest) in if b == 10 || (b == 13 && c == 10) then [] else b ∷ more

-- The system: physical cores, files, the password prompt, and the parts of the standard library that
-- parse a number and find a path's extension.
pub record System : Type 0 where
  pub physical : ℕ
  pub read_to_string : Bytes → Option Bytes
  pub prompt_password : Option Bytes
  pub parse_usize : Bytes → Option ℕ
  pub extension : Bytes → Option Bytes

abbrev pub auto : Bytes
auto = b'a' ∷ b'u' ∷ b't' ∷ b'o' ∷ []

abbrev pub seven_z : Bytes
seven_z = b'7' ∷ b'z' ∷ []

abbrev pub is_empty {ℓ} : {A : Type ℓ} → List A → Bool
is_empty [] = true
is_empty (x ∷ xs) = false

module _ (S : System) where
  unfoldable pub given_password : Option Bytes → Option (Option Bytes)
  given_password none = some none
  given_password (some s) =
      if bytes_eq s (b'-' ∷ [])
      then (do pw ← S.prompt_password; guard (not (is_empty pw)); some (some pw))
      else some (some s)

  -- `none` is an error; `some none` is a run without a password.
  unfoldable pub resolve_password : Option Bytes → Option Bytes → Option (Option Bytes)
  resolve_password none password = given_password password
  resolve_password (some file) password = do
    text ← S.read_to_string file
    guard (not (is_empty (first_line text)))
    some (some (first_line text))

  unfoldable pub resolve_read_jobs : Bytes → ℕ → Option ℕ
  resolve_read_jobs read_jobs cpu_jobs =
      if eq_ignore_case read_jobs auto
      then some (max (min cpu_jobs 8) 1)
      else (do n ← S.parse_usize read_jobs; guard (not (n == 0)); some n)

  abbrev pub is_7z : Option Bytes → Bool
  is_7z none = false
  is_7z (some e) = eq_ignore_case e seven_z

  -- The whole volume stands for no path at all.
  unfoldable pub resolve_paths : Option Bytes → List Bytes → List Bytes
  resolve_paths (some device) [] = (b'/' ∷ []) ∷ []
  resolve_paths (some device) (p ∷ ps) = p ∷ ps
  resolve_paths none ps = ps

  abbrev pub cpu_jobs_of : Args → ℕ
  cpu_jobs_of a = unwrap_or a.jobs (max S.physical 1)

  unfoldable pub options_of : Args → UserSetFlags → ℕ → Option Bytes → Options
  options_of a user_flags read_jobs password = record {
    archive = a.archive;
    paths = resolve_paths a.apfs_device a.paths;
    method = a.method;
    level = a.level;
    cpu_jobs = cpu_jobs_of a;
    read_jobs = read_jobs;
    walk_jobs = unwrap_or a.walk_jobs (max (min (cpu_jobs_of a) 4) 1);
    password = password;
    sort = a.sort;
    exclude = a.exclude;
    quiet = a.quiet;
    verbose = a.verbose;
    keep_cache = a.keep_cache;
    streaming = a.streaming;
    solid = a.solid || is_7z (S.extension a.archive);
    tui = a.tui;
    classic_walk = a.classic_walk;
    dispatch_io = a.dispatch_io;
    usb_info = a.usb_info;
    warn_contention = a.warn_contention;
    raw_block = a.raw_block;
    apfs_device = a.apfs_device;
    io_uring = a.io_uring;
    basename_only = a.basename_only;
    user_flags = user_flags;
  }

  -- The rest of `into_options` after the password, and after the number of readers.
  abbrev pub with_password : Args → UserSetFlags → ℕ → Option Bytes → Option Options
  with_password a user_flags read_jobs password = do
    guard (not (is_empty (resolve_paths a.apfs_device a.paths)))
    some (options_of a user_flags read_jobs password)

  abbrev pub with_read_jobs : Args → UserSetFlags → ℕ → Option Options
  with_read_jobs a user_flags read_jobs = do
    password ← resolve_password a.password_file a.password
    with_password a user_flags read_jobs password

  unfoldable pub into_options : Args → UserSetFlags → Option Options
  into_options a user_flags = do
    read_jobs ← resolve_read_jobs a.read_jobs (cpu_jobs_of a)
    with_read_jobs a user_flags read_jobs
