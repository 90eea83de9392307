-- ===== src/Tests/Cli.antt =====
-- src/cli.rs and the tuning of options in src/pipeline.rs on one command line.
use tzip.Prelude.{◌≤◌, ◌≡◌, ◌≢◌, refl, false, true, none, some, [], ◌∷◌, Option, ◌*◌, ◌<◌, ◌^◌}
use tzip.Bytes.{Bytes}
use tzip.Compress.{store}
use tzip.Cli.{
  Args, Options, UserSetFlags, System, auto, into_options, options_of, resolve_password,
  given_password, resolve_read_jobs, resolve_paths,
}
use tzip.Cli.Sound.{into_options_sound}
use tzip.Pipeline.Tune.{
  FsInfo, Probe, apfs, usb, exfat, mib, auto_tune_linux, auto_tune_macos, choose_writer_capacity,
}
use tzip.Pipeline.Tune.Respect.{Respects, auto_tune_linux-Respects, auto_tune_macos-Respects}
use tzip.Pipeline.Tune.Capacity.{choose_writer_capacity-bounds}

abbrev system : System
system = record {
  physical = 8;
  read_to_string = λ path. none;
  prompt_password = none;
  parse_usize = λ text. some 2;
  extension = λ path. none;
}

abbrev no_flags : UserSetFlags
no_flags = record {
  keep_cache = false;
  read_jobs = true;
  dispatch_io = false;
  raw_block = false;
  io_uring = false;
}

abbrev args : Args
args = record {
  archive = 97 ∷ [];
  paths = (98 ∷ []) ∷ [];
  method = store;
  level = 6;
  solid = false;
  tui = false;
  jobs = some 3;
  read_jobs = auto;
  walk_jobs = none;
  classic_walk = false;
  dispatch_io = false;
  usb_info = false;
  raw_block = false;
  apfs_device = none;
  io_uring = false;
  basename_only = false;
  warn_contention = false;
  password = some [];
  password_file = none;
  sort = true;
  exclude = [];
  quiet = false;
  verbose = false;
  keep_cache = false;
  streaming = false;
}

abbrev options : Options
options = record {
  archive = 97 ∷ [];
  paths = (98 ∷ []) ∷ [];
  method = store;
  level = 6;
  cpu_jobs = 3;
  read_jobs = 3;
  walk_jobs = 3;
  password = some [];
  sort = true;
  exclude = [];
  quiet = false;
  verbose = false;
  keep_cache = false;
  streaming = false;
  solid = false;
  tui = false;
  classic_walk = false;
  dispatch_io = false;
  usb_info = false;
  warn_contention = false;
  raw_block = false;
  apfs_device = none;
  io_uring = false;
  basename_only = false;
  user_flags = no_flags;
}

into_options_runs : into_options system args no_flags ≡ some options
unfolding into_options options_of resolve_password given_password resolve_read_jobs resolve_paths
into_options_runs = refl

into_options_sound_example :
    (1 ≤ options.read_jobs)
    × (options.paths ≢ [])
    × (args.jobs ≢ some 0 → 1 ≤ options.cpu_jobs)
    × (options.password ≡ some [] → (args.password_file ≡ none) × (args.password ≡ some []))
into_options_sound_example = into_options_sound system args no_flags options into_options_runs

abbrev on_usb : Bytes → Option Probe
on_usb path = some (record { fs_type = apfs; bus_protocol = some usb })

auto_tune_macos-Respects_example :
    Respects options (auto_tune_macos on_usb (λ archive. none) true options)
auto_tune_macos-Respects_example = auto_tune_macos-Respects on_usb (λ archive. none) true options

auto_tune_linux-Respects_example :
    Respects options (auto_tune_linux (λ path. (some true, none)) (λ path. true) options)
auto_tune_linux-Respects_example =
    auto_tune_linux-Respects (λ path. (some true, none)) (λ path. true) options

abbrev stick : FsInfo
stick = record { fs_type = exfat; iosize = 4096 }

choose_writer_capacity-bounds_example :
    (4 * mib ≤ choose_writer_capacity (some stick)) × (choose_writer_capacity (some stick) < 2 ^ 64)
choose_writer_capacity-bounds_example = choose_writer_capacity-bounds (some stick)
