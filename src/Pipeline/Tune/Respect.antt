-- ===== src/Pipeline/Tune/Respect.antt =====
-- `auto_tune` of src/pipeline.rs against the settings of the user.
use tzip.Prelude.{
  ℕ, ◌≤◌, ◌≡◌, refl, ap, ◌∙◌, arith, ltb, ◌==◌, Bool, true, false, not, ◌&&◌, Option, if◌then◌else◌,
}
use tzip.Bytes.{Bytes}
use tzip.Cli.{Options}
use tzip.Pipeline.Tune.{
  has_device, Probe, one_sweep, tune_media, auto_tune_linux, probes, apfs_on_usb, ntfs_on_mac,
  keep_pages, use_raw_block, use_dispatch_io, use_readers, tune_readers, auto_tune_macos,
}

-- The options without the four that are tuned.
unfoldable pub untuned : Options → Options
untuned o = record o { keep_cache = false; raw_block = false; read_jobs = 0; dispatch_io = false }

-- From `o` to `p` the user's settings are kept, no switch is turned off, a reader is left, and nothing
-- else changes.
pub record Respects (o p : Options) : Type 0 where
  keeps_cache : o.user_flags.keep_cache ≡ true → p.keep_cache ≡ o.keep_cache
  keeps_raw : o.user_flags.raw_block ≡ true → p.raw_block ≡ o.raw_block
  keeps_jobs : o.user_flags.read_jobs ≡ true → p.read_jobs ≡ o.read_jobs
  keeps_dispatch : o.user_flags.dispatch_io ≡ true → p.dispatch_io ≡ o.dispatch_io
  cache_on : o.keep_cache ≡ true → p.keep_cache ≡ true
  raw_on : o.raw_block ≡ true → p.raw_block ≡ true
  dispatch_on : o.dispatch_io ≡ true → p.dispatch_io ≡ true
  a_reader : 1 ≤ o.read_jobs → 1 ≤ p.read_jobs
  others : untuned p ≡ untuned o

same : (o : Options) → Respects o o
same o = record {
  keeps_cache = λ h. refl;
  keeps_raw = λ h. refl;
  keeps_jobs = λ h. refl;
  keeps_dispatch = λ h. refl;
  cache_on = λ h. h;
  raw_on = λ h. h;
  dispatch_on = λ h. h;
  a_reader = λ h. h;
  others = refl;
}

flags : (o p : Options) → untuned p ≡ untuned o → p.user_flags ≡ o.user_flags
flags o p h = unfold untuned in ap (λ (t : Options). t.user_flags) h

trans : (o p q : Options) → Respects o p → Respects p q → Respects o q
trans o p q a b =
    let f = flags o p a.others in
    record {
      keeps_cache = λ h. b.keeps_cache (rw f h) ∙ a.keeps_cache h;
      keeps_raw = λ h. b.keeps_raw (rw f h) ∙ a.keeps_raw h;
      keeps_jobs = λ h. b.keeps_jobs (rw f h) ∙ a.keeps_jobs h;
      keeps_dispatch = λ h. b.keeps_dispatch (rw f h) ∙ a.keeps_dispatch h;
      cache_on = λ h. b.cache_on (a.cache_on h);
      raw_on = λ h. b.raw_on (a.raw_on h);
      dispatch_on = λ h. b.dispatch_on (a.dispatch_on h);
      a_reader = λ h. b.a_reader (a.a_reader h);
      others = b.others ∙ a.others;
    }

choose :
    {o p q : Options} (b : Bool)
    → (b ≡ true → Respects o p)
    → (b ≡ false → Respects o q)
    → Respects o (if b then p else q)
choose true f g = f refl
choose false f g = g refl

with_jobs :
    (o : Options) (n : ℕ)
    → o.user_flags.read_jobs ≡ false
    → 1 ≤ n
    → Respects o (record o { read_jobs = n })
unfolding untuned
with_jobs o n free h = record {
  keeps_cache = λ h. refl;
  keeps_raw = λ h. refl;
  keeps_jobs = λ set. absurd (ground arith);
  keeps_dispatch = λ h. refl;
  cache_on = λ h. h;
  raw_on = λ h. h;
  dispatch_on = λ h. h;
  a_reader = λ _. h;
  others = refl;
}

with_raw :
    (o : Options) → o.user_flags.raw_block ≡ false → Respects o (record o { raw_block = true })
unfolding untuned
with_raw o free = record {
  keeps_cache = λ h. refl;
  keeps_raw = λ set. absurd (ground arith);
  keeps_jobs = λ h. refl;
  keeps_dispatch = λ h. refl;
  cache_on = λ h. h;
  raw_on = λ h. refl;
  dispatch_on = λ h. h;
  a_reader = λ h. h;
  others = refl;
}

with_cache :
    (o : Options) → o.user_flags.keep_cache ≡ false → Respects o (record o { keep_cache = true })
unfolding untuned
with_cache o free = record {
  keeps_cache = λ set. absurd (ground arith);
  keeps_raw = λ h. refl;
  keeps_jobs = λ h. refl;
  keeps_dispatch = λ h. refl;
  cache_on = λ h. refl;
  raw_on = λ h. h;
  dispatch_on = λ h. h;
  a_reader = λ h. h;
  others = refl;
}

with_dispatch :
    (o : Options) → o.user_flags.dispatch_io ≡ false → Respects o (record o { dispatch_io = true })
unfolding untuned
with_dispatch o free = record {
  keeps_cache = λ h. refl;
  keeps_raw = λ h. refl;
  keeps_jobs = λ h. refl;
  keeps_dispatch = λ set. absurd (ground arith);
  cache_on = λ h. h;
  raw_on = λ h. h;
  dispatch_on = λ h. refl;
  a_reader = λ h. h;
  others = refl;
}

-- A step is taken only where the user left the switch alone.
free : (flag b : Bool) → (not flag && b) ≡ true → flag ≡ false
free true b h = absurd cc
free false b h = refl

module _ (device_traits : Bytes → Option Bool × Option Bool) (fiemap_supported : Bytes → Bool) where
  one_sweep-Respects : (o : Options) → Respects o (one_sweep device_traits fiemap_supported o)
  unfolding one_sweep
  one_sweep-Respects o =
      choose (not o.user_flags.read_jobs && ltb 1 o.read_jobs)
        (λ h. with_jobs o 1 (free o.user_flags.read_jobs _ h) (omega arith)) (λ _. same o)

  tune_media-Respects : (o : Options) → Respects o (tune_media device_traits fiemap_supported o)
  unfolding tune_media
  tune_media-Respects o =
      let p : Options = record o { raw_block = true } in
      choose (not o.user_flags.raw_block && not o.raw_block)
        (λ h.
          choose _
            (λ _. trans o p _ (with_raw o (free o.user_flags.raw_block _ h)) (one_sweep-Respects p))
            (λ _. same o))
        (λ _. same o)

  -- Whatever is probed on Linux, tuning keeps the settings that the user gave, turns no switch off,
  -- leaves a reader and changes no other option.
  pub auto_tune_linux-Respects :
      (o : Options) → Respects o (auto_tune_linux device_traits fiemap_supported o)
  unfolding auto_tune_linux
  auto_tune_linux-Respects o =
      choose (has_device o.apfs_device) (λ _. same o) (λ _. tune_media-Respects o)

module _ (probe_path : Bytes → Option Probe) (parent : Bytes → Option Bytes) (is_root : Bool) where
  keep_pages-Respects : (o : Options) → Respects o (keep_pages probe_path parent is_root o)
  unfolding keep_pages
  keep_pages-Respects o =
      choose (not o.user_flags.keep_cache && not o.keep_cache)
        (λ h. with_cache o (free o.user_flags.keep_cache _ h)) (λ _. same o)

  use_raw_block-Respects : (o : Options) → Respects o (use_raw_block probe_path parent is_root o)
  unfolding use_raw_block
  use_raw_block-Respects o =
      choose (not o.user_flags.raw_block && not o.raw_block && is_root)
        (λ h. with_raw o (ground arith)) (λ _. same o)

  use_dispatch_io-Respects :
      (o : Options) → Respects o (use_dispatch_io probe_path parent is_root o)
  unfolding use_dispatch_io
  use_dispatch_io-Respects o =
      choose (not o.user_flags.dispatch_io && not o.dispatch_io)
        (λ h. with_dispatch o (free o.user_flags.dispatch_io _ h)) (λ _. same o)

  use_readers-Respects :
      (n : ℕ) (o : Options) → 1 ≤ n → Respects o (use_readers probe_path parent is_root n o)
  unfolding use_readers
  use_readers-Respects n o hn =
      choose (not o.user_flags.read_jobs && not (o.read_jobs == n))
        (λ h. with_jobs o n (free o.user_flags.read_jobs _ h) hn) (λ _. same o)

  some_readers : (b : Bool) → 1 ≤ (if b then 4 else 1)
  some_readers true = omega arith
  some_readers false = omega arith

  tune_readers-Respects : (o : Options) → Respects o (tune_readers probe_path parent is_root o)
  unfolding tune_readers
  tune_readers-Respects o =
      let p = use_dispatch_io probe_path parent is_root o in
      choose o.raw_block (λ _. use_readers-Respects 8 o (omega arith))
        (λ _.
          trans o p _ (use_dispatch_io-Respects o)
            (use_readers-Respects (if p.dispatch_io then 4 else 1) p (some_readers p.dispatch_io)))

  tune_usb-Respects :
      (o : Options)
      → Respects o (
          tune_readers probe_path parent is_root
            (use_raw_block probe_path parent is_root (keep_pages probe_path parent is_root o)))
  tune_usb-Respects o =
      let p = keep_pages probe_path parent is_root o in
      let q = use_raw_block probe_path parent is_root p in
      trans o p _ (keep_pages-Respects o)
        (trans p q _ (use_raw_block-Respects p) (tune_readers-Respects q))

  -- Whatever is probed on macOS, tuning keeps the settings that the user gave, turns no switch off,
  -- leaves a reader and changes no other option.
  pub auto_tune_macos-Respects :
      (o : Options) → Respects o (auto_tune_macos probe_path parent is_root o)
  unfolding auto_tune_macos
  auto_tune_macos-Respects o =
      choose (has_device o.apfs_device) (λ _. same o)
        (λ _.
          choose (apfs_on_usb (probes probe_path parent is_root o.paths o.archive))
            (λ _. tune_usb-Respects o)
            (λ _.
              choose (ntfs_on_mac (probes probe_path parent is_root o.paths o.archive))
                (λ _. keep_pages-Respects o) (λ _. same o)))
