-- ===== src/Pipeline/Stages/Count.antt =====
-- The threads of src/pipeline.rs that are over, with and without an error, as numbers.
use tzip.Prelude.{
  ℕ, ◌+◌, ◌≤◌, ◌≡◌, ◌⊎◌, refl, ap, arith, Bool, true, false, some, List, [], ◌∷◌, length, get_elem?,
  if◌then◌else◌, ◌||◌,
}
use tzip.Prelude.Totals.{total, total-lt}
use tzip.Walk.Item.{WorkItem}
use tzip.Channel.{RawItem}
use tzip.Compress.{Scratch}
use tzip.Zip.Entry.{EncodedEntry}
use tzip.Pipeline.Stages.{
  Setup, Feeder, Reader, feeder_over, reader_over, all_over, Worker, Main, worker_over, main_over,
  State, feeder_end,
}

abbrev pub feeder_ended : Feeder → ℕ
feeder_ended (Feeder.feeding l) = 0
feeder_ended (Feeder.joining l) = 0
feeder_ended Feeder.ended = 1
feeder_ended Feeder.failed = 0

abbrev pub feeder_failed : Feeder → ℕ
feeder_failed (Feeder.feeding l) = 0
feeder_failed (Feeder.joining l) = 0
feeder_failed Feeder.ended = 0
feeder_failed Feeder.failed = 1

abbrev pub feeder_joining : Feeder → ℕ
feeder_joining (Feeder.feeding l) = 0
feeder_joining (Feeder.joining l) = 1
feeder_joining Feeder.ended = 0
feeder_joining Feeder.failed = 0

pub feeder_over_total : (f : Feeder) → feeder_over f ≡ true → feeder_ended f + feeder_failed f ≡ 1
feeder_over_total (Feeder.feeding l) h = absurd cc
feeder_over_total (Feeder.joining l) h = absurd cc
feeder_over_total Feeder.ended h = refl
feeder_over_total Feeder.failed h = refl

abbrev pub reader_ended : Reader → ℕ
reader_ended Reader.ended = 1
reader_ended Reader.failed = 0
reader_ended Reader.waiting = 0
reader_ended (Reader.reading i it) = 0
reader_ended (Reader.sending r) = 0

abbrev pub reader_failed : Reader → ℕ
reader_failed Reader.ended = 0
reader_failed Reader.failed = 1
reader_failed Reader.waiting = 0
reader_failed (Reader.reading i it) = 0
reader_failed (Reader.sending r) = 0

pub reader_ended-le : (r : Reader) → reader_ended r ≤ 1
reader_ended-le Reader.ended = omega arith
reader_ended-le Reader.failed = omega arith
reader_ended-le Reader.waiting = omega arith
reader_ended-le (Reader.reading i it) = omega arith
reader_ended-le (Reader.sending r) = omega arith

pub readers_over_total :
    (rs : List Reader)
    → all_over reader_over rs ≡ true
    → total reader_ended rs + total reader_failed rs ≡ length rs
readers_over_total [] h = refl
readers_over_total (Reader.ended ∷ rs) h = omega (arith, readers_over_total rs h)
readers_over_total (Reader.failed ∷ rs) h = omega (arith, readers_over_total rs h)
readers_over_total (Reader.waiting ∷ rs) h = absurd cc
readers_over_total (Reader.reading i it ∷ rs) h = absurd cc
readers_over_total (Reader.sending r ∷ rs) h = absurd cc

module _ (u : Setup) where
  abbrev pub worker_ended : Worker u → ℕ
  worker_ended Worker.ended = 1
  worker_ended Worker.failed = 0
  worker_ended (Worker.waiting c) = 0
  worker_ended (Worker.encoding c r) = 0
  worker_ended (Worker.sending c e) = 0

  abbrev pub worker_failed : Worker u → ℕ
  worker_failed Worker.ended = 0
  worker_failed Worker.failed = 1
  worker_failed (Worker.waiting c) = 0
  worker_failed (Worker.encoding c r) = 0
  worker_failed (Worker.sending c e) = 0

  pub worker_ended-le : (w : Worker u) → worker_ended w ≤ 1
  worker_ended-le Worker.ended = omega arith
  worker_ended-le Worker.failed = omega arith
  worker_ended-le (Worker.waiting c) = omega arith
  worker_ended-le (Worker.encoding c r) = omega arith
  worker_ended-le (Worker.sending c e) = omega arith

  pub workers_over_total :
      (ws : List (Worker u))
      → all_over (worker_over u) ws ≡ true
      → total worker_ended ws + total worker_failed ws ≡ length ws
  workers_over_total [] h = refl
  workers_over_total (Worker.ended ∷ ws) h = omega (arith, workers_over_total ws h)
  workers_over_total (Worker.failed ∷ ws) h = omega (arith, workers_over_total ws h)
  workers_over_total (Worker.waiting c ∷ ws) h = absurd cc
  workers_over_total (Worker.encoding c r ∷ ws) h = absurd cc
  workers_over_total (Worker.sending c e ∷ ws) h = absurd cc

  abbrev pub main_written : Main u → ℕ
  main_written (Main.writing l) = 0
  main_written (Main.written l) = 1
  main_written Main.failed = 0

  abbrev pub main_failed : Main u → ℕ
  main_failed (Main.writing l) = 0
  main_failed (Main.written l) = 0
  main_failed Main.failed = 1

  main_over_total : (m : Main u) → main_over u m ≡ true → main_written m + main_failed m ≡ 1
  main_over_total (Main.writing l) h = absurd cc
  main_over_total (Main.written l) h = omega arith
  main_over_total Main.failed h = omega arith

  -- The threads that ended with an error.
  abbrev pub failures : State u → ℕ
  failures s =
      feeder_failed s.feeder
      + total reader_failed s.readers
      + total worker_failed s.workers
      + main_failed s.main

  -- No thread failed: a stage ends only behind the one before it, with its channel empty.
  pub record Ends (s : State u) : Type 0 where
    pub feeder_on : feeder_joining s.feeder ≡ 0
    pub readers_end :
        (total reader_ended s.readers ≡ 0) ⊎ ((feeder_ended s.feeder ≡ 1) × (length s.feed ≡ 0))
    pub workers_end :
        (total worker_ended s.workers ≡ 0)
        ⊎ ((total reader_ended s.readers ≡ length s.readers) × (length s.raw ≡ 0))
    pub main_end :
        (main_written s.main ≡ 0)
        ⊎ ((total worker_ended s.workers ≡ length s.workers) × (length s.enc ≡ 0))
    pub some_reader : 1 ≤ length s.readers
    pub some_worker : 1 ≤ length s.workers

  pub feeder_end_joining : feeder_joining (feeder_end u) ≡ 0
  feeder_end_joining = at_end (u.sort || u.walk_ok)
    where
      at_end : (b : Bool) → feeder_joining (if b then Feeder.ended else Feeder.failed) ≡ 0
      at_end true = refl
      at_end false = refl

  pub feeder_end_ended : feeder_ended (feeder_end u) + feeder_failed (feeder_end u) ≡ 1
  feeder_end_ended = at_end (u.sort || u.walk_ok)
    where
      at_end :
          (b : Bool)
          → feeder_ended (if b then Feeder.ended else Feeder.failed)
              + feeder_failed (if b then Feeder.ended else Feeder.failed)
            ≡ 1
      at_end true = refl
      at_end false = refl

  module _ (s : State u) (h : Ends s) (fine : failures s ≡ 0) where
    -- A send finds every receiver gone only after a failure.
    pub feed_gone-absurd :
        {it : WorkItem} {rest : List WorkItem}
        → s.feeder ≡ Feeder.feeding (it ∷ rest)
        → all_over reader_over s.readers ≡ true
        → ⊥
    feed_gone-absurd e gone =
        omega (
          arith,
          readers_over_total s.readers gone,
          ap feeder_ended e,
          h.readers_end,
          h.some_reader,
        )

    pub reader_gone-absurd :
        (i : ℕ) (r : RawItem)
        → get_elem? s.readers i ≡ some (Reader.sending r)
        → all_over (worker_over u) s.workers ≡ true
        → ⊥
    reader_gone-absurd i r at_i gone = omega (
      arith,
      workers_over_total s.workers gone,
      total-lt reader_ended reader_ended-le s.readers i (Reader.sending r) at_i refl,
      h.workers_end,
      h.some_worker,
    )

    pub worker_gone-absurd :
        (i : ℕ) (c : Scratch u.codecs) (e : EncodedEntry)
        → get_elem? s.workers i ≡ some (Worker.sending c e)
        → main_over u s.main ≡ true
        → ⊥
    worker_gone-absurd i c e at_i gone = omega (
      arith,
      main_over_total s.main gone,
      total-lt worker_ended worker_ended-le s.workers i (Worker.sending c e) at_i refl,
      h.main_end,
    )
