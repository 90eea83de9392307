-- ===== src/Pipeline/Stages/Over.antt =====
-- What the joins of `run` in src/pipeline.rs show of the threads.
use tzip.Prelude.{ℕ, ◌≡◌, refl, ap, ◌∙◌, arith, ltb, List, [], ◌∷◌, length, if◌then◌else◌}
use tzip.Prelude.Totals.{total, total-le}
use tzip.Walk.Item.{WorkItem}
use tzip.Zip.Entry.{EncodedEntry}
use tzip.Zip.Writer.{ZipWriter}
use tzip.Pipeline.Reorder.{Loop}
use tzip.Pipeline.Stages.{Setup, Feeder, Reader, Worker, Main, State}
use tzip.Pipeline.Stages.Ends.{Returned, join_workers, join_readers, join_feeder, returned}
use tzip.Pipeline.Stages.Count.{
  feeder_ended, feeder_failed, reader_ended, reader_failed, reader_ended-le, worker_ended,
  worker_failed, worker_ended-le, main_written, main_failed, failures,
}
use tzip.Pipeline.Stages.Held.{fed_here, reader_here, raw_here, worker_here, entry_here}
use tzip.Pipeline.Stages.Sound.{Fine}

ended-here :
    (j : ℕ) (rs : List Reader) → total reader_ended rs ≡ length rs → total (reader_here j) rs ≡ 0
ended-here j [] h = refl
ended-here j (Reader.ended ∷ rs) h = omega (arith, ended-here j rs)
ended-here j (Reader.failed ∷ rs) h =
    absurd (omega (arith, total-le reader_ended reader_ended-le rs))
ended-here j (Reader.waiting ∷ rs) h =
    absurd (omega (arith, total-le reader_ended reader_ended-le rs))
ended-here j (Reader.reading i it ∷ rs) h =
    absurd (omega (arith, total-le reader_ended reader_ended-le rs))
ended-here j (Reader.sending r ∷ rs) h =
    absurd (omega (arith, total-le reader_ended reader_ended-le rs))

length-zero : {A : Type 0} (w : A → ℕ) (xs : List A) → length xs ≡ 0 → total w xs ≡ 0
length-zero w [] h = refl
length-zero w (x ∷ xs) h = absurd (omega arith)

module _ (u : Setup) where
  workers_ended-here :
      (j : ℕ) (ws : List (Worker u))
      → total (worker_ended u) ws ≡ length ws
      → total (worker_here u j) ws ≡ 0
  workers_ended-here j [] h = refl
  workers_ended-here j (Worker.ended ∷ ws) h = omega (arith, workers_ended-here j ws)
  workers_ended-here j (Worker.failed ∷ ws) h =
      absurd (omega (arith, total-le (worker_ended u) (worker_ended-le u) ws))
  workers_ended-here j (Worker.waiting c ∷ ws) h =
      absurd (omega (arith, total-le (worker_ended u) (worker_ended-le u) ws))
  workers_ended-here j (Worker.encoding c r ∷ ws) h =
      absurd (omega (arith, total-le (worker_ended u) (worker_ended-le u) ws))
  workers_ended-here j (Worker.sending c e ∷ ws) h =
      absurd (omega (arith, total-le (worker_ended u) (worker_ended-le u) ws))

  module _ (l : Loop u.sink) where
    join_workers-joined :
        (ws : List (Worker u)) (k : Returned u)
        → join_workers u ws k ≡ Returned.joined l
        → (total (worker_failed u) ws ≡ 0)
          × (total (worker_ended u) ws ≡ length ws)
          × (k ≡ Returned.joined l)
    unfolding join_workers
    join_workers-joined [] k h = (refl, refl, h)
    join_workers-joined (Worker.ended ∷ ws) k h =
        let (f, n, e) = join_workers-joined ws k h in (omega arith, omega arith, e)
    join_workers-joined (Worker.failed ∷ ws) k h = absurd cc
    join_workers-joined (Worker.waiting c ∷ ws) k h = absurd cc
    join_workers-joined (Worker.encoding c r ∷ ws) k h = absurd cc
    join_workers-joined (Worker.sending c e ∷ ws) k h = absurd cc

    join_readers-joined :
        (rs : List Reader) (k : Returned u)
        → join_readers u rs k ≡ Returned.joined l
        → (total reader_failed rs ≡ 0)
          × (total reader_ended rs ≡ length rs)
          × (k ≡ Returned.joined l)
    unfolding join_readers
    join_readers-joined [] k h = (refl, refl, h)
    join_readers-joined (Reader.ended ∷ rs) k h =
        let (f, n, e) = join_readers-joined rs k h in (omega arith, omega arith, e)
    join_readers-joined (Reader.failed ∷ rs) k h = absurd cc
    join_readers-joined (Reader.waiting ∷ rs) k h = absurd cc
    join_readers-joined (Reader.reading i it ∷ rs) k h = absurd cc
    join_readers-joined (Reader.sending r ∷ rs) k h = absurd cc

    join_feeder-joined :
        (f : Feeder) (k : Returned u)
        → join_feeder u f k ≡ Returned.joined l
        → (feeder_failed f ≡ 0) × (feeder_ended f ≡ 1) × (k ≡ Returned.joined l)
    join_feeder-joined (Feeder.feeding rest) k h = absurd cc
    join_feeder-joined (Feeder.joining rest) k h = absurd cc
    join_feeder-joined Feeder.ended k h = (refl, refl, h)
    join_feeder-joined Feeder.failed k h = absurd cc

    -- Every thread ended without an error.
    pub record IsOver (s : State u) : Type 0 where
      pub no_failure : failures u s ≡ 0
      pub feeder_done : feeder_ended s.feeder ≡ 1
      pub main_is : s.main ≡ Main.written l
      pub readers_over : total reader_ended s.readers ≡ length s.readers
      pub workers_over : total (worker_ended u) s.workers ≡ length s.workers

    written-inj :
        (l' : Loop u.sink) → ◌≡◌ {A = Returned u} (Returned.joined l') (Returned.joined l) → l' ≡ l
    written-inj l' h = cc

    pub main-IsOver :
        (s : State u) (m : Main u) → s.main ≡ m → returned u s ≡ Returned.joined l → IsOver s
    unfolding returned
    main-IsOver s (Main.writing l') e h = absurd (let k = rw e at h in cc)
    main-IsOver s (Main.written l') e h =
        let (a, b, rest) = join_feeder-joined s.feeder _ (rw e at h) in
        let (c, d, rest') = join_readers-joined s.readers _ rest in
        let (f, g, same) = join_workers-joined s.workers _ rest' in
        let is : s.main ≡ Main.written l = e ∙ ap Main.written (written-inj l' same) in
        record {
          no_failure = omega (arith, ap (main_failed u) e);
          feeder_done = b;
          main_is = is;
          readers_over = d;
          workers_over = g;
        }
    main-IsOver s Main.failed e h = absurd (let k = rw e at h in cc)

    module _ (zw : ZipWriter u.sink) (items : List WorkItem) (a : List EncodedEntry)
        (s : State u) where
      pub arrived_once :
          IsOver s
          → Fine u zw items a s
          → (j : ℕ) → total (entry_here j) a ≡ (if ltb j (length items) then 1 else 0)
      arrived_once o f j =
          let k : s.index_counter ≡ length items = omega (arith, f.all_fed, o.feeder_done) in
          let raw_empty : length s.raw ≡ 0 = omega arith in
          let enc_empty : length s.enc ≡ 0 = omega (arith, ap (main_written u) o.main_is) in
          let feed_empty : length s.feed ≡ 0 = omega arith in
          rw (← k) (
            omega (
              arith,
              f.counted j,
              length-zero (fed_here j) s.feed feed_empty,
              length-zero (raw_here j) s.raw raw_empty,
              length-zero (entry_here j) s.enc enc_empty,
              ended-here j s.readers o.readers_over,
              workers_ended-here j s.workers o.workers_over,
            ))
