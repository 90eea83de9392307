-- ===== src/Pipeline/Stages/Errors.antt =====
-- The joins at the end of `run` in src/pipeline.rs, where no thread has failed.
use tzip.Prelude.{◌≡◌, ◌≢◌, refl, ap, arith, List, [], ◌∷◌}
use tzip.Prelude.Totals.{total}
use tzip.Pipeline.Reorder.{Loop}
use tzip.Pipeline.Stages.{Setup, Feeder, Reader, Worker, Main, State}
use tzip.Pipeline.Stages.Ends.{Returned, join_workers, join_readers, join_feeder, returned}
use tzip.Pipeline.Stages.Count.{feeder_failed, reader_failed, worker_failed, main_failed, failures}

module _ (u : Setup) where
  join_workers-error :
      (ws : List (Worker u)) (k : Returned u)
      → total (worker_failed u) ws ≡ 0
      → join_workers u ws k ≡ Returned.error
      → k ≡ Returned.error
  unfolding join_workers
  join_workers-error [] k f h = h
  join_workers-error (Worker.ended ∷ ws) k f h = join_workers-error ws k (omega arith) h
  join_workers-error (Worker.failed ∷ ws) k f h = absurd (omega arith)
  join_workers-error (Worker.waiting c ∷ ws) k f h = absurd cc
  join_workers-error (Worker.encoding c r ∷ ws) k f h = absurd cc
  join_workers-error (Worker.sending c e ∷ ws) k f h = absurd cc

  join_readers-error :
      (rs : List Reader) (k : Returned u)
      → total reader_failed rs ≡ 0
      → join_readers u rs k ≡ Returned.error
      → k ≡ Returned.error
  unfolding join_readers
  join_readers-error [] k f h = h
  join_readers-error (Reader.ended ∷ rs) k f h = join_readers-error rs k (omega arith) h
  join_readers-error (Reader.failed ∷ rs) k f h = absurd (omega arith)
  join_readers-error (Reader.waiting ∷ rs) k f h = absurd cc
  join_readers-error (Reader.reading i it ∷ rs) k f h = absurd cc
  join_readers-error (Reader.sending r ∷ rs) k f h = absurd cc

  join_feeder-error :
      (fd : Feeder) (k : Returned u)
      → feeder_failed fd ≡ 0
      → join_feeder u fd k ≡ Returned.error
      → k ≡ Returned.error
  join_feeder-error (Feeder.feeding l) k f h = absurd cc
  join_feeder-error (Feeder.joining l) k f h = absurd cc
  join_feeder-error Feeder.ended k f h = h
  join_feeder-error Feeder.failed k f h = absurd (omega arith)

  pub error-main :
      (s : State u) (m : Main u) → s.main ≡ m → failures u s ≡ 0 → returned u s ≡ Returned.error → ⊥
  unfolding returned
  error-main s (Main.writing l) e f h = let k = rw e at h in cc
  error-main s (Main.written l) e f h =
      let k = join_workers-error s.workers _ (omega arith) (
        join_readers-error s.readers _ (omega arith)
          (join_feeder-error s.feeder _ (omega arith) (rw e at h))) in
      cc
  error-main s Main.failed e f h = omega (arith, ap (main_failed u) e)

  pub joined_of :
      (r : Returned u)
      → r ≢ Returned.running
      → (r ≡ Returned.error → ⊥)
      → (l : Loop u.sink) × (r ≡ Returned.joined l)
  joined_of Returned.running h k = absurd (h refl)
  joined_of Returned.error h k = absurd (k refl)
  joined_of (Returned.joined l) h k = (l, refl)
