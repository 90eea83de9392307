-- ===== src/Pipeline/Stages/Ends.antt =====
-- How `run` of src/pipeline.rs comes back from its threads: the writer's result, then the joins.
use tzip.Prelude.{List, [], ◌∷◌}
use tzip.Pipeline.Reorder.{Loop}
use tzip.Pipeline.Stages.{Setup, Feeder, Reader, Worker, Main, State}

module _ (u : Setup) where
  pub data Returned : Type 0 where
    running : Returned
    error : Returned
    joined : Loop u.sink → Returned

  -- `h.join().ok().transpose()?`: a thread that is not over is waited for.
  unfoldable pub join_workers : List (Worker u) → Returned → Returned
  join_workers [] k = k
  join_workers (Worker.ended ∷ ws) k = join_workers ws k
  join_workers (Worker.failed ∷ ws) k = Returned.error
  join_workers (Worker.waiting c ∷ ws) k = Returned.running
  join_workers (Worker.encoding c r ∷ ws) k = Returned.running
  join_workers (Worker.sending c e ∷ ws) k = Returned.running

  unfoldable pub join_readers : List Reader → Returned → Returned
  join_readers [] k = k
  join_readers (Reader.ended ∷ rs) k = join_readers rs k
  join_readers (Reader.failed ∷ rs) k = Returned.error
  join_readers (Reader.waiting ∷ rs) k = Returned.running
  join_readers (Reader.reading i it ∷ rs) k = Returned.running
  join_readers (Reader.sending r ∷ rs) k = Returned.running

  abbrev pub join_feeder : Feeder → Returned → Returned
  join_feeder (Feeder.feeding l) k = Returned.running
  join_feeder (Feeder.joining l) k = Returned.running
  join_feeder Feeder.ended k = k
  join_feeder Feeder.failed k = Returned.error

  abbrev pub returned_by : State u → Main u → Returned
  returned_by s (Main.writing l) = Returned.running
  returned_by s (Main.written l) =
      join_feeder s.feeder (join_readers s.readers (join_workers s.workers (Returned.joined l)))
  returned_by s Main.failed = Returned.error

  unfoldable pub returned : State u → Returned
  returned s = returned_by s s.main
