-- ===== src/Linux/Window.antt =====
-- The io_uring pass of a window in src/linux_raw.rs: files that could not be opened are read by their paths,
-- the others by `read_batch`, whose jobs are mapped back to their entries.
pub mod Sent
use tzip.Prelude.{
  ℕ, ◌≡◌, sym, ap, some-inj, Option, none, some, ◌>>=◌, List, [], ◌∷◌, ◌++◌, map, get_elem?,
}
use tzip.Bytes.{Bytes}
use tzip.Walk.Item.{WorkItem}
use tzip.Channel.{RawItem, Channel, Outcome, and_then, then_loop}
use tzip.Linux.Extent.{FileSystem, Entry, read_input, send_read, ordered}
use tzip.Linux.Uring.{Completion, Batch, start, read_batch}

module _ (fs : FileSystem) where
  abbrev pub Job : Type 0
  Job = fs.File × ℕ × WorkItem

  abbrev pub add_job : Option fs.File → ℕ → WorkItem → List Job → List Job
  add_job none index item jobs = jobs
  add_job (some f) index item jobs = (f, index, item) ∷ jobs

  -- The entries with an open file.
  unfoldable pub jobs_of : List (Entry fs) → List Job
  jobs_of [] = []
  jobs_of (e ∷ es) = add_job e.file e.index e.item (jobs_of es)

  module _ (ch : Channel RawItem) where
    abbrev pub read_unopened : Option fs.File → ℕ → WorkItem → ch.State → Outcome ch.State
    read_unopened (some f) index item s = Outcome.next s
    read_unopened none index item s =
        send_read fs ch index item (read_input fs item.path item.size) s

    abbrev pub by_path : Entry fs → ch.State → Outcome ch.State
    by_path e s = read_unopened e.file e.index e.item s

    -- `emit`: a buffer is sent as the item of its job. The numbers of the jobs are kept beside.
    abbrev pub job_item : Job → Bytes → RawItem
    job_item (f, index, item) buf = record { index = index; item = item; bytes = buf }

    abbrev pub logged :
        ℕ × Bytes → List (ℕ × Bytes) → Option ch.State → Option (ch.State × List (ℕ × Bytes))
    logged x log none = none
    logged x log (some s) = some (s, log ++ (x ∷ []))

    abbrev pub send_job :
        List Job → ℕ × Bytes → ch.State × List (ℕ × Bytes) → Option (ch.State × List (ℕ × Bytes))
    send_job jobs (i, buf) (s, log) =
        logged (i, buf) log (get_elem? jobs i >>= λ j. ch.send (job_item j buf) s)

    pub logged_last :
        (x : ℕ × Bytes) (log : List (ℕ × Bytes)) (o : Option ch.State)
        (s : ch.State × List (ℕ × Bytes))
        → logged x log o ≡ some s
        → s.1 ≡ log ++ (x ∷ [])
    logged_last x log none s h = absurd cc
    logged_last x log (some t) s h =
        ap (λ (p : ch.State × List (ℕ × Bytes)). p.1) (sym (some-inj h))

    abbrev pub job_channel : List Job → Channel (ℕ × Bytes)
    job_channel jobs = record {
      State = ch.State × List (ℕ × Bytes);
      send = send_job jobs;
      received = λ s. s.1;
      send-received = λ x s s' h.
          logged_last x s.1 (get_elem? jobs x.0 >>= λ j. ch.send (job_item j x.1) s.0) s' h;
    }

    abbrev pub sizes : List Job → List ℕ
    sizes jobs = map (λ (j : Job). j.2.size) jobs

    -- `return Ok(())` where the channel is closed.
    abbrev pub batch_end : (jobs : List Job) → Outcome (Batch (job_channel jobs)) → Outcome ch.State
    batch_end jobs (Outcome.failed b) = Outcome.failed b.chan.0
    batch_end jobs Outcome.panicked = Outcome.panicked
    batch_end jobs (Outcome.closed b) = Outcome.closed b.chan.0
    batch_end jobs (Outcome.next b) = Outcome.next b.chan.0

    module _ (contents : fs.File → Bytes) where
      abbrev pub job_bytes : Option Job → Bytes
      job_bytes none = []
      job_bytes (some j) = contents j.0

      module _ (rounds : List (List Completion)) where
        unfoldable pub run_jobs : List Job → ch.State → Outcome ch.State
        run_jobs jobs s = batch_end jobs (
            read_batch (job_channel jobs) (λ i. job_bytes (get_elem? jobs i)) rounds
              (start (job_channel jobs) (sizes jobs) (s, [])))

        unfoldable pub read_window_uring : List (ℕ × WorkItem) → ch.State → Outcome ch.State
        read_window_uring window s =
            let entries : List (Entry fs) = ordered fs ch window in
            and_then (then_loop by_path entries s) (run_jobs (jobs_of entries))
