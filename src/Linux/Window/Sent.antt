-- ===== src/Linux/Window/Sent.antt =====
-- What the io_uring pass of src/linux_raw.rs sends.
use mathlib.Core.Path.{subst}
use tzip.Prelude.{
  ℕ, ◌≡◌, refl, sym, ap, ◌∙◌, Option, none, some, some-inj, Option-cases, inl, inr, List, [], ◌∷◌,
  ◌++◌, All, All-append, append_assoc, append-nil, get_elem?, take, zero, suc, All-append_left,
  All-append_right,
}
use tzip.Bytes.{Bytes}
use tzip.Channel.{RawItem, Channel, Outcome, Ends, Ends-both}
use tzip.Linux.Extent.{FileSystem}
use tzip.Linux.Uring.{Completion, Batch, start, read_batch}
use tzip.Linux.Uring.Filled.{IsFront, IsSound}
use tzip.Linux.Uring.Sound.{read_batch-IsSound}
use tzip.Linux.Uring.Keeps.{read_batch-IsKept}
use tzip.Linux.Window.{
  Job, job_item, logged, send_job, job_channel, sizes, batch_end, job_bytes, run_jobs,
}

module _ (fs : FileSystem) (ch : Channel RawItem) (contents : fs.File → Bytes)
    (jobs : List (Job fs)) (s₀ : ch.State) where
  -- An item of one of the jobs, with the front of its file up to the size in the `WorkItem`.
  pub record IsJobItem (r : RawItem) : Type 0 where
    pub number : ℕ
    pub job : Job fs
    pub there : get_elem? jobs number ≡ some job
    pub index : r.index ≡ job.1
    pub item : r.item ≡ job.2
    pub bytes : r.bytes ≡ take job.2.size (contents job.0)

  abbrev Log : Type 0
  Log = ch.State × List (ℕ × Bytes)

  abbrev file : ℕ → Bytes
  file i = job_bytes fs ch contents (get_elem? jobs i)

  abbrev IsFirst : ℕ × Bytes → Type 0
  IsFirst = IsFront (job_channel fs ch jobs) file (sizes fs ch jobs) (s₀, [])

  abbrev pub IsSent : ch.State → Type 0
  IsSent s = (out : List RawItem) × (ch.received s ≡ ch.received s₀ ++ out) × All IsJobItem out

  -- What was sent are the buffers of the log, if these are fronts of their files.
  abbrev IsLogged : Log → Type 0
  IsLogged w = All IsFirst w.1 → IsSent w.0

  get_elem?-map :
      (xs : List (Job fs)) (i : ℕ) (j : Job fs)
      → get_elem? xs i ≡ some j
      → get_elem? (sizes fs ch xs) i ≡ some j.2.size
  get_elem?-map [] i j h = absurd cc
  get_elem?-map (x ∷ xs) zero j h = ap (λ (y : Job fs). some y.2.size) (some-inj h)
  get_elem?-map (x ∷ xs) (suc i) j h = get_elem?-map xs i j h

  IsFirst-IsJobItem :
      (i : ℕ) (buf : Bytes) (j : Job fs)
      → get_elem? jobs i ≡ some j
      → IsFirst (i, buf)
      → IsJobItem (job_item fs ch j buf)
  IsFirst-IsJobItem i buf j there (len, asked, front) =
      let size : len ≡ j.2.size = some-inj (sym asked ∙ get_elem?-map jobs i j there) in
      let front' : buf ≡ take len (contents j.0) = rw there at front in
      record {
        number = i;
        job = j;
        there = there;
        index = refl;
        item = refl;
        bytes = front' ∙ ap (λ (n : ℕ). take n (contents j.0)) size;
      }

  logged-IsLogged :
      (i : ℕ) (buf : Bytes) (j : Job fs) (s : ch.State) (log : List (ℕ × Bytes))
      (o : Option ch.State) (w : Log)
      → get_elem? jobs i ≡ some j
      → ch.send (job_item fs ch j buf) s ≡ o
      → IsLogged (s, log)
      → logged fs ch (i, buf) log o ≡ some w
      → IsLogged w
  logged-IsLogged i buf j s log none w there e h g = absurd cc
  logged-IsLogged i buf j s log (some s') w there e h g = subst IsLogged (some-inj g) (λ all.
      let (out, got, right) = h (All-append_left IsFirst log ((i, buf) ∷ []) all) in
      let last : IsFirst (i, buf) = (All-append_right IsFirst log ((i, buf) ∷ []) all).0 in
      let r : RawItem = job_item fs ch j buf in
      (
        out ++ (r ∷ []),
        ch.send-received r s s' e
            ∙ (ap (λ (l : List RawItem). l ++ (r ∷ [])) got
                ∙ append_assoc (ch.received s₀) out (r ∷ [])),
        All-append IsJobItem out (r ∷ []) right (IsFirst-IsJobItem i buf j there last, tt),
      ))

  send_job-IsLogged :
      (x : ℕ × Bytes) (w w' : Log) → IsLogged w → send_job fs ch jobs x w ≡ some w' → IsLogged w'
  send_job-IsLogged (i, buf) (s, log) w' h e = elim (Option-cases (get_elem? jobs i)) [
    | inl gone ↦ absurd (let e' : none ≡ some w' = rw gone at e in cc)
    | inr (j, there) ↦
        logged-IsLogged i buf j s log (ch.send (job_item fs ch j buf) s) w' there refl h
          (rw there at e)
  ]

  batch_end-Ends :
      (P : Batch (job_channel fs ch jobs) → Type 0)
      → ((b : Batch (job_channel fs ch jobs)) → P b → IsSent b.chan.0)
      → (o : Outcome (Batch (job_channel fs ch jobs))) → Ends P o
      → Ends IsSent (batch_end fs ch jobs o)
  batch_end-Ends P f (Outcome.failed b) h = f b h
  batch_end-Ends P f Outcome.panicked h = tt
  batch_end-Ends P f (Outcome.closed b) h = f b h
  batch_end-Ends P f (Outcome.next b) h = f b h

  -- However the reads of a window's open files end, and whatever completions come: every item sent is that of
  -- one of the files, with its index and `WorkItem`, and the front of that file's contents up to its size.
  pub run_jobs-IsSent :
      (rounds : List (List Completion)) → Ends IsSent (run_jobs fs ch contents rounds jobs s₀)
  unfolding run_jobs start
  run_jobs-IsSent rounds =
      let jc : Channel (ℕ × Bytes) = job_channel fs ch jobs in
      let lens : List ℕ = sizes fs ch jobs in
      let b₀ : Batch jc = start jc lens (s₀, []) in
      batch_end-Ends (λ b. IsSound jc file lens (s₀, []) b × IsLogged b.chan)
        (λ b h. h.1 (rw (← h.0.received) at h.0.right)) (read_batch jc file rounds b₀)
        (Ends-both (IsSound jc file lens (s₀, [])) (λ b. IsLogged b.chan)
          (read_batch jc file rounds b₀) (read_batch-IsSound jc file lens (s₀, []) rounds)
          (read_batch-IsKept jc file IsLogged send_job-IsLogged rounds b₀
            (λ all. ([], sym (append-nil (ch.received s₀)), tt))))
