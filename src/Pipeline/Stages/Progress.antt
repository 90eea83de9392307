-- ===== src/Pipeline/Stages/Progress.antt =====
-- Which thread of `run` in src/pipeline.rs has a step, as long as `run` does not return.
use tzip.Prelude.{
  ℕ, suc, ◌<◌, Bool, true, false, ◌≡◌, refl, ap, ◌∙◌, ◌⊎◌, inl, inr, arith, Bool-cases, some, List,
  [], ◌∷◌, ◌++◌, ◌>>=◌, length, get_elem?, replicate, ◌≤◌, leb,
}
use tzip.Walk.Item.{WorkItem}
use tzip.Pipeline.Bounded.{Bounded, Sent}
use tzip.Pipeline.Stages.{
  Setup, Feeder, Reader, feeder_over, reader_over, all_over, Salt, Thread, Worker, Main,
  worker_over, main_over, State, read_bound, cpu_bound, walk_bound, feeder_end, fed, feeder_step,
  took_item, reader_step, sent_raw, took_raw, sent_entry, worker_step, took_entry, main_step, step,
}
use tzip.Pipeline.Stages.Moves.{recv-found, recv-over}
use tzip.Pipeline.Stages.Ends.{Returned, join_workers, join_readers, join_feeder, returned}

module _ {A : Type 0} where
  abbrev pub Open : Bool → ℕ → List A → Type 0
  Open gone bound q = (gone ≡ true) ⊎ (length q < bound)

  send-cases :
      (b : Bounded) (gone : Bool) (bound : ℕ) (x : A) (q : List A)
      → Open gone bound q
      → (b.send A gone bound x q ≡ Sent.disconnected)
        ⊎ (b.send A gone bound x q ≡ Sent.sent (q ++ (x ∷ [])))
  send-cases b true bound x q h = inl (b.send-disconnected A bound x q)
  send-cases b false bound x q (inl h) = absurd cc
  send-cases b false bound x q (inr h) = inr (b.send-sent A bound x q h)

  all_over-found :
      (p : A → Bool) (xs : List A)
      → all_over p xs ≡ false
      → (i : ℕ) × (x : A) × (get_elem? xs i ≡ some x) × (p x ≡ false)
  all_over-found p [] h = absurd cc
  all_over-found p (x ∷ xs) h = elim (Bool-cases (p x)) [
    | inl over ↦ let (i, y, e, n) = all_over-found p xs (rw over at h) in (suc i, y, e, n)
    | inr not_over ↦ (0, x, refl, not_over)
  ]

abbrev zeros : Salt
zeros = record { bytes = replicate 16 0; sized = refl }

module _ (u : Setup) where
  -- Some thread has a step.
  abbrev pub CanStep : State u → Type 0
  CanStep s = (t : Thread) × (s' : State u) × (step u s t ≡ some s')

  -- The feeder waits for a walker that has more items left than its channel has room for.
  abbrev pub IsBlocked : State u → Type 0
  IsBlocked s =
      (rest : List WorkItem) × (s.feeder ≡ Feeder.joining rest) × (walk_bound u < length rest)

  abbrev pub Goes : State u → Type 0
  Goes s = CanStep s ⊎ IsBlocked s

  joining_step :
      (s : State u) (rest : List WorkItem)
      → length rest ≤ walk_bound u
      → feeder_step u s (Feeder.joining rest) ≡ some (record s { feeder = feeder_end u })
  joining_step s rest fits =
      let small : leb (length rest) (walk_bound u) ≡ true = ground arith in rw small refl

  feeder-can :
      (s : State u) (f : Feeder)
      → s.feeder ≡ f
      → feeder_over f ≡ false
      → Open (all_over reader_over s.readers) (read_bound u) s.feed
      → Goes s
  unfolding step
  feeder-can s (Feeder.feeding []) e n o = inl (Thread.feeder, _, ap (feeder_step u s) e)
  feeder-can s (Feeder.feeding (it ∷ rest)) e n o =
      elim (send-cases u.bounded (all_over reader_over s.readers) (read_bound u)
        (s.index_counter, it) s.feed o) [
          | inl gone ↦ inl (Thread.feeder, _, ap (feeder_step u s) e ∙ ap (fed u s rest) gone)
          | inr took ↦ inl (Thread.feeder, _, ap (feeder_step u s) e ∙ ap (fed u s rest) took)
        ]
  feeder-can s (Feeder.joining rest) e n o = elim (Bool-cases (leb (length rest) (walk_bound u))) [
    | inl fits ↦ inl (Thread.feeder, _, ap (feeder_step u s) e ∙ joining_step s rest (ground arith))
    | inr full ↦ inr (rest, e, ground arith)
  ]
  feeder-can s Feeder.ended e n o = absurd cc
  feeder-can s Feeder.failed e n o = absurd cc

  reader_moves :
      (s : State u) (i : ℕ) (r : Reader) {s' : State u}
      → get_elem? s.readers i ≡ some r
      → reader_step u s i r ≡ some s'
      → Goes s
  unfolding step
  reader_moves s i r at_i moved =
      inl (Thread.reader i, _, ap (λ o. o >>= reader_step u s i) at_i ∙ moved)

  waiting-can :
      (s : State u) (i : ℕ) (over : Bool) (q : List (ℕ × WorkItem))
      → get_elem? s.readers i ≡ some Reader.waiting
      → feeder_over s.feeder ≡ over
      → s.feed ≡ q
      → Goes s
  waiting-can s i over (x ∷ q) at_i o e =
      reader_moves s i Reader.waiting at_i
        (ap (took_item u s i) (recv-found u.bounded (feeder_over s.feeder) x q e))
  waiting-can s i true [] at_i o e =
      reader_moves s i Reader.waiting at_i
        (ap (took_item u s i) (recv-over u.bounded (feeder_over s.feeder) o e))
  waiting-can s i false [] at_i o e = feeder-can s s.feeder refl o (inr (rw e (omega arith)))

  reader-can :
      (s : State u) (i : ℕ) (r : Reader)
      → get_elem? s.readers i ≡ some r
      → reader_over r ≡ false
      → Open (all_over (worker_over u) s.workers) (read_bound u) s.raw
      → Goes s
  reader-can s i Reader.waiting at_i n o =
      waiting-can s i (feeder_over s.feeder) s.feed at_i refl refl
  reader-can s i (Reader.reading index item) at_i n o = reader_moves s i _ at_i refl
  reader-can s i (Reader.sending r) at_i n o =
      elim (send-cases u.bounded (all_over (worker_over u) s.workers) (read_bound u) r s.raw o) [
        | inl gone ↦ reader_moves s i _ at_i (ap (sent_raw u s i) gone)
        | inr took ↦ reader_moves s i _ at_i (ap (sent_raw u s i) took)
      ]
  reader-can s i Reader.ended at_i n o = absurd cc
  reader-can s i Reader.failed at_i n o = absurd cc

  worker_moves :
      (s : State u) (i : ℕ) (w : Worker u) {s' : State u}
      → get_elem? s.workers i ≡ some w
      → worker_step u s i zeros w ≡ some s'
      → Goes s
  unfolding step
  worker_moves s i w at_i moved =
      inl (Thread.worker i zeros, _, ap (λ o. o >>= worker_step u s i zeros) at_i ∙ moved)

  idle-can :
      (s : State u) (i : ℕ) (c : _) (over : Bool) (q : List _)
      → get_elem? s.workers i ≡ some (Worker.waiting c)
      → all_over reader_over s.readers ≡ over
      → s.raw ≡ q
      → Goes s
  idle-can s i c over (x ∷ q) at_i o e =
      worker_moves s i _ at_i
        (ap (took_raw u s i c) (recv-found u.bounded (all_over reader_over s.readers) x q e))
  idle-can s i c true [] at_i o e =
      worker_moves s i _ at_i
        (ap (took_raw u s i c) (recv-over u.bounded (all_over reader_over s.readers) o e))
  idle-can s i c false [] at_i o e =
      let (j, r, at_j, n) = all_over-found reader_over s.readers o in
      reader-can s j r at_j n (inr (rw e (omega arith)))

  worker-can :
      (s : State u) (i : ℕ) (w : Worker u)
      → get_elem? s.workers i ≡ some w
      → worker_over u w ≡ false
      → Open (main_over u s.main) (cpu_bound u) s.enc
      → Goes s
  worker-can s i (Worker.waiting c) at_i n o =
      idle-can s i c (all_over reader_over s.readers) s.raw at_i refl refl
  worker-can s i (Worker.encoding c r) at_i n o = worker_moves s i _ at_i refl
  worker-can s i (Worker.sending c e) at_i n o =
      elim (send-cases u.bounded (main_over u s.main) (cpu_bound u) e s.enc o) [
        | inl gone ↦ worker_moves s i _ at_i (ap (sent_entry u s i c) gone)
        | inr took ↦ worker_moves s i _ at_i (ap (sent_entry u s i c) took)
      ]
  worker-can s i Worker.ended at_i n o = absurd cc
  worker-can s i Worker.failed at_i n o = absurd cc

  writing-can :
      (s : State u) (l : _) (over : Bool) (q : List _)
      → s.main ≡ Main.writing l
      → all_over (worker_over u) s.workers ≡ over
      → s.enc ≡ q
      → Goes s
  unfolding step
  writing-can s l over (x ∷ q) m o e = inl (
    Thread.main,
    _,
    ap (main_step u s) m
        ∙ ap (took_entry u s l) (recv-found u.bounded (all_over (worker_over u) s.workers) x q e),
  )
  writing-can s l true [] m o e = inl (
    Thread.main,
    _,
    ap (main_step u s) m
        ∙ ap (took_entry u s l) (recv-over u.bounded (all_over (worker_over u) s.workers) o e),
  )
  writing-can s l false [] m o e =
      let (i, w, at_i, n) = all_over-found (worker_over u) s.workers o in
      worker-can s i w at_i n (inr (rw e (omega arith)))

  join_workers-over :
      (ws : List (Worker u)) (k : Returned u)
      → all_over (worker_over u) ws ≡ true
      → join_workers u ws k ≡ Returned.running
      → k ≡ Returned.running
  unfolding join_workers
  join_workers-over [] k o h = h
  join_workers-over (Worker.ended ∷ ws) k o h = join_workers-over ws k o h
  join_workers-over (Worker.failed ∷ ws) k o h = absurd cc
  join_workers-over (Worker.waiting c ∷ ws) k o h = absurd cc
  join_workers-over (Worker.encoding c r ∷ ws) k o h = absurd cc
  join_workers-over (Worker.sending c e ∷ ws) k o h = absurd cc

  join_readers-over :
      (rs : List Reader) (k : Returned u)
      → all_over reader_over rs ≡ true
      → join_readers u rs k ≡ Returned.running
      → k ≡ Returned.running
  unfolding join_readers
  join_readers-over [] k o h = h
  join_readers-over (Reader.ended ∷ rs) k o h = join_readers-over rs k o h
  join_readers-over (Reader.failed ∷ rs) k o h = absurd cc
  join_readers-over (Reader.waiting ∷ rs) k o h = absurd cc
  join_readers-over (Reader.reading i it ∷ rs) k o h = absurd cc
  join_readers-over (Reader.sending r ∷ rs) k o h = absurd cc

  join_feeder-over :
      (f : Feeder) (k : Returned u)
      → feeder_over f ≡ true
      → join_feeder u f k ≡ Returned.running
      → k ≡ Returned.running
  join_feeder-over (Feeder.feeding l) k o h = absurd cc
  join_feeder-over (Feeder.joining l) k o h = absurd cc
  join_feeder-over Feeder.ended k o h = h
  join_feeder-over Feeder.failed k o h = absurd cc

  joined-ne-running : (l : _) (o : Returned u) → o ≡ Returned.joined l → o ≡ Returned.running → ⊥
  joined-ne-running l o e h = cc

  joining-can :
      (s : State u) (l : _)
      → s.main ≡ Main.written l
      → join_feeder u s.feeder
          (join_readers u s.readers (join_workers u s.workers (Returned.joined l)))
        ≡ Returned.running
      → Goes s
  joining-can s l m h = elim (Bool-cases (all_over (worker_over u) s.workers)) [
    | inr busy ↦
        let (i, w, at_i, n) = all_over-found (worker_over u) s.workers busy in
        worker-can s i w at_i n (inl (ap (main_over u) m))
    | inl idle ↦ elim (Bool-cases (all_over reader_over s.readers)) [
      | inr busy ↦
          let (i, r, at_i, n) = all_over-found reader_over s.readers busy in
          reader-can s i r at_i n (inl idle)
      | inl no_reader ↦ elim (Bool-cases (feeder_over s.feeder)) [
        | inr feeds ↦ feeder-can s s.feeder refl feeds (inl no_reader)
        | inl over ↦ absurd (
            joined-ne-running l _ refl (
              join_workers-over s.workers _ idle
                (join_readers-over s.readers _ no_reader (join_feeder-over s.feeder _ over h))))
      ]
    ]
  ]

  main-can : (s : State u) (m : Main u) → s.main ≡ m → returned u s ≡ Returned.running → Goes s
  unfolding returned
  main-can s (Main.writing l) e h =
      writing-can s l (all_over (worker_over u) s.workers) s.enc e refl refl
  main-can s (Main.written l) e h = joining-can s l e (rw e at h)
  main-can s Main.failed e h = absurd (let k = rw e at h in cc)

  pub step-Goes : (s : State u) → returned u s ≡ Returned.running → Goes s
  step-Goes s h = main-can s s.main refl h
