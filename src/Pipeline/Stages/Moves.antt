-- ===== src/Pipeline/Stages/Moves.antt =====
-- The steps of the threads of src/pipeline.rs as a relation: what a thread found, and what it changed.
use tzip.Prelude.{
  ℕ, ◌+◌, ◌<◌, Bool, true, false, ◌≡◌, refl, ap, ◌∙◌, ◌⊎◌, ◌≤◌, arith, Bool-cases, inl, inr, Option,
  none, some, List, [], ◌∷◌, ◌++◌, length, get_elem?, Option-cases, leb,
}
use tzip.Prelude.Totals.{set}
use tzip.Walk.Item.{WorkItem}
use tzip.Channel.{RawItem}
use tzip.Compress.{Scratch}
use tzip.Zip.Entry.{EncodedEntry}
use tzip.Pipeline.Reorder.{Loop}
use tzip.Pipeline.Bounded.{Bounded, Received}
use tzip.Pipeline.Stages.{
  Setup, Feeder, Reader, feeder_over, reader_over, all_over, Salt, Thread, Worker, Main,
  worker_over, main_over, State, read_bound, cpu_bound, walk_bound, feeder_end, cut_off,
  feeder_step, put_reader, took_item, read_done, reader_step, put_worker, took_raw, encode,
  encode_done, worker_step, write_one, write_done, took_entry, main_step, step,
}

module _ {A : Type 0} (b : Bounded) (gone : Bool) {l : List A} where
  pub recv-found : (x : A) (q : List A) → l ≡ x ∷ q → b.recv A gone l ≡ Received.received x q
  recv-found x q e = ap (b.recv A gone) e ∙ b.recv-received A gone x q

  pub recv-over : gone ≡ true → l ≡ [] → b.recv A gone l ≡ Received.disconnected
  recv-over o e = ap (b.recv A gone) e ∙ ap (λ g. b.recv A g []) o ∙ b.recv-disconnected A

  recv-waits : gone ≡ false → l ≡ [] → b.recv A gone l ≡ Received.empty
  recv-waits o e = ap (b.recv A gone) e ∙ ap (λ g. b.recv A g []) o ∙ b.recv-empty A

room-cases : {A : Type 0} (q : List A) (bound : ℕ) → (length q < bound) ⊎ (bound ≤ length q)
room-cases q bound = omega arith

module _ (u : Setup) where
  pub data Step (s : State u) : State u → Type 0 where
    feed_end : s.feeder ≡ Feeder.feeding [] → Step s (record s { feeder = feeder_end u })
    feed_sent :
        {it : WorkItem} {rest : List WorkItem}
        → s.feeder ≡ Feeder.feeding (it ∷ rest)
        → length s.feed < read_bound u
        → Step s (record s {
          index_counter = s.index_counter + 1;
          feeder = Feeder.feeding rest;
          feed = s.feed ++ ((s.index_counter, it) ∷ []);
        })
    feed_gone :
        {it : WorkItem} {rest : List WorkItem}
        → s.feeder ≡ Feeder.feeding (it ∷ rest)
        → all_over reader_over s.readers ≡ true
        → Step s (record s { index_counter = s.index_counter + 1; feeder = cut_off u rest })
    feed_joined :
        {rest : List WorkItem}
        → s.feeder ≡ Feeder.joining rest
        → length rest ≤ walk_bound u
        → Step s (record s { feeder = feeder_end u })
    reader_took :
        (i index : ℕ) (item : WorkItem) (q : List (ℕ × WorkItem))
        → get_elem? s.readers i ≡ some Reader.waiting
        → s.feed ≡ (index, item) ∷ q
        → Step s (record s { feed = q; readers = set s.readers i (Reader.reading index item) })
    reader_end :
        (i : ℕ)
        → get_elem? s.readers i ≡ some Reader.waiting
        → s.feed ≡ []
        → feeder_over s.feeder ≡ true
        → Step s (put_reader u s i Reader.ended)
    reader_read :
        (i index : ℕ) (item : WorkItem)
        → get_elem? s.readers i ≡ some (Reader.reading index item)
        → Step s (put_reader u s i (read_done u index item (u.read item)))
    reader_sent :
        (i : ℕ) (r : RawItem)
        → get_elem? s.readers i ≡ some (Reader.sending r)
        → length s.raw < read_bound u
        → Step s (record s { readers = set s.readers i Reader.waiting; raw = s.raw ++ (r ∷ []) })
    reader_gone :
        (i : ℕ) (r : RawItem)
        → get_elem? s.readers i ≡ some (Reader.sending r)
        → all_over (worker_over u) s.workers ≡ true
        → Step s (put_reader u s i Reader.ended)
    worker_took :
        (i : ℕ) (c : Scratch u.codecs) (r : RawItem) (q : List RawItem)
        → get_elem? s.workers i ≡ some (Worker.waiting c)
        → s.raw ≡ r ∷ q
        → Step s (record s { raw = q; workers = set s.workers i (Worker.encoding c r) })
    worker_end :
        (i : ℕ) (c : Scratch u.codecs)
        → get_elem? s.workers i ≡ some (Worker.waiting c)
        → s.raw ≡ []
        → all_over reader_over s.readers ≡ true
        → Step s (put_worker u s i Worker.ended)
    worker_encoded :
        (i : ℕ) (c : Scratch u.codecs) (r : RawItem) (salt : Salt)
        → get_elem? s.workers i ≡ some (Worker.encoding c r)
        → Step s (put_worker u s i (encode_done u (encode u salt r c)))
    worker_sent :
        (i : ℕ) (c : Scratch u.codecs) (e : EncodedEntry)
        → get_elem? s.workers i ≡ some (Worker.sending c e)
        → length s.enc < cpu_bound u
        → Step s
            (record s { workers = set s.workers i (Worker.waiting c); enc = s.enc ++ (e ∷ []) })
    worker_gone :
        (i : ℕ) (c : Scratch u.codecs) (e : EncodedEntry)
        → get_elem? s.workers i ≡ some (Worker.sending c e)
        → main_over u s.main ≡ true
        → Step s (put_worker u s i Worker.ended)
    main_took :
        (l : Loop u.sink) (e : EncodedEntry) (q : List EncodedEntry)
        → s.main ≡ Main.writing l
        → s.enc ≡ e ∷ q
        → Step s (record s { enc = q; main = write_done u (write_one u l e) })
    main_end :
        (l : Loop u.sink)
        → s.main ≡ Main.writing l
        → s.enc ≡ []
        → all_over (worker_over u) s.workers ≡ true
        → Step s (record s { main = Main.written l })

  abbrev Moves : State u → Option (State u) → Type 0
  Moves s none = Unit
  Moves s (some s') = Step s s'

  module _ (s : State u) where
    feeder-Moves : (f : Feeder) → s.feeder ≡ f → Moves s (feeder_step u s f)
    feeder-Moves (Feeder.feeding []) e = Step.feed_end e
    feeder-Moves (Feeder.feeding (it ∷ rest)) e =
        elim (Bool-cases (all_over reader_over s.readers)) [
          | inl gone ↦
              rw
                (
                  gone,
                  u.bounded.send-disconnected (ℕ × WorkItem) (read_bound u) (s.index_counter, it)
                      s.feed,
                )
                (Step.feed_gone e gone)
          | inr there ↦ elim (room-cases s.feed (read_bound u)) [
            | inl fits ↦
                rw
                  (
                    there,
                    u.bounded.send-sent (ℕ × WorkItem) (read_bound u) (s.index_counter, it) s.feed
                        fits,
                  )
                  (Step.feed_sent e fits)
            | inr full ↦
                rw
                  (
                    there,
                    u.bounded.send-full (ℕ × WorkItem) (read_bound u) (s.index_counter, it) s.feed
                        full,
                  )
                  tt
          ]
        ]
    feeder-Moves (Feeder.joining rest) e = elim (Bool-cases (leb (length rest) (walk_bound u))) [
      | inl fits ↦ rw fits (Step.feed_joined e (ground arith))
      | inr full ↦ rw full tt
    ]
    feeder-Moves Feeder.ended e = tt
    feeder-Moves Feeder.failed e = tt

    waiting-Moves :
        (i : ℕ) (over : Bool) (q : List (ℕ × WorkItem))
        → get_elem? s.readers i ≡ some Reader.waiting
        → feeder_over s.feeder ≡ over
        → s.feed ≡ q
        → Moves s (took_item u s i (u.bounded.recv (ℕ × WorkItem) over q))
    waiting-Moves i over ((index, item) ∷ q) at_i o e =
        rw (u.bounded.recv-received _ over _ q) (Step.reader_took i index item q at_i e)
    waiting-Moves i true [] at_i o e =
        rw (u.bounded.recv-disconnected (ℕ × WorkItem)) (Step.reader_end i at_i e o)
    waiting-Moves i false [] at_i o e = rw (u.bounded.recv-empty (ℕ × WorkItem)) tt

    reader-Moves :
        (i : ℕ) (r : Reader) → get_elem? s.readers i ≡ some r → Moves s (reader_step u s i r)
    reader-Moves i Reader.waiting at_i =
        waiting-Moves i (feeder_over s.feeder) s.feed at_i refl refl
    reader-Moves i (Reader.reading index item) at_i = Step.reader_read i index item at_i
    reader-Moves i (Reader.sending r) at_i =
        elim (Bool-cases (all_over (worker_over u) s.workers)) [
          | inl gone ↦
              rw (gone, u.bounded.send-disconnected RawItem (read_bound u) r s.raw)
                (Step.reader_gone i r at_i gone)
          | inr there ↦ elim (room-cases s.raw (read_bound u)) [
            | inl fits ↦
                rw (there, u.bounded.send-sent RawItem (read_bound u) r s.raw fits)
                  (Step.reader_sent i r at_i fits)
            | inr full ↦ rw (there, u.bounded.send-full RawItem (read_bound u) r s.raw full) tt
          ]
        ]
    reader-Moves i Reader.ended at_i = tt
    reader-Moves i Reader.failed at_i = tt

    idle-Moves :
        (i : ℕ) (c : Scratch u.codecs) (over : Bool) (q : List RawItem)
        → get_elem? s.workers i ≡ some (Worker.waiting c)
        → all_over reader_over s.readers ≡ over
        → s.raw ≡ q
        → Moves s (took_raw u s i c (u.bounded.recv RawItem over q))
    idle-Moves i c over (r ∷ q) at_i o e =
        rw (u.bounded.recv-received _ over _ q) (Step.worker_took i c r q at_i e)
    idle-Moves i c true [] at_i o e =
        rw (u.bounded.recv-disconnected RawItem) (Step.worker_end i c at_i e o)
    idle-Moves i c false [] at_i o e = rw (u.bounded.recv-empty RawItem) tt

    worker-Moves :
        (i : ℕ) (salt : Salt) (w : Worker u)
        → get_elem? s.workers i ≡ some w
        → Moves s (worker_step u s i salt w)
    worker-Moves i salt (Worker.waiting c) at_i =
        idle-Moves i c (all_over reader_over s.readers) s.raw at_i refl refl
    worker-Moves i salt (Worker.encoding c r) at_i = Step.worker_encoded i c r salt at_i
    worker-Moves i salt (Worker.sending c e) at_i = elim (Bool-cases (main_over u s.main)) [
      | inl gone ↦
          rw (gone, u.bounded.send-disconnected EncodedEntry (cpu_bound u) e s.enc)
            (Step.worker_gone i c e at_i gone)
      | inr there ↦ elim (room-cases s.enc (cpu_bound u)) [
        | inl fits ↦
            rw (there, u.bounded.send-sent EncodedEntry (cpu_bound u) e s.enc fits)
              (Step.worker_sent i c e at_i fits)
        | inr full ↦ rw (there, u.bounded.send-full EncodedEntry (cpu_bound u) e s.enc full) tt
      ]
    ]
    worker-Moves i salt Worker.ended at_i = tt
    worker-Moves i salt Worker.failed at_i = tt

    writing-Moves :
        (l : Loop u.sink) (over : Bool) (q : List EncodedEntry)
        → s.main ≡ Main.writing l
        → all_over (worker_over u) s.workers ≡ over
        → s.enc ≡ q
        → Moves s (took_entry u s l (u.bounded.recv EncodedEntry over q))
    writing-Moves l over (x ∷ q) m o e =
        rw (u.bounded.recv-received _ over _ q) (Step.main_took l x q m e)
    writing-Moves l true [] m o e =
        rw (u.bounded.recv-disconnected EncodedEntry) (Step.main_end l m e o)
    writing-Moves l false [] m o e = rw (u.bounded.recv-empty EncodedEntry) tt

    main-Moves : (m : Main u) → s.main ≡ m → Moves s (main_step u s m)
    main-Moves (Main.writing l) m =
        writing-Moves l (all_over (worker_over u) s.workers) s.enc m refl refl
    main-Moves (Main.written l) m = tt
    main-Moves Main.failed m = tt

    thread-Moves : (t : Thread) → Moves s (step u s t)
    unfolding step
    thread-Moves Thread.feeder = feeder-Moves s.feeder refl
    thread-Moves (Thread.reader i) = elim (Option-cases (get_elem? s.readers i)) [
      | inl over ↦ rw over tt
      | inr (r, at_i) ↦ rw at_i (reader-Moves i r at_i)
    ]
    thread-Moves (Thread.worker i salt) = elim (Option-cases (get_elem? s.workers i)) [
      | inl over ↦ rw over tt
      | inr (w, at_i) ↦ rw at_i (worker-Moves i salt w at_i)
    ]
    thread-Moves Thread.main = main-Moves s.main refl

    pub step-Step : (t : Thread) {s' : State u} → step u s t ≡ some s' → Step s s'
    step-Step t e = rw e at (thread-Moves t)
