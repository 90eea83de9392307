-- ===== src/Pipeline/Stages/Sound.antt =====
-- The invariant of the threads of `run` in src/pipeline.rs, along every schedule.
use tzip.Prelude.{
  ℕ, zero, suc, ◌≤◌, ◌≡◌, ◌⊎◌, inl, inr, refl, ap, ◌∙◌, arith, Option, Option-cases, none, some,
  List, [], ◌∷◌, ◌++◌, ◌>>=◌, length, drop, replicate, All,
}
use tzip.Prelude.Totals.{total}
use tzip.Walk.Item.{WorkItem}
use tzip.Zip.Entry.{EncodedEntry}
use tzip.Zip.Writer.{ZipWriter}
use tzip.Pipeline.Reorder.{Loop, start}
use tzip.Compress
use tzip.Pipeline.Stages.{
  Setup, Feeder, Reader, Thread, Worker, Main, State, begin, write_one, write_done, step, run,
}
use tzip.Pipeline.Stages.Moves.{Step, step-Step}
use tzip.Pipeline.Stages.Contents.{FeederHas, ReaderHas, WorkerHas, Contents, after, Step-Contents}
use tzip.Pipeline.Stages.Count.{
  feeder_ended, feeder_joining, reader_ended, worker_ended, failures, Ends, feed_gone-absurd,
}
use tzip.Pipeline.Stages.Keeps.{Step-failures, Step-Ends}
use tzip.Pipeline.Stages.Held.{reader_here, worker_here, Counted, Step-held}

module _ {A : Type 0} where
  replicate-All : (P : A → Type 0) (n : ℕ) (x : A) → P x → All P (replicate n x)
  replicate-All P zero x p = tt
  replicate-All P (suc n) x p = (p, replicate-All P n x p)

  pub total-replicate : (w : A → ℕ) (n : ℕ) (x : A) → w x ≡ 0 → total w (replicate n x) ≡ 0
  total-replicate w zero x e = refl
  total-replicate w (suc n) x e = omega (arith, total-replicate w n x e)

  length-replicate : (n : ℕ) (x : A) → length (replicate n x) ≡ n
  length-replicate zero x = refl
  length-replicate (suc n) x = omega (arith, length-replicate n x)

module _ (u : Setup) where
  -- The writer on the entries that it has received.
  unfoldable pub receives : Loop u.sink → List EncodedEntry → Option (Loop u.sink)
  receives l [] = some l
  receives l (e ∷ es) = write_one u l e >>= λ l'. receives l' es

  receives-snoc :
      (l : Loop u.sink) (a : List EncodedEntry) (e : EncodedEntry)
      → receives l (a ++ (e ∷ [])) ≡ (receives l a >>= λ l'. write_one u l' e)
  unfolding receives
  receives-snoc l [] e = at_last (write_one u l e)
    where
      at_last : (o : Option (Loop u.sink)) → (o >>= λ l'. some l') ≡ o
      at_last none = refl
      at_last (some l') = refl
  receives-snoc l (x ∷ a) e = at_next (write_one u l x) (λ l'. receives-snoc l' a e)
    where
      at_next :
          (o : Option (Loop u.sink))
          → ((l' : Loop u.sink)
              → receives l' (a ++ (e ∷ [])) ≡ (receives l' a >>= λ k. write_one u k e))
          → (o >>= λ l'. receives l' (a ++ (e ∷ [])))
            ≡ ((o >>= λ l'. receives l' a) >>= λ k. write_one u k e)
      at_next none h = refl
      at_next (some l') h = h l'

  module _ (zw : ZipWriter u.sink) where
    abbrev pub MainHas : List EncodedEntry → Main u → Type 0
    MainHas a (Main.writing l) = receives (start u.sink zw) a ≡ some l
    MainHas a (Main.written l) = receives (start u.sink zw) a ≡ some l
    MainHas a Main.failed = Unit

    write_done-MainHas :
        (a : List EncodedEntry) (o : Option (Loop u.sink))
        → receives (start u.sink zw) a ≡ o
        → MainHas a (write_done u o)
    write_done-MainHas a none e = tt
    write_done-MainHas a (some l) e = e

    Step-MainHas :
        (a : List EncodedEntry) (s : State u) {s' : State u} (st : Step u s s')
        → MainHas a s.main
        → MainHas (after u a st) s'.main
    Step-MainHas a s (Step.main_took l e q m eq) h =
        let before : receives (start u.sink zw) a ≡ some l = rw m at h in
        write_done-MainHas (a ++ (e ∷ [])) (write_one u l e)
          (receives-snoc (start u.sink zw) a e ∙ ap (λ o. o >>= λ k. write_one u k e) before)
    Step-MainHas a s (Step.main_end l m eq o) h = rw m at h
    Step-MainHas a s (Step.feed_end e) h = h
    Step-MainHas a s (Step.feed_sent e fits) h = h
    Step-MainHas a s (Step.feed_gone e gone) h = h
    Step-MainHas a s (Step.feed_joined e fits) h = h
    Step-MainHas a s (Step.reader_took i index item q at_i e) h = h
    Step-MainHas a s (Step.reader_end i at_i e o) h = h
    Step-MainHas a s (Step.reader_read i index item at_i) h = h
    Step-MainHas a s (Step.reader_sent i r at_i fits) h = h
    Step-MainHas a s (Step.reader_gone i r at_i gone) h = h
    Step-MainHas a s (Step.worker_took i c r q at_i e) h = h
    Step-MainHas a s (Step.worker_end i c at_i e o) h = h
    Step-MainHas a s (Step.worker_encoded i c r salt at_i) h = h
    Step-MainHas a s (Step.worker_sent i c e at_i fits) h = h
    Step-MainHas a s (Step.worker_gone i c e at_i gone) h = h

    module _ (items : List WorkItem) where
      -- The feeder ends with every item.
      abbrev pub AllFed : State u → Type 0
      AllFed s = (feeder_ended s.feeder ≡ 0) ⊎ (s.index_counter ≡ length items)

      -- While no thread has failed.
      pub record Fine (a : List EncodedEntry) (s : State u) : Type 0 where
        pub ends : Ends u s
        pub counted : Counted u a s
        pub all_fed : AllFed s

      pub record Inv (a : List EncodedEntry) (s : State u) : Type 0 where
        pub contents : Contents u items a s
        pub written : MainHas a s.main
        pub fine : failures u s ≡ 0 → Fine a s

      left_none : (n : ℕ) (xs : List WorkItem) → [] ≡ drop n xs → n ≤ length xs → n ≡ length xs
      left_none zero [] e h = refl
      left_none zero (x ∷ xs) e h = absurd cc
      left_none (suc n) [] e h = absurd (omega arith)
      left_none (suc n) (x ∷ xs) e h = omega (arith, left_none n xs e)

      Step-AllFed :
          (a : List EncodedEntry) (s : State u) {s' : State u}
          → Contents u items a s
          → Ends u s
          → failures u s ≡ 0
          → Step u s s'
          → AllFed s
          → AllFed s'
      Step-AllFed a s c n fine (Step.feed_end e) h =
          let (left, le) : FeederHas u items s.index_counter (Feeder.feeding []) = rw e at c.left in
          inr (left_none s.index_counter items left le)
      Step-AllFed a s c n fine (Step.feed_sent e fits) h = inl refl
      Step-AllFed a s c n fine (Step.feed_gone e gone) h =
          absurd (feed_gone-absurd u s n fine e gone)
      Step-AllFed a s c n fine (Step.feed_joined e fits) h =
          absurd (let on = n.feeder_on in omega (arith, ap feeder_joining e))
      Step-AllFed a s c n fine (Step.reader_took i index item q at_i e) h = h
      Step-AllFed a s c n fine (Step.reader_end i at_i e o) h = h
      Step-AllFed a s c n fine (Step.reader_read i index item at_i) h = h
      Step-AllFed a s c n fine (Step.reader_sent i r at_i fits) h = h
      Step-AllFed a s c n fine (Step.reader_gone i r at_i gone) h = h
      Step-AllFed a s c n fine (Step.worker_took i c' r q at_i e) h = h
      Step-AllFed a s c n fine (Step.worker_end i c' at_i e o) h = h
      Step-AllFed a s c n fine (Step.worker_encoded i c' r salt at_i) h = h
      Step-AllFed a s c n fine (Step.worker_sent i c' e at_i fits) h = h
      Step-AllFed a s c n fine (Step.worker_gone i c' e at_i gone) h = h
      Step-AllFed a s c n fine (Step.main_took l e q m eq) h = h
      Step-AllFed a s c n fine (Step.main_end l m eq o) h = h

      Step-Inv :
          (a : List EncodedEntry) (s : State u) {s' : State u} (st : Step u s s')
          → Inv a s
          → Inv (after u a st) s'
      Step-Inv a s {s'} st h = record {
        contents = Step-Contents u items a s h.contents st;
        written = Step-MainHas a s st h.written;
        fine = λ none'.
            let none_yet : failures u s ≡ 0 = omega (arith, Step-failures u s st) in
            let f = h.fine none_yet in
            record {
              ends = Step-Ends u s f.ends st none_yet none';
              counted = Step-held u a s f.ends none_yet st none' f.counted;
              all_fed = Step-AllFed a s h.contents f.ends none_yet st f.all_fed;
            };
      }

      -- What holds is kept along a schedule.
      pub run-Inv :
          (ts : List Thread) (a : List EncodedEntry) (s : State u)
          → Inv a s
          → (a' : List EncodedEntry) × Inv a' (run u s ts)
      unfolding run
      run-Inv [] a s h = (a, h)
      run-Inv (t ∷ ts) a s h = elim (Option-cases (step u s t)) [
        | inl waits ↦ rw waits (run-Inv ts a s h)
        | inr (s', moved) ↦
            let st = step-Step u s t moved in
            rw moved (run-Inv ts (after u a st) s' (Step-Inv a s st h))
      ]

      -- The threads as they are spawned.
      pub begin-Inv : 1 ≤ u.read_jobs → 1 ≤ u.cpu_jobs → Inv [] (begin u zw items)
      unfolding receives
      begin-Inv some_reader some_worker = record {
        contents = record {
          left = (refl, omega arith);
          feed = tt;
          readers = replicate-All (ReaderHas u items) u.read_jobs Reader.waiting tt;
          raw = tt;
          workers = replicate-All (WorkerHas u items) u.cpu_jobs _ tt;
          enc = tt;
          arrived = tt;
        };
        written = refl;
        fine = λ none_yet. record {
          ends = record {
            feeder_on = refl;
            readers_end = inl (total-replicate reader_ended u.read_jobs Reader.waiting refl);
            workers_end = inl (total-replicate (worker_ended u) u.cpu_jobs _ refl);
            main_end = inl refl;
            some_reader = rw (length-replicate u.read_jobs Reader.waiting) some_reader;
            some_worker = omega (arith, length-replicate u.cpu_jobs fresh);
          };
          counted = λ j. ground (
            arith,
            total-replicate (reader_here j) u.read_jobs Reader.waiting refl,
            total-replicate (worker_here u j) u.cpu_jobs fresh refl,
          );
          all_fed = inl refl;
        };
      }
        where
          fresh : Worker u
          fresh = Worker.waiting (Compress.new u.codecs)
