-- ===== src/Pipeline/Stages/Joins.antt =====
-- `run` of src/pipeline.rs where no call of its threads fails.
use tzip.Prelude.{
  ℕ, zero, suc, ◌+◌, ◌≤◌, ◌≡◌, ◌≢◌, inl, inr, refl, sym, ap, arith, Bool, true, false, Option,
  Option-cases, none, some, List, [], ◌∷◌, ◌>>=◌, length, get_elem?, get_elem?-All, All,
  if◌then◌else◌, ◌||◌,
}
use mathlib.Core.Path.{subst}
use tzip.Prelude.Totals.{total-set}
use tzip.Prelude.Assoc.{insert, lookup, remove}
use tzip.Bytes.{Bytes}
use tzip.Walk.Item.{WorkItem}
use tzip.Channel.{RawItem}
use tzip.Compress.{Scratch}
use tzip.Zip.Entry.{EncodedEntry}
use tzip.Zip.Writer.{ZipWriter, write_entry}
use tzip.Pipeline.Reorder.{Loop, drain, receive}
use tzip.Pipeline.Stages.{
  Setup, Salt, Feeder, Reader, Thread, Worker, State, begin, feeder_end, cut_off, read_done, encode,
  encode_done, write_one, write_next, write_done, step, run,
}
use tzip.Pipeline.Stages.Ends.{Returned, returned}
use tzip.Pipeline.Stages.Errors.{error-main, joined_of}
use tzip.Pipeline.Stages.Keeps.{Step-Ends}
use tzip.Pipeline.Stages.Moves.{Step, step-Step}
use tzip.Pipeline.Stages.Measure.{measure, IsSettled, run-cons, run-waits, run-returns}
use tzip.Pipeline.Stages.Contents.{IsRead, Contents, ReaderHas, WorkerHas, after, Step-Contents}
use tzip.Pipeline.Stages.Count.{
  feeder_failed, feeder_joining, Ends, reader_failed, worker_failed, main_failed, failures,
}
use tzip.Pipeline.Stages.Sound.{total-replicate, begin-Inv}
use tzip.Compress

module _ (u : Setup) where
  -- The calls of the threads succeed on these items.
  pub record IsSmooth (items : List WorkItem) : Type 0 where
    pub walks : u.walk_ok ≡ true
    pub readable : All (λ it. u.read it ≢ none) items
    pub encodable :
        (salt : Salt) (r : RawItem) (c : Scratch u.codecs)
        → IsRead u items r
        → (encode u salt r c).1 ≢ none
    pub writable : (zw : ZipWriter u.sink) (e : EncodedEntry) → write_entry u.sink zw e ≢ none

  module _ (items : List WorkItem) (smooth : IsSmooth items) where
    feeder_end_failed : feeder_failed (feeder_end u) ≡ 0
    feeder_end_failed = at_sort u.sort
      where
        at_sort :
            (b : Bool) → feeder_failed (if b || u.walk_ok then Feeder.ended else Feeder.failed) ≡ 0
        at_sort false =
            ap (λ b. feeder_failed (if b then Feeder.ended else Feeder.failed)) smooth.walks
        at_sort true = refl

    cut_off_failed : (rest : List WorkItem) → feeder_failed (cut_off u rest) ≡ 0
    cut_off_failed rest = at_sort u.sort
      where
        at_sort : (b : Bool) → feeder_failed (if b then Feeder.ended else Feeder.joining rest) ≡ 0
        at_sort true = refl
        at_sort false = refl

    read_done_failed :
        (i : ℕ) (it : WorkItem) (o : Option Bytes)
        → o ≢ none
        → reader_failed (read_done u i it o) ≡ 0
    read_done_failed i it none h = absurd (h refl)
    read_done_failed i it (some bytes) h = refl

    encode_done_failed :
        (o : Scratch u.codecs × Option EncodedEntry)
        → o.1 ≢ none
        → worker_failed u (encode_done u o) ≡ 0
    encode_done_failed (c, none) h = absurd (h refl)
    encode_done_failed (c, some e) h = refl

    write_done_failed : (o : Option (Loop u.sink)) → o ≢ none → main_failed u (write_done u o) ≡ 0
    write_done_failed none h = absurd (h refl)
    write_done_failed (some l) h = refl

    bind-ne-none :
        {A B : Type 0} (o : Option A) (f : A → Option B)
        → o ≢ none
        → ((a : A) → f a ≢ none)
        → (o >>= f) ≢ none
    bind-ne-none none f h k = absurd (h refl)
    bind-ne-none (some a) f h k = k a

    drain-ne-none : (fuel : ℕ) (l : Loop u.sink) → drain u.sink fuel l ≢ none
    unfolding drain
    drain-ne-none zero l = λ h. cc
    drain-ne-none (suc fuel) l = at_entry (lookup l.next_idx l.pending) (λ k. drain-ne-none fuel k)
      where
        at_entry :
            (o : Option EncodedEntry)
            → ((k : Loop u.sink) → drain u.sink fuel k ≢ none)
            → (elim o [
              | none ↦ some l
              | some e ↦ write_entry u.sink l.zw e >>= λ zw. drain u.sink fuel (record {
                zw = zw;
                pending = remove l.next_idx l.pending;
                next_idx = l.next_idx + 1;
                wrote_files = l.wrote_files + 1;
              })
            ])
              ≢ none
        at_entry none ih = λ h. cc
        at_entry (some e) ih = bind-ne-none _ _ (smooth.writable l.zw e) (λ zw. ih _)

    write_one-ne-none : (l : Loop u.sink) (e : EncodedEntry) → write_one u l e ≢ none
    unfolding write_one receive
    write_one-ne-none l e = at_sort u.sort
      where
        at_sort : (b : Bool) → (if b then receive u.sink l e else write_next u l e) ≢ none
        at_sort true = drain-ne-none (length (insert e.index e l.pending)) _
        at_sort false = bind-ne-none _ _ (smooth.writable l.zw e) (λ zw h. cc)

    module _ (a : List EncodedEntry) (s : State u) (c : Contents u items a s) where
      read-ne-none :
          (i index : ℕ) (item : WorkItem)
          → get_elem? s.readers i ≡ some (Reader.reading index item)
          → u.read item ≢ none
      read-ne-none i index item at_i =
          let fed = get_elem?-All (ReaderHas u items) s.readers i _ c.readers at_i in
          get_elem?-All (λ it. u.read it ≢ none) items index item smooth.readable fed

      Step-smooth : {s' : State u} → Step u s s' → failures u s ≡ 0 → failures u s' ≡ 0
      Step-smooth (Step.feed_end e) f = omega (arith, feeder_end_failed)
      Step-smooth (Step.feed_sent e fits) f = omega arith
      Step-smooth (Step.feed_gone {it} {rest} e gone) f = omega (arith, cut_off_failed rest)
      Step-smooth (Step.feed_joined e fits) f = omega (arith, feeder_end_failed)
      Step-smooth (Step.reader_took i index item q at_i e) f = omega (
        arith,
        total-set reader_failed s.readers i Reader.waiting (Reader.reading index item) at_i,
      )
      Step-smooth (Step.reader_end i at_i e o) f =
          omega (arith, total-set reader_failed s.readers i Reader.waiting Reader.ended at_i)
      Step-smooth (Step.reader_read i index item at_i) f =
          let done = read_done u index item (u.read item) in
          omega (
            arith,
            read_done_failed index item (u.read item) (read-ne-none i index item at_i),
            total-set reader_failed s.readers i (Reader.reading index item) done at_i,
          )
      Step-smooth (Step.reader_sent i r at_i fits) f =
          omega (arith, total-set reader_failed s.readers i (Reader.sending r) Reader.waiting at_i)
      Step-smooth (Step.reader_gone i r at_i gone) f =
          omega (arith, total-set reader_failed s.readers i (Reader.sending r) Reader.ended at_i)
      Step-smooth (Step.worker_took i c' r q at_i e) f = omega (
        arith,
        total-set (worker_failed u) s.workers i (Worker.waiting c') (Worker.encoding c' r) at_i,
      )
      Step-smooth (Step.worker_end i c' at_i e o) f =
          omega
            (arith, total-set (worker_failed u) s.workers i (Worker.waiting c') Worker.ended at_i)
      Step-smooth (Step.worker_encoded i c' r salt at_i) f =
          let is_read = get_elem?-All (WorkerHas u items) s.workers i _ c.workers at_i in
          let done = encode_done u (encode u salt r c') in
          omega (
            arith,
            encode_done_failed (encode u salt r c') (smooth.encodable salt r c' is_read),
            total-set (worker_failed u) s.workers i (Worker.encoding c' r) done at_i,
          )
      Step-smooth (Step.worker_sent i c' e at_i fits) f = omega (
        arith,
        total-set (worker_failed u) s.workers i (Worker.sending c' e) (Worker.waiting c') at_i,
      )
      Step-smooth (Step.worker_gone i c' e at_i gone) f =
          omega
            (arith, total-set (worker_failed u) s.workers i (Worker.sending c' e) Worker.ended at_i)
      Step-smooth (Step.main_took l e q m eq) f =
          omega (arith, write_done_failed (write_one u l e) (write_one-ne-none l e))
      Step-smooth (Step.main_end l m eq o) f = omega arith

    abbrev IsFine : State u → Type 0
    IsFine s = (a : List EncodedEntry) × Contents u items a s × (failures u s ≡ 0) × Ends u s

    run-smooth : (ts : List Thread) (s : State u) → IsFine s → IsFine (run u s ts)
    run-smooth [] s h = unfold run in h
    run-smooth (t ∷ ts) s (a, c, f, ends) = elim (Option-cases (step u s t)) [
      | inl waits ↦ subst IsFine (sym (run-waits u s t ts waits)) (run-smooth ts s (a, c, f, ends))
      | inr (s', moved) ↦
          let st = step-Step u s t moved in
          subst IsFine (sym (run-cons u s s' t ts moved)) (
            let f' : failures u s' ≡ 0 = Step-smooth a s c st f in
            run-smooth ts s'
              (after u a st, Step-Contents u items a s c st, f', Step-Ends u s ends st f f'))
    ]

    not_running : (s : State u) → Ends u s → IsSettled u s → returned u s ≢ Returned.running
    not_running s ends (inl over) = over
    not_running s ends (inr (rest, joins, full)) =
        absurd (let on = ends.feeder_on in omega (arith, ap feeder_joining joins))

    -- With a reader and a worker at least, and where the walk, the reads, `encode_one` and the writer
    -- never fail: whatever the threads have done so far, they can go on so that `run` comes back from
    -- its joins without an error, in at most `measure` steps more, and no way to go on ends in an error.
    pub run-joins :
        (zw : ZipWriter u.sink)
        → 1 ≤ u.read_jobs
        → 1 ≤ u.cpu_jobs
        → (ts : List Thread)
        → let s = run u (begin u zw items) ts in
          (returned u s ≢ Returned.error)
          × (ts' : List Thread) × (l : Loop u.sink) × (length ts' ≤ measure u s)
          × (returned u (run u s ts') ≡ Returned.joined l)
    run-joins zw some_reader some_worker ts =
        let s = run u (begin u zw items) ts in
        let first = begin-Inv u zw items some_reader some_worker in
        let (a, c, f, ends) =
          run-smooth ts (begin u zw items)
            ([], first.contents, none_yet, (first.fine none_yet).ends) in
        let (ts', short, settled) = run-returns u (measure u s) s (omega arith) in
        let (a', c', f', ends') = run-smooth ts' s (a, c, f, ends) in
        let s' = run u s ts' in
        let over = not_running s' ends' settled in
        let (l, back) = joined_of u (returned u s') over (error-main u s' s'.main refl f') in
        (error-main u s s.main refl f, ts', l, short, back)
      where
        none_yet : failures u (begin u zw items) ≡ 0
        none_yet = omega (
          arith,
          total-replicate reader_failed u.read_jobs Reader.waiting refl,
          total-replicate (worker_failed u) u.cpu_jobs (Worker.waiting (Compress.new u.codecs))
              refl,
        )
