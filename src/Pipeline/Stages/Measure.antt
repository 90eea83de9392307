-- ===== src/Pipeline/Stages/Measure.antt =====
-- How many steps the threads of `run` in src/pipeline.rs can take.
use mathlib.Core.WellFounded.{Acc}
use tzip.Prelude.{
  ℕ, zero, suc, ◌+◌, ◌*◌, ◌≤◌, ◌<◌, ◌≡◌, ◌≢◌, ◌⊎◌, inl, inr, refl, sym, ap, ◌∙◌, arith, Bool, true,
  false, Option, none, some, List, [], ◌∷◌, length, length-append, unwrap_or, if◌then◌else◌, ◌||◌,
  Option-cases,
}
use mathlib.Core.Path.{subst}
use tzip.Prelude.Totals.{total, total-set}
use tzip.Walk.Item.{WorkItem}
use tzip.Zip.Entry.{EncodedEntry}
use tzip.Compress.{Scratch}
use tzip.Pipeline.Reorder.{Loop}
use tzip.Pipeline.Stages.{
  Setup, Feeder, Reader, Thread, Worker, Main, State, feeder_end, cut_off, walk_bound, read_done,
  encode, encode_done, write_one, write_done, step, run,
}
use tzip.Pipeline.Stages.Ends.{Returned, returned}
use tzip.Pipeline.Stages.Moves.{Step, step-Step}
use tzip.Pipeline.Stages.Progress.{CanStep, IsBlocked, step-Goes}
use tzip.Pipeline.Stages.Count.{feeder_joining}

-- The steps that are left for an item where it is.
abbrev pub feeder_weight : Feeder → ℕ
feeder_weight (Feeder.feeding l) = 1 + 8 * length l
feeder_weight (Feeder.joining l) = 1
feeder_weight Feeder.ended = 0
feeder_weight Feeder.failed = 0

abbrev pub reader_weight : Reader → ℕ
reader_weight Reader.waiting = 1
reader_weight (Reader.reading i it) = 7
reader_weight (Reader.sending r) = 6
reader_weight Reader.ended = 0
reader_weight Reader.failed = 0

abbrev left_to_find : Feeder → ℕ
left_to_find (Feeder.feeding l) = 0
left_to_find (Feeder.joining l) = length l
left_to_find Feeder.ended = 0
left_to_find Feeder.failed = 0

module _ (u : Setup) where
  abbrev pub worker_weight : Worker u → ℕ
  worker_weight (Worker.waiting c) = 1
  worker_weight (Worker.encoding c r) = 4
  worker_weight (Worker.sending c e) = 3
  worker_weight Worker.ended = 0
  worker_weight Worker.failed = 0

  abbrev pub main_weight : Main u → ℕ
  main_weight (Main.writing l) = 1
  main_weight (Main.written l) = 0
  main_weight Main.failed = 0

  abbrev pub measure : State u → ℕ
  measure s =
      feeder_weight s.feeder
      + 7 * length s.feed
      + total reader_weight s.readers
      + 4 * length s.raw
      + total worker_weight s.workers
      + length s.enc
      + main_weight s.main

  feeder_end_weight : feeder_weight (feeder_end u) ≡ 0
  feeder_end_weight = at_end (u.sort || u.walk_ok)
    where
      at_end : (b : Bool) → feeder_weight (if b then Feeder.ended else Feeder.failed) ≡ 0
      at_end true = refl
      at_end false = refl

  cut_off_weight : (rest : List WorkItem) → feeder_weight (cut_off u rest) ≤ 1
  cut_off_weight rest = at_end u.sort
    where
      at_end : (b : Bool) → feeder_weight (if b then Feeder.ended else Feeder.joining rest) ≤ 1
      at_end true = omega arith
      at_end false = omega arith

  read_done_weight : (i : ℕ) (it : WorkItem) (o : Option _) → reader_weight (read_done u i it o) ≤ 6
  read_done_weight i it none = omega arith
  read_done_weight i it (some bytes) = omega arith

  encode_done_weight :
      (r : Scratch u.codecs × Option EncodedEntry) → worker_weight (encode_done u r) ≤ 3
  encode_done_weight (c, none) = omega arith
  encode_done_weight (c, some e) = omega arith

  write_done_weight : (o : Option (Loop u.sink)) → main_weight (write_done u o) ≤ 1
  write_done_weight none = omega arith
  write_done_weight (some l) = omega arith

  Step-measure : {s s' : State u} → Step u s s' → measure s' < measure s
  Step-measure {s} (Step.feed_end e) = omega (arith, ap feeder_weight e, feeder_end_weight)
  Step-measure {s} (Step.feed_sent {it} {rest} e fits) =
      omega (arith, ap feeder_weight e, length-append {0} s.feed ((s.index_counter, it) ∷ []))
  Step-measure {s} (Step.feed_gone {it} {rest} e gone) =
      omega (arith, ap feeder_weight e, cut_off_weight rest)
  Step-measure {s} (Step.feed_joined e fits) = omega (arith, ap feeder_weight e, feeder_end_weight)
  Step-measure {s} (Step.reader_took i index item q at_i e) = omega (
    arith,
    ap length e,
    total-set reader_weight s.readers i Reader.waiting (Reader.reading index item) at_i,
  )
  Step-measure {s} (Step.reader_end i at_i e o) =
      omega (arith, total-set reader_weight s.readers i Reader.waiting Reader.ended at_i)
  Step-measure {s} (Step.reader_read i index item at_i) = omega (
    arith,
    read_done_weight index item (u.read item),
    total-set reader_weight s.readers i (Reader.reading index item)
        (read_done u index item (u.read item)) at_i,
  )
  Step-measure {s} (Step.reader_sent i r at_i fits) = omega (
    arith,
    length-append {0} s.raw (r ∷ []),
    total-set reader_weight s.readers i (Reader.sending r) Reader.waiting at_i,
  )
  Step-measure {s} (Step.reader_gone i r at_i gone) =
      omega (arith, total-set reader_weight s.readers i (Reader.sending r) Reader.ended at_i)
  Step-measure {s} (Step.worker_took i c r q at_i e) = omega (
    arith,
    ap length e,
    total-set worker_weight s.workers i (Worker.waiting c) (Worker.encoding c r) at_i,
  )
  Step-measure {s} (Step.worker_end i c at_i e o) =
      omega (arith, total-set worker_weight s.workers i (Worker.waiting c) Worker.ended at_i)
  Step-measure {s} (Step.worker_encoded i c r salt at_i) =
      let done = encode_done u (encode u salt r c) in
      omega (
        arith,
        encode_done_weight (encode u salt r c),
        total-set worker_weight s.workers i (Worker.encoding c r) done at_i,
      )
  Step-measure {s} (Step.worker_sent i c e at_i fits) = omega (
    arith,
    length-append {0} s.enc (e ∷ []),
    total-set worker_weight s.workers i (Worker.sending c e) (Worker.waiting c) at_i,
  )
  Step-measure {s} (Step.worker_gone i c e at_i gone) =
      omega (arith, total-set worker_weight s.workers i (Worker.sending c e) Worker.ended at_i)
  Step-measure {s} (Step.main_took l e q m eq) =
      omega (arith, ap length eq, ap main_weight m, write_done_weight (write_one u l e))
  Step-measure {s} (Step.main_end l m eq o) = omega (arith, ap main_weight m)

  -- A step lowers the measure.
  step-measure :
      (s : State u) (t : Thread) {s' : State u} → step u s t ≡ some s' → measure s' < measure s
  step-measure s t e = Step-measure (step-Step u s t e)

  running-cases : (r : Returned u) → (r ≡ Returned.running) ⊎ (r ≢ Returned.running)
  running-cases Returned.running = inl refl
  running-cases Returned.error = inr (λ e. cc)
  running-cases (Returned.joined l) = inr (λ e. cc)

  pub run-cons :
      (s s' : State u) (t : Thread) (ts : List Thread)
      → step u s t ≡ some s'
      → run u s (t ∷ ts) ≡ run u s' ts
  unfolding run
  run-cons s s' t ts moved = ap (λ o. run u (unwrap_or o s) ts) moved

  pub run-waits :
      (s : State u) (t : Thread) (ts : List Thread)
      → step u s t ≡ none
      → run u s (t ∷ ts) ≡ run u s ts
  unfolding run
  run-waits s t ts waits = ap (λ o. run u (unwrap_or o s) ts) waits

  -- `run` is over, or its feeder waits for a walker that waits for it.
  abbrev pub IsSettled : State u → Type 0
  IsSettled s = (returned u s ≢ Returned.running) ⊎ IsBlocked u s

  IsSettled-cases : (s : State u) → IsSettled s ⊎ CanStep u s
  IsSettled-cases s = elim (running-cases (returned u s)) [
    | inr over ↦ inl (inl over)
    | inl running ↦ elim (step-Goes u s running) [
      | inl goes ↦ inr goes
      | inr blocked ↦ inl (inr blocked)
    ]
  ]

  -- In `measure` steps at most.
  pub run-returns :
      (n : ℕ) (s : State u)
      → measure s ≤ n
      → (ts : List Thread) × (length ts ≤ n) × IsSettled (run u s ts)
  run-returns zero s h = elim (IsSettled-cases s) [
    | inl over ↦ ([], omega arith, unfold run in over)
    | inr (t, s', moved) ↦ absurd (omega (arith, step-measure s t moved))
  ]
  run-returns (suc n) s h = elim (IsSettled-cases s) [
    | inl over ↦ ([], omega arith, unfold run in over)
    | inr (t, s', moved) ↦
        let (ts, short, over) = run-returns n s' (omega (arith, step-measure s t moved)) in
        (t ∷ ts, omega arith, subst IsSettled (sym (run-cons s s' t ts moved)) over)
  ]

  -- `s'` comes after `s` by a step of some thread.
  abbrev pub Follows : State u → State u → Type 0
  Follows s' s = (t : Thread) × (step u s t ≡ some s')

  step-Acc : (n : ℕ) (s : State u) → measure s ≤ n → Acc Follows s
  step-Acc zero s h = Acc.intro s (λ s' (t, moved). absurd (omega (arith, step-measure s t moved)))
  step-Acc (suc n) s h =
      Acc.intro s (λ s' (t, moved). step-Acc n s' (omega (arith, step-measure s t moved)))

  module _ (s : State u) (left : List WorkItem) (joins : s.feeder ≡ Feeder.joining left)
      (full : walk_bound u < length left) where
    Step-IsBlocked : {s' : State u} → Step u s s' → IsBlocked u s'
    Step-IsBlocked (Step.feed_end e) =
        absurd (let f = ap feeder_joining (sym joins ∙ e) in omega arith)
    Step-IsBlocked (Step.feed_sent e fits) =
        absurd (let f = ap feeder_joining (sym joins ∙ e) in omega arith)
    Step-IsBlocked (Step.feed_gone e gone) =
        absurd (let f = ap feeder_joining (sym joins ∙ e) in omega arith)
    Step-IsBlocked (Step.feed_joined {rest} e fits) =
        let same : length left ≡ length rest = ap left_to_find (sym joins ∙ e) in
        absurd (omega arith)
    Step-IsBlocked (Step.reader_took i index item q at_i e) = (left, joins, full)
    Step-IsBlocked (Step.reader_end i at_i e o) = (left, joins, full)
    Step-IsBlocked (Step.reader_read i index item at_i) = (left, joins, full)
    Step-IsBlocked (Step.reader_sent i r at_i fits) = (left, joins, full)
    Step-IsBlocked (Step.reader_gone i r at_i gone) = (left, joins, full)
    Step-IsBlocked (Step.worker_took i c r q at_i e) = (left, joins, full)
    Step-IsBlocked (Step.worker_end i c at_i e o) = (left, joins, full)
    Step-IsBlocked (Step.worker_encoded i c r salt at_i) = (left, joins, full)
    Step-IsBlocked (Step.worker_sent i c e at_i fits) = (left, joins, full)
    Step-IsBlocked (Step.worker_gone i c e at_i gone) = (left, joins, full)
    Step-IsBlocked (Step.main_took l e q m eq) = (left, joins, full)
    Step-IsBlocked (Step.main_end l m eq o) = (left, joins, full)

  run-IsBlocked : (ts : List Thread) (s : State u) → IsBlocked u s → IsBlocked u (run u s ts)
  run-IsBlocked [] s h = unfold run in h
  run-IsBlocked (t ∷ ts) s (rest, joins, full) = elim (Option-cases (step u s t)) [
    | inl waits ↦
        subst (IsBlocked u) (sym (run-waits s t ts waits)) (run-IsBlocked ts s (rest, joins, full))
    | inr (s', moved) ↦
        subst (IsBlocked u) (sym (run-cons s s' t ts moved))
          (run-IsBlocked ts s' (Step-IsBlocked s rest joins full (step-Step u s t moved)))
  ]

  -- From every state of the threads: every sequence of steps comes to an end, and some schedule, of
  -- `measure` steps at most, lets `run` return with a result or an error, or leads to the one circle of
  -- threads that wait for one another: the feeder, which found every reader gone, joins the walker, which
  -- waits for room in the channel that the feeder still holds. Out of that circle no schedule leads.
  pub step_terminates :
      (s : State u)
      → Acc Follows s
        × ((ts : List Thread) × (length ts ≤ measure s) × IsSettled (run u s ts))
        × (IsBlocked u s → (ts : List Thread) → IsBlocked u (run u s ts))
  step_terminates s = (
    step-Acc (measure s) s (omega arith),
    run-returns (measure s) s (omega arith),
    λ blocked ts. run-IsBlocked ts s blocked,
  )
