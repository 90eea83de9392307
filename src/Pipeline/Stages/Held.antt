-- ===== src/Pipeline/Stages/Held.antt =====
-- Where an item is, between the feeder and the writer of src/pipeline.rs: the places that hold an index.
use tzip.Prelude.{
  ℕ, ◌+◌, ◌≡◌, ◌⊎◌, inl, inr, refl, ap, arith, ltb, Option, none, some, List, [], ◌∷◌,
  if◌then◌else◌, ◌==◌,
}
use tzip.Prelude.Totals.{total, total-set, total-append}
use tzip.Bytes.{Bytes}
use tzip.Walk.Item.{WorkItem}
use tzip.Channel.{RawItem}
use tzip.Compress.{Scratch}
use tzip.Zip.Entry.{EncodedEntry}
use tzip.Pipeline.Stages.{Setup, Salt, Reader, Worker, State, read_done, encode, encode_done}
use tzip.Pipeline.Stages.Moves.{Step}
use tzip.Pipeline.Stages.Contents.{after, encode-index}
use tzip.Pipeline.Stages.Count.{
  reader_failed, worker_failed, failures, Ends, feed_gone-absurd, reader_gone-absurd,
  worker_gone-absurd,
}

abbrev pub here : ℕ → ℕ → ℕ
here j i = if i == j then 1 else 0

abbrev pub fed_here : ℕ → ℕ × WorkItem → ℕ
fed_here j (i, it) = here j i

abbrev pub reader_here : ℕ → Reader → ℕ
reader_here j Reader.waiting = 0
reader_here j (Reader.reading i it) = here j i
reader_here j (Reader.sending r) = here j r.index
reader_here j Reader.ended = 0
reader_here j Reader.failed = 0

abbrev pub raw_here : ℕ → RawItem → ℕ
raw_here j r = here j r.index

abbrev pub entry_here : ℕ → EncodedEntry → ℕ
entry_here j e = here j e.index

module _ (u : Setup) where
  abbrev pub worker_here : ℕ → Worker u → ℕ
  worker_here j (Worker.waiting c) = 0
  worker_here j (Worker.encoding c r) = here j r.index
  worker_here j (Worker.sending c e) = here j e.index
  worker_here j Worker.ended = 0
  worker_here j Worker.failed = 0

  -- The places that hold the index `j`, with the entries `a` that the writer has received.
  abbrev pub held : ℕ → List EncodedEntry → State u → ℕ
  held j a s =
      total (fed_here j) s.feed
      + total (reader_here j) s.readers
      + total (raw_here j) s.raw
      + total (worker_here j) s.workers
      + total (entry_here j) s.enc
      + total (entry_here j) a

  -- Every index that was given is in exactly one place.
  abbrev pub Counted : List EncodedEntry → State u → Type 0
  Counted a s = (j : ℕ) → held j a s ≡ (if ltb j s.index_counter then 1 else 0)

  next_index : (j n : ℕ) → here j n + (if ltb j n then 1 else 0) ≡ (if ltb j (n + 1) then 1 else 0)
  next_index j n = ground arith

  read_done-here :
      (j i : ℕ) (it : WorkItem) (o : Option Bytes)
      → (reader_here j (read_done u i it o) ≡ here j i) ⊎ (reader_failed (read_done u i it o) ≡ 1)
  read_done-here j i it none = inr refl
  read_done-here j i it (some bytes) = inl refl

  encode_done-here :
      (j : ℕ) (salt : Salt) (r : RawItem) (c : Scratch u.codecs)
      (o : Scratch u.codecs × Option EncodedEntry)
      → encode u salt r c ≡ o
      → (worker_here j (encode_done u o) ≡ here j r.index) ⊎ (worker_failed u (encode_done u o) ≡ 1)
  encode_done-here j salt r c (c', none) h = inr refl
  encode_done-here j salt r c (c', some e) h =
      inl (ap (here j) (encode-index u salt r e c (ap (λ x. x.1) h)))

  module _ (a : List EncodedEntry) (s : State u) (h : Ends u s) (fine : failures u s ≡ 0) where
    pub Step-held :
        {s' : State u} (st : Step u s s')
        → failures u s' ≡ 0
        → Counted a s
        → Counted (after u a st) s'
    Step-held (Step.feed_end e) fine' counted j = counted j
    Step-held (Step.feed_sent {it} e fits) fine' counted j = omega (
      arith,
      counted j,
      next_index j s.index_counter,
      total-append (fed_here j) s.feed ((s.index_counter, it) ∷ []),
    )
    Step-held (Step.feed_gone e gone) fine' counted j = absurd (feed_gone-absurd u s h fine e gone)
    Step-held (Step.feed_joined e fits) fine' counted j = counted j
    Step-held (Step.reader_took i index item q at_i e) fine' counted j = omega (
      arith,
      counted j,
      ap (total (fed_here j)) e,
      total-set (reader_here j) s.readers i Reader.waiting (Reader.reading index item) at_i,
    )
    Step-held (Step.reader_end i at_i e o) fine' counted j =
        omega
          (arith, counted j, total-set (reader_here j) s.readers i Reader.waiting Reader.ended at_i)
    Step-held (Step.reader_read i index item at_i) fine' counted j =
        let done = read_done u index item (u.read item) in
        omega (
          arith,
          counted j,
          read_done-here j index item (u.read item),
          total-set (reader_here j) s.readers i (Reader.reading index item) done at_i,
          total-set reader_failed s.readers i (Reader.reading index item) done at_i,
        )
    Step-held (Step.reader_sent i r at_i fits) fine' counted j = omega (
      arith,
      counted j,
      total-append (raw_here j) s.raw (r ∷ []),
      total-set (reader_here j) s.readers i (Reader.sending r) Reader.waiting at_i,
    )
    Step-held (Step.reader_gone i r at_i gone) fine' counted j =
        absurd (reader_gone-absurd u s h fine i r at_i gone)
    Step-held (Step.worker_took i c r q at_i e) fine' counted j = omega (
      arith,
      counted j,
      ap (total (raw_here j)) e,
      total-set (worker_here j) s.workers i (Worker.waiting c) (Worker.encoding c r) at_i,
    )
    Step-held (Step.worker_end i c at_i e o) fine' counted j = omega (
      arith,
      counted j,
      total-set (worker_here j) s.workers i (Worker.waiting c) Worker.ended at_i,
    )
    Step-held (Step.worker_encoded i c r salt at_i) fine' counted j =
        let done = encode_done u (encode u salt r c) in
        omega (
          arith,
          counted j,
          encode_done-here j salt r c (encode u salt r c) refl,
          total-set (worker_here j) s.workers i (Worker.encoding c r) done at_i,
          total-set (worker_failed u) s.workers i (Worker.encoding c r) done at_i,
        )
    Step-held (Step.worker_sent i c e at_i fits) fine' counted j = omega (
      arith,
      counted j,
      total-append (entry_here j) s.enc (e ∷ []),
      total-set (worker_here j) s.workers i (Worker.sending c e) (Worker.waiting c) at_i,
    )
    Step-held (Step.worker_gone i c e at_i gone) fine' counted j =
        absurd (worker_gone-absurd u s h fine i c e at_i gone)
    Step-held (Step.main_took l e q m eq) fine' counted j =
        omega
          (arith, counted j, ap (total (entry_here j)) eq, total-append (entry_here j) a (e ∷ []))
    Step-held (Step.main_end l m eq o) fine' counted j = counted j
