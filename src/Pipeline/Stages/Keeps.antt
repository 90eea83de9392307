-- ===== src/Pipeline/Stages/Keeps.antt =====
-- What a step of the threads of src/pipeline.rs does to their ends and failures.
use tzip.Prelude.{ℕ, ◌+◌, ◌≤◌, ◌≡◌, refl, ap, arith, Option, none, some, length, get_elem?}
use tzip.Prelude.Totals.{set, length-set, total, total-set, total-lt, total-le}
use tzip.Bytes.{Bytes}
use tzip.Walk.Item.{WorkItem}
use tzip.Compress.{Scratch}
use tzip.Zip.Entry.{EncodedEntry}
use tzip.Pipeline.Reorder.{Loop}
use tzip.Pipeline.Stages.{
  Setup, Reader, Worker, State, read_done, encode, encode_done, write_one, write_done,
}
use tzip.Pipeline.Stages.Moves.{Step}
use tzip.Pipeline.Stages.Count.{
  feeder_ended, feeder_failed, feeder_over_total, reader_ended-le, worker_ended-le, reader_ended,
  reader_failed, worker_ended, worker_failed, main_written, main_failed, failures, Ends,
  feeder_end_ended, feeder_joining, feeder_end_joining, readers_over_total, workers_over_total,
  feed_gone-absurd, reader_gone-absurd, worker_gone-absurd,
}

module _ (u : Setup) where
  write_done_written : (o : Option (Loop u.sink)) → main_written u (write_done u o) ≡ 0
  write_done_written none = refl
  write_done_written (some l) = refl

  read_done_ended :
      (i : ℕ) (it : WorkItem) (o : Option Bytes) → reader_ended (read_done u i it o) ≡ 0
  read_done_ended i it none = refl
  read_done_ended i it (some bytes) = refl

  encode_done_ended :
      (o : Scratch u.codecs × Option EncodedEntry) → worker_ended u (encode_done u o) ≡ 0
  encode_done_ended (c, none) = refl
  encode_done_ended (c, some e) = refl

  module _ (s : State u) where
    reader_counts :
        (i : ℕ) (r r' : Reader)
        → get_elem? s.readers i ≡ some r
        → (total reader_ended (set s.readers i r') + reader_ended r
            ≡ total reader_ended s.readers + reader_ended r')
          × (total reader_failed (set s.readers i r') + reader_failed r
              ≡ total reader_failed s.readers + reader_failed r')
          × (length (set s.readers i r') ≡ length s.readers)
          × (total reader_ended (set s.readers i r') ≤ length (set s.readers i r'))
    reader_counts i r r' at_i = (
      total-set reader_ended s.readers i r r' at_i,
      total-set reader_failed s.readers i r r' at_i,
      length-set s.readers i r',
      total-le reader_ended reader_ended-le (set s.readers i r'),
    )

    worker_counts :
        (i : ℕ) (w w' : Worker u)
        → get_elem? s.workers i ≡ some w
        → (total (worker_ended u) (set s.workers i w') + worker_ended u w
            ≡ total (worker_ended u) s.workers + worker_ended u w')
          × (total (worker_failed u) (set s.workers i w') + worker_failed u w
              ≡ total (worker_failed u) s.workers + worker_failed u w')
          × (length (set s.workers i w') ≡ length s.workers)
          × (total (worker_ended u) (set s.workers i w') ≤ length (set s.workers i w'))
    worker_counts i w w' at_i = (
      total-set (worker_ended u) s.workers i w w' at_i,
      total-set (worker_failed u) s.workers i w w' at_i,
      length-set s.workers i w',
      total-le (worker_ended u) (worker_ended-le u) (set s.workers i w'),
    )

    -- A failure stays.
    pub Step-failures : {s' : State u} → Step u s s' → failures u s ≤ failures u s'
    Step-failures (Step.feed_end e) = omega (arith, ap feeder_failed e)
    Step-failures (Step.feed_sent e fits) = omega (arith, ap feeder_failed e)
    Step-failures (Step.feed_gone e gone) = omega (arith, ap feeder_failed e)
    Step-failures (Step.feed_joined e fits) = omega (arith, ap feeder_failed e)
    Step-failures (Step.reader_took i index item q at_i e) =
        omega (arith, reader_counts i Reader.waiting (Reader.reading index item) at_i)
    Step-failures (Step.reader_end i at_i e o) =
        omega (arith, reader_counts i Reader.waiting Reader.ended at_i)
    Step-failures (Step.reader_read i index item at_i) = omega (
      arith,
      reader_counts i (Reader.reading index item) (read_done u index item (u.read item)) at_i,
    )
    Step-failures (Step.reader_sent i r at_i fits) =
        omega (arith, reader_counts i (Reader.sending r) Reader.waiting at_i)
    Step-failures (Step.reader_gone i r at_i gone) =
        omega (arith, reader_counts i (Reader.sending r) Reader.ended at_i)
    Step-failures (Step.worker_took i c r q at_i e) =
        omega (arith, worker_counts i (Worker.waiting c) (Worker.encoding c r) at_i)
    Step-failures (Step.worker_end i c at_i e o) =
        omega (arith, worker_counts i (Worker.waiting c) Worker.ended at_i)
    Step-failures (Step.worker_encoded i c r salt at_i) =
        omega
          (arith, worker_counts i (Worker.encoding c r) (encode_done u (encode u salt r c)) at_i)
    Step-failures (Step.worker_sent i c e at_i fits) =
        omega (arith, worker_counts i (Worker.sending c e) (Worker.waiting c) at_i)
    Step-failures (Step.worker_gone i c e at_i gone) =
        omega (arith, worker_counts i (Worker.sending c e) Worker.ended at_i)
    Step-failures (Step.main_took l e q m eq) = omega (arith, ap (main_failed u) m)
    Step-failures (Step.main_end l m eq o) = omega (arith, ap (main_failed u) m)

    module _ (h : Ends u s) where
      -- A stage that ends without a failure ends behind the stage before it.
      pub Step-Ends :
          {s' : State u} → Step u s s' → failures u s ≡ 0 → failures u s' ≡ 0 → Ends u s'
      Step-Ends (Step.feed_end e) fine fine' =
          omega (arith, ap feeder_ended e, feeder_end_ended u, feeder_end_joining u)
      Step-Ends (Step.feed_sent e fits) fine fine' = omega (arith, ap feeder_ended e)
      Step-Ends (Step.feed_gone e gone) fine fine' = absurd (feed_gone-absurd u s h fine e gone)
      Step-Ends (Step.feed_joined e fits) fine fine' =
          absurd (let on = h.feeder_on in omega (arith, ap feeder_joining e))
      Step-Ends (Step.reader_took i index item q at_i e) fine fine' =
          omega
            (arith, ap length e, reader_counts i Reader.waiting (Reader.reading index item) at_i)
      Step-Ends (Step.reader_end i at_i e o) fine fine' = omega (
        arith,
        ap length e,
        feeder_over_total s.feeder o,
        reader_counts i Reader.waiting Reader.ended at_i,
      )
      Step-Ends (Step.reader_read i index item at_i) fine fine' =
          let done = read_done u index item (u.read item) in
          omega (
            arith,
            read_done_ended index item (u.read item),
            reader_counts i (Reader.reading index item) done at_i,
          )
      Step-Ends (Step.reader_sent i r at_i fits) fine fine' = omega (
        arith,
        reader_counts i (Reader.sending r) Reader.waiting at_i,
        total-lt reader_ended reader_ended-le s.readers i (Reader.sending r) at_i refl,
      )
      Step-Ends (Step.reader_gone i r at_i gone) fine fine' =
          absurd (reader_gone-absurd u s h fine i r at_i gone)
      Step-Ends (Step.worker_took i c r q at_i e) fine fine' =
          omega (arith, ap length e, worker_counts i (Worker.waiting c) (Worker.encoding c r) at_i)
      Step-Ends (Step.worker_end i c at_i e o) fine fine' = omega (
        arith,
        ap length e,
        readers_over_total s.readers o,
        worker_counts i (Worker.waiting c) Worker.ended at_i,
      )
      Step-Ends (Step.worker_encoded i c r salt at_i) fine fine' =
          let done = encode_done u (encode u salt r c) in
          omega (
            arith,
            encode_done_ended (encode u salt r c),
            worker_counts i (Worker.encoding c r) done at_i,
          )
      Step-Ends (Step.worker_sent i c e at_i fits) fine fine' = omega (
        arith,
        worker_counts i (Worker.sending c e) (Worker.waiting c) at_i,
        total-lt (worker_ended u) (worker_ended-le u) s.workers i (Worker.sending c e) at_i refl,
      )
      Step-Ends (Step.worker_gone i c e at_i gone) fine fine' =
          absurd (worker_gone-absurd u s h fine i c e at_i gone)
      Step-Ends (Step.main_took l e q m eq) fine fine' =
          omega (arith, ap length eq, ap (main_written u) m, write_done_written (write_one u l e))
      Step-Ends (Step.main_end l m eq o) fine fine' =
          omega (arith, ap length eq, ap (main_failed u) m, workers_over_total u s.workers o)
