-- ===== src/Pipeline/Stages/Contents.antt =====
-- What passes between the threads of src/pipeline.rs belongs to the items that are fed.
use tzip.Prelude.{
  ℕ, zero, suc, ◌+◌, ◌≤◌, ◌≡◌, refl, sym, ap, arith, Bool, true, false, Option, none, some,
  some-inj, List, [], ◌∷◌, ◌++◌, ◌>>=◌, length, get_elem?, get_elem?-All, drop, All, All-append,
  if◌then◌else◌, ◌||◌,
}
use tzip.Prelude.Totals.{set-All}
use tzip.Bytes.{Bytes}
use tzip.Walk.Item.{WorkItem}
use tzip.Channel.{RawItem}
use tzip.Compress.{Scratch, CompressOut}
use tzip.Zip.Entry.{EncodedEntry}
use tzip.Pipeline.Encode.{encode_one, entry_of, entry_from, protect, compressed_with}
use tzip.Pipeline.Stages.{
  Setup, Salt, Feeder, Reader, Worker, State, feeder_end, cut_off, put_reader, put_worker,
  read_done, encode, encode_done,
}
use tzip.Pipeline.Stages.Moves.{Step}

module _ {A : Type 0} where
  drop-cons :
      (n : ℕ) (xs : List A) {x : A} {rest : List A}
      → x ∷ rest ≡ drop n xs
      → (get_elem? xs n ≡ some x) × (rest ≡ drop (n + 1) xs) × (n + 1 ≤ length xs)
  drop-cons zero [] h = absurd cc
  drop-cons zero (y ∷ xs) h = (cc, cc, omega arith)
  drop-cons (suc n) [] h = absurd cc
  drop-cons (suc n) (y ∷ xs) h =
      let (at_n, next, le) = drop-cons n xs h in
      let more : suc n + 1 ≡ suc (n + 1) = omega arith in (at_n, rw more next, omega arith)

module _ (u : Setup) where
  -- The entries received after a step.
  abbrev pub after : List EncodedEntry → {s s' : State u} → Step u s s' → List EncodedEntry
  after a (Step.main_took l e q m eq) = a ++ (e ∷ [])
  after a _ = a

  module _ (salt : Salt) (r : RawItem) (e : EncodedEntry) where
    entry_from-index :
        (out : CompressOut) (p : Option (Bytes × Bool × ℕ))
        → (p >>= λ b. some (entry_from u.codecs u.primitives u.crc salt.bytes r u.method out b))
          ≡ some e
        → e.index ≡ r.index
    unfolding entry_from
    entry_from-index out none h = absurd cc
    entry_from-index out (some (body, encrypted, on_wire)) h =
        ap (λ (x : EncodedEntry). x.index) (sym (some-inj h))

    entry_of-index :
        (o : Option CompressOut)
        → (o >>= entry_of u.codecs u.primitives u.crc salt.bytes r u.method u.password) ≡ some e
        → e.index ≡ r.index
    unfolding entry_of
    entry_of-index none h = absurd cc
    entry_of-index (some out) h =
        entry_from-index out
          (protect u.codecs u.primitives u.crc salt.bytes u.password u.method out.bytes) h

    pub encode-index : (c : Scratch u.codecs) → (encode u salt r c).1 ≡ some e → e.index ≡ r.index
    unfolding encode_one
    encode-index c h =
        entry_of-index
          (compressed_with u.codecs u.primitives u.crc salt.bytes r u.method u.level c
            u.single_file_parallel).1
          h

module _ (u : Setup) (items : List WorkItem) where
  abbrev pub IsFed : ℕ × WorkItem → Type 0
  IsFed (i, item) = get_elem? items i ≡ some item

  -- A file of the walk with the bytes that the source reads for it.
  pub record IsRead (r : RawItem) : Type 0 where
    pub placed : get_elem? items r.index ≡ some r.item
    pub reads : u.read r.item ≡ some r.bytes

  -- An entry that `encode_one` makes of such a file, with some salt and some scratch.
  pub record IsEncoded (e : EncodedEntry) : Type 0 where
    pub raw : RawItem
    pub salt : Salt
    pub scratch : Scratch u.codecs
    pub read : IsRead raw
    pub same : e.index ≡ raw.index
    pub made : (encode u salt raw scratch).1 ≡ some e

  abbrev pub FeederHas : ℕ → Feeder → Type 0
  FeederHas n (Feeder.feeding l) = (l ≡ drop n items) × (n ≤ length items)
  FeederHas n (Feeder.joining l) = Unit
  FeederHas n Feeder.ended = Unit
  FeederHas n Feeder.failed = Unit

  abbrev pub ReaderHas : Reader → Type 0
  ReaderHas Reader.waiting = Unit
  ReaderHas (Reader.reading i it) = IsFed (i, it)
  ReaderHas (Reader.sending r) = IsRead r
  ReaderHas Reader.ended = Unit
  ReaderHas Reader.failed = Unit

  abbrev pub WorkerHas : Worker u → Type 0
  WorkerHas (Worker.waiting c) = Unit
  WorkerHas (Worker.encoding c r) = IsRead r
  WorkerHas (Worker.sending c e) = IsEncoded e
  WorkerHas Worker.ended = Unit
  WorkerHas Worker.failed = Unit

  -- `a`: the entries that the writer has received.
  pub record Contents (a : List EncodedEntry) (s : State u) : Type 0 where
    pub left : FeederHas s.index_counter s.feeder
    pub feed : All IsFed s.feed
    pub readers : All ReaderHas s.readers
    pub raw : All IsRead s.raw
    pub workers : All WorkerHas s.workers
    pub enc : All IsEncoded s.enc
    pub arrived : All IsEncoded a

  feeder_end-FeederHas : (n : ℕ) → FeederHas n (feeder_end u)
  feeder_end-FeederHas n = at_end (u.sort || u.walk_ok)
    where
      at_end : (b : Bool) → FeederHas n (if b then Feeder.ended else Feeder.failed)
      at_end true = tt
      at_end false = tt

  cut_off-FeederHas : (n : ℕ) (rest : List WorkItem) → FeederHas n (cut_off u rest)
  cut_off-FeederHas n rest = at_end u.sort
    where
      at_end : (b : Bool) → FeederHas n (if b then Feeder.ended else Feeder.joining rest)
      at_end true = tt
      at_end false = tt

  read_done-ReaderHas :
      (i : ℕ) (it : WorkItem) (o : Option Bytes)
      → u.read it ≡ o
      → IsFed (i, it)
      → ReaderHas (read_done u i it o)
  read_done-ReaderHas i it none e h = tt
  read_done-ReaderHas i it (some bytes) e h = record { placed = h; reads = e }

  encode_done-WorkerHas :
      (salt : Salt) (r : RawItem) (c : Scratch u.codecs)
      (o : Scratch u.codecs × Option EncodedEntry)
      → encode u salt r c ≡ o
      → IsRead r
      → WorkerHas (encode_done u o)
  encode_done-WorkerHas salt r c (c', none) h p = tt
  encode_done-WorkerHas salt r c (c', some e) h p =
      let made : (encode u salt r c).1 ≡ some e = ap (λ x. x.1) h in
      record {
        raw = r;
        salt = salt;
        scratch = c;
        read = p;
        same = encode-index u salt r e c made;
        made = made;
      }

  All-head :
      {A : Type 0} (P : A → Type 0) {l q : List A} {x : A} → l ≡ x ∷ q → All P l → P x × All P q
  All-head P e h = rw e at h

  contents :
      {a : List EncodedEntry} {s : State u}
      → FeederHas s.index_counter s.feeder
      → All IsFed s.feed
      → All ReaderHas s.readers
      → All IsRead s.raw
      → All WorkerHas s.workers
      → All IsEncoded s.enc
      → All IsEncoded a
      → Contents a s
  contents left feed readers raw workers enc arrived = record {
    left = left;
    feed = feed;
    readers = readers;
    raw = raw;
    workers = workers;
    enc = enc;
    arrived = arrived;
  }

  module _ (a : List EncodedEntry) (s : State u) (h : Contents a s) where
    feeding-has :
        {l : List WorkItem}
        → s.feeder ≡ Feeder.feeding l
        → FeederHas s.index_counter (Feeder.feeding l)
    feeding-has e = rw e at h.left

    reader-has : (i : ℕ) {r : Reader} → get_elem? s.readers i ≡ some r → ReaderHas r
    reader-has i at_i = get_elem?-All ReaderHas s.readers i _ h.readers at_i

    worker-has : (i : ℕ) {w : Worker u} → get_elem? s.workers i ≡ some w → WorkerHas w
    worker-has i at_i = get_elem?-All WorkerHas s.workers i _ h.workers at_i

    put_reader-Contents : (i : ℕ) (r : Reader) → ReaderHas r → Contents a (put_reader u s i r)
    put_reader-Contents i r p =
        contents h.left h.feed (set-All ReaderHas s.readers i r h.readers p) h.raw h.workers h.enc
          h.arrived

    put_worker-Contents : (i : ℕ) (w : Worker u) → WorkerHas w → Contents a (put_worker u s i w)
    put_worker-Contents i w p =
        contents h.left h.feed h.readers h.raw (set-All WorkerHas s.workers i w h.workers p) h.enc
          h.arrived

    pub Step-Contents : {s' : State u} (st : Step u s s') → Contents (after u a st) s'
    Step-Contents (Step.feed_end e) =
        contents (feeder_end-FeederHas s.index_counter) h.feed h.readers h.raw h.workers h.enc
          h.arrived
    Step-Contents (Step.feed_sent e fits) =
        let (same, low) = feeding-has e in
        let (placed, next, le) = drop-cons s.index_counter items same in
        contents (next, le) (All-append IsFed s.feed _ h.feed (placed, tt)) h.readers h.raw
          h.workers h.enc h.arrived
    Step-Contents (Step.feed_joined e fits) =
        contents (feeder_end-FeederHas s.index_counter) h.feed h.readers h.raw h.workers h.enc
          h.arrived
    Step-Contents (Step.feed_gone e gone) =
        contents (cut_off-FeederHas (s.index_counter + 1) _) h.feed h.readers h.raw h.workers h.enc
          h.arrived
    Step-Contents (Step.reader_took i index item q at_i e) =
        let (p, rest) = All-head IsFed e h.feed in
        contents h.left rest (set-All ReaderHas s.readers i (Reader.reading index item) h.readers p)
          h.raw h.workers h.enc h.arrived
    Step-Contents (Step.reader_end i at_i e o) = put_reader-Contents i Reader.ended tt
    Step-Contents (Step.reader_read i index item at_i) =
        put_reader-Contents i _
          (read_done-ReaderHas index item (u.read item) refl (reader-has i at_i))
    Step-Contents (Step.reader_sent i r at_i fits) =
        contents h.left h.feed (set-All ReaderHas s.readers i Reader.waiting h.readers tt)
          (All-append IsRead s.raw _ h.raw (reader-has i at_i, tt)) h.workers h.enc h.arrived
    Step-Contents (Step.reader_gone i r at_i gone) = put_reader-Contents i Reader.ended tt
    Step-Contents (Step.worker_took i c r q at_i e) =
        let (p, rest) = All-head IsRead e h.raw in
        contents h.left h.feed h.readers rest
          (set-All WorkerHas s.workers i (Worker.encoding c r) h.workers p) h.enc h.arrived
    Step-Contents (Step.worker_end i c at_i e o) = put_worker-Contents i Worker.ended tt
    Step-Contents (Step.worker_encoded i c r salt at_i) =
        put_worker-Contents i _
          (encode_done-WorkerHas salt r c (encode u salt r c) refl (worker-has i at_i))
    Step-Contents (Step.worker_sent i c e at_i fits) =
        contents h.left h.feed h.readers h.raw
          (set-All WorkerHas s.workers i (Worker.waiting c) h.workers tt)
          (All-append IsEncoded s.enc _ h.enc (worker-has i at_i, tt)) h.arrived
    Step-Contents (Step.worker_gone i c e at_i gone) = put_worker-Contents i Worker.ended tt
    Step-Contents (Step.main_took l e q m eq) =
        let (p, rest) = All-head IsEncoded eq h.enc in
        contents h.left h.feed h.readers h.raw h.workers rest
          (All-append IsEncoded a _ h.arrived (p, tt))
    Step-Contents (Step.main_end l m eq o) =
        contents h.left h.feed h.readers h.raw h.workers h.enc h.arrived
