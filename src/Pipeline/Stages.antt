-- ===== src/Pipeline/Stages.antt =====
-- The threads of `run` in src/pipeline.rs with one file per read: the feeder, the readers, the CPU
-- workers and the writer on the main thread, with bounded channels between them. A step is one action
-- of one thread on a channel, one read, or one call of `encode_one` or of the writer; a thread that
-- waits on a channel has no step. A thread that panics is not modelled.
pub mod Ends
pub mod Moves
pub mod Progress
pub mod Measure
pub mod Contents
pub mod Count
pub mod Keeps
pub mod Held
pub mod Sound
pub mod Over
pub mod Errors
pub mod Joins
pub mod Whole
pub mod Opened
use tzip.Prelude.{
  ℕ, ◌+◌, ◌*◌, max, ◌≤◌, ◌<◌, ◌≡◌, Bool, true, false, ◌&&◌, Option, none, some, List, [], ◌∷◌, ◌++◌,
  if◌then◌else◌, length, get_elem?, replicate, leb, not, ◌||◌, ◌>>=◌, unwrap_or,
}
use tzip.Prelude.Totals.{set}
use tzip.Bytes.{Bytes}
use tzip.Walk.Item.{WorkItem}
use tzip.Channel.{RawItem}
use tzip.Zip.Entry.{EncodedEntry}
use tzip.Zip.Writer.{Sink, ZipWriter, write_entry}
use tzip.Crypto.{Primitives, salt_len}
use tzip.Compress.{Codecs, Method, Scratch}
use tzip.Compress
use tzip.Pipeline.Bounded.{Sent, Received, Bounded}
use tzip.Pipeline.Encode.{encode_one}
use tzip.Pipeline.Reorder.{Loop, start, receive}

-- The options that the threads read, the source, and the crates.
pub record Setup : Type 1 where
  pub bounded : Bounded
  pub codecs : Codecs
  pub primitives : Primitives
  pub crc : Bytes → ℕ
  pub sink : Sink
  pub read : WorkItem → Option Bytes
  pub method : Method
  pub level : ℕ
  pub password : Option Bytes
  pub single_file_parallel : Bool
  pub sort : Bool
  pub read_jobs : ℕ
  pub cpu_jobs : ℕ
  -- whether the walker thread, which there is without `sort`, ends without an error
  pub walk_ok : Bool

-- A thread that is over has returned `Ok(())` (`ended`) or an error (`failed`). A feeder that found every
-- reader gone joins the walker, which has these items left, and still holds the receiver of its channel.
pub data Feeder : Type 0 where
  feeding : List WorkItem → Feeder
  joining : List WorkItem → Feeder
  ended : Feeder
  failed : Feeder

pub data Reader : Type 0 where
  waiting : Reader
  reading : ℕ → WorkItem → Reader
  sending : RawItem → Reader
  ended : Reader
  failed : Reader

abbrev pub feeder_over : Feeder → Bool
feeder_over (Feeder.feeding l) = false
feeder_over (Feeder.joining l) = false
feeder_over Feeder.ended = true
feeder_over Feeder.failed = true

abbrev pub reader_over : Reader → Bool
reader_over Reader.waiting = false
reader_over (Reader.reading i it) = false
reader_over (Reader.sending r) = false
reader_over Reader.ended = true
reader_over Reader.failed = true

abbrev pub all_over {ℓ} : {A : Type ℓ} → (A → Bool) → List A → Bool
all_over p [] = true
all_over p (x ∷ xs) = p x && all_over p xs

-- `[u8; SALT_LEN]` from the random number generator.
pub record Salt : Type 0 where
  pub bytes : Bytes
  pub sized : length bytes ≡ salt_len

-- Who takes the next step; a worker's comes with the salt that is drawn if it encodes.
pub data Thread : Type 0 where
  feeder : Thread
  reader : ℕ → Thread
  worker : ℕ → Salt → Thread
  main : Thread

module _ (u : Setup) where
  pub data Worker : Type 0 where
    waiting : Scratch u.codecs → Worker
    encoding : Scratch u.codecs → RawItem → Worker
    sending : Scratch u.codecs → EncodedEntry → Worker
    ended : Worker
    failed : Worker

  pub data Main : Type 0 where
    writing : Loop u.sink → Main
    written : Loop u.sink → Main
    failed : Main

  abbrev pub worker_over : Worker → Bool
  worker_over (Worker.waiting c) = false
  worker_over (Worker.encoding c r) = false
  worker_over (Worker.sending c e) = false
  worker_over Worker.ended = true
  worker_over Worker.failed = true

  abbrev pub main_over : Main → Bool
  main_over (Main.writing l) = false
  main_over (Main.written l) = true
  main_over Main.failed = true

  pub record State : Type 0 where
    pub index_counter : ℕ
    pub feeder : Feeder
    pub feed : List (ℕ × WorkItem)
    pub readers : List Reader
    pub raw : List RawItem
    pub workers : List Worker
    pub enc : List EncodedEntry
    pub main : Main

  abbrev pub read_bound : ℕ
  read_bound = max (u.read_jobs * 2) 2

  abbrev pub cpu_bound : ℕ
  cpu_bound = max (u.cpu_jobs * 2) 2

  -- The room in the channel from the walker thread to the feeder.
  abbrev pub walk_bound : ℕ
  walk_bound = max read_bound 64

  abbrev pub begin : ZipWriter u.sink → List WorkItem → State
  begin zw items = record {
    index_counter = 0;
    feeder = Feeder.feeding items;
    feed = [];
    readers = replicate u.read_jobs Reader.waiting;
    raw = [];
    workers = replicate u.cpu_jobs (Worker.waiting (Compress.new u.codecs));
    enc = [];
    main = Main.writing (start u.sink zw);
  }

  -- The feeder: with `sort` the items of the batch, else those that the walker thread sends it, in this order. The
  -- walker sends them ahead of the feeder as far as its channel has room, and ends when all are sent.
  abbrev pub feeder_end : Feeder
  feeder_end = if u.sort || u.walk_ok then Feeder.ended else Feeder.failed

  -- `break` out of the loop, when every reader is gone.
  abbrev pub cut_off : List WorkItem → Feeder
  cut_off rest = if u.sort then Feeder.ended else Feeder.joining rest

  abbrev pub fed : State → List WorkItem → Sent (ℕ × WorkItem) → Option State
  fed s rest (Sent.sent q) =
      some
        (record s { index_counter = s.index_counter + 1; feeder = Feeder.feeding rest; feed = q })
  fed s rest Sent.disconnected =
      some (record s { index_counter = s.index_counter + 1; feeder = cut_off rest })
  fed s rest Sent.full = none

  abbrev pub feeder_step : State → Feeder → Option State
  feeder_step s (Feeder.feeding []) = some (record s { feeder = feeder_end })
  feeder_step s (Feeder.feeding (it ∷ rest)) = fed s rest (
      u.bounded.send (ℕ × WorkItem) (all_over reader_over s.readers) read_bound
        (s.index_counter, it) s.feed)
  feeder_step s (Feeder.joining rest) =
      if leb (length rest) walk_bound then some (record s { feeder = feeder_end }) else none
  feeder_step s Feeder.ended = none
  feeder_step s Feeder.failed = none

  -- A reader: `recv`, `source.read`, `send`.
  abbrev pub put_reader : State → ℕ → Reader → State
  put_reader s i r = record s { readers = set s.readers i r }

  abbrev pub took_item : State → ℕ → Received (ℕ × WorkItem) → Option State
  took_item s i (Received.received (index, item) q) =
      some (record s { feed = q; readers = set s.readers i (Reader.reading index item) })
  took_item s i Received.disconnected = some (put_reader s i Reader.ended)
  took_item s i Received.empty = none

  abbrev pub read_done : ℕ → WorkItem → Option Bytes → Reader
  read_done index item (some bytes) =
      Reader.sending (record { index = index; item = item; bytes = bytes })
  read_done index item none = Reader.failed

  abbrev pub sent_raw : State → ℕ → Sent RawItem → Option State
  sent_raw s i (Sent.sent q) = some (record s { readers = set s.readers i Reader.waiting; raw = q })
  sent_raw s i Sent.disconnected = some (put_reader s i Reader.ended)
  sent_raw s i Sent.full = none

  abbrev pub reader_step : State → ℕ → Reader → Option State
  reader_step s i Reader.waiting =
      took_item s i (u.bounded.recv (ℕ × WorkItem) (feeder_over s.feeder) s.feed)
  reader_step s i (Reader.reading index item) =
      some (put_reader s i (read_done index item (u.read item)))
  reader_step s i (Reader.sending r) =
      sent_raw s i (u.bounded.send RawItem (all_over worker_over s.workers) read_bound r s.raw)
  reader_step s i Reader.ended = none
  reader_step s i Reader.failed = none

  -- A CPU worker: `recv`, `encode_one`, `send`.
  abbrev pub put_worker : State → ℕ → Worker → State
  put_worker s i w = record s { workers = set s.workers i w }

  abbrev pub took_raw : State → ℕ → Scratch u.codecs → Received RawItem → Option State
  took_raw s i c (Received.received r q) =
      some (record s { raw = q; workers = set s.workers i (Worker.encoding c r) })
  took_raw s i c Received.disconnected = some (put_worker s i Worker.ended)
  took_raw s i c Received.empty = none

  abbrev pub encode : Salt → RawItem → Scratch u.codecs → Scratch u.codecs × Option EncodedEntry
  encode salt r c =
      encode_one u.codecs u.primitives u.crc salt.bytes r u.method u.level u.password c
        u.single_file_parallel

  abbrev pub encode_done : Scratch u.codecs × Option EncodedEntry → Worker
  encode_done (c, some e) = Worker.sending c e
  encode_done (c, none) = Worker.failed

  abbrev pub sent_entry : State → ℕ → Scratch u.codecs → Sent EncodedEntry → Option State
  sent_entry s i c (Sent.sent q) =
      some (record s { workers = set s.workers i (Worker.waiting c); enc = q })
  sent_entry s i c Sent.disconnected = some (put_worker s i Worker.ended)
  sent_entry s i c Sent.full = none

  abbrev pub worker_step : State → ℕ → Salt → Worker → Option State
  worker_step s i salt (Worker.waiting c) =
      took_raw s i c (u.bounded.recv RawItem (all_over reader_over s.readers) s.raw)
  worker_step s i salt (Worker.encoding c r) = some (put_worker s i (encode_done (encode salt r c)))
  worker_step s i salt (Worker.sending c e) =
      sent_entry s i c (u.bounded.send EncodedEntry (main_over s.main) cpu_bound e s.enc)
  worker_step s i salt Worker.ended = none
  worker_step s i salt Worker.failed = none

  -- The writer loops: with `--sort`, and in the order of arrival.
  abbrev pub write_next : Loop u.sink → EncodedEntry → Option (Loop u.sink)
  write_next l e = write_entry u.sink l.zw e >>= λ zw.
      some (record l { zw = zw; wrote_files = l.wrote_files + 1 })

  unfoldable pub write_one : Loop u.sink → EncodedEntry → Option (Loop u.sink)
  write_one l e = if u.sort then receive u.sink l e else write_next l e

  abbrev pub write_done : Option (Loop u.sink) → Main
  write_done (some l) = Main.writing l
  write_done none = Main.failed

  abbrev pub took_entry : State → Loop u.sink → Received EncodedEntry → Option State
  took_entry s l (Received.received e q) =
      some (record s { enc = q; main = write_done (write_one l e) })
  took_entry s l Received.disconnected = some (record s { main = Main.written l })
  took_entry s l Received.empty = none

  abbrev pub main_step : State → Main → Option State
  main_step s (Main.writing l) =
      took_entry s l (u.bounded.recv EncodedEntry (all_over worker_over s.workers) s.enc)
  main_step s (Main.written l) = none
  main_step s Main.failed = none

  -- `none`: the thread waits, or is over.
  unfoldable pub step : State → Thread → Option State
  step s Thread.feeder = feeder_step s s.feeder
  step s (Thread.reader i) = get_elem? s.readers i >>= reader_step s i
  step s (Thread.worker i salt) = get_elem? s.workers i >>= worker_step s i salt
  step s Thread.main = main_step s s.main

  -- A schedule: a thread that has no step is passed over.
  unfoldable pub run : State → List Thread → State
  run s [] = s
  run s (t ∷ ts) = run (unwrap_or (step s t) s) ts
