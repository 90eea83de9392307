-- ===== src/Tests/Stages.antt =====
-- src/pipeline.rs: two files through two readers and one worker, the second file first.
use mathlib.Core.WellFounded.{Acc}
use tzip.Prelude.{
  ℕ, ◌≤◌, ◌≡◌, ◌≢◌, refl, arith, true, false, none, some, List, [], ◌∷◌, length, replicate,
}
use tzip.Walk.Item.{WorkItem}
use tzip.Zip.Entry.{EncodedEntry}
use tzip.Zip.Writer.{new, write_entry}
use tzip.Bytes.{copy_from_slice, slice}
use tzip.Prelude.Assoc.{insert, remove, lookup}
use tzip.Crypto.{encrypt_ae2_in_place, encrypt_with_salt}
use tzip.Compress.{lzma, store, compress, lzma_for_zip, relayout}
use tzip.Pipeline.Reorder.{Loop, start, drain, receive}
use tzip.Pipeline.Encode.{encode_one, entry_of, entry_from, protect, lock, compressed_with}
use tzip.Pipeline.Stages.{Setup, Salt, Thread, State, begin, write_one, step, run}
use tzip.Pipeline.Stages.Ends.{Returned, returned, join_readers, join_workers}
use tzip.Pipeline.Stages.Measure.{measure, Follows, IsSettled, step_terminates}
use tzip.Pipeline.Stages.Progress.{IsBlocked}
use tzip.Pipeline.Stages.Joins.{IsSmooth, run-joins}
use tzip.Pipeline.Stages.Whole.{Each, by_index, Wrote}
use tzip.Pipeline.Stages.Opened.{IsOpened, run-IsOpened}
use tzip.Tests.Zip.{vec}
use tzip.Tests.Toy.{queues}
use tzip.Tests.Codec.Toy.{stored, stored_decoders, flipping}

abbrev file : ℕ → WorkItem
file n = record {
  path = n ∷ [];
  name_in_archive = n ∷ [];
  size = 1;
  mtime = (33, 0);
  dirfd = none;
  basename = none;
}

abbrev files : List WorkItem
files = file 97 ∷ file 98 ∷ []

abbrev setup : Setup
setup = record {
  bounded = queues;
  codecs = stored;
  primitives = flipping;
  crc = λ x. length x;
  sink = vec;
  read = λ it. some (5 ∷ it.path);
  method = lzma;
  level = 6;
  password = some (112 ∷ []);
  single_file_parallel = false;
  sort = true;
  read_jobs = 2;
  cpu_jobs = 1;
  walk_ok = true;
}

abbrev salt : Salt
salt = record { bytes = replicate 16 3; sized = refl }

abbrev reader : ℕ → Thread
reader i = Thread.reader i

abbrev cpu : Thread
cpu = Thread.worker 0 salt

-- The feeder, both readers, the second of which sends first, the worker twice, and the writer.
abbrev schedule : List Thread
schedule =
    Thread.feeder
    ∷ Thread.feeder
    ∷ Thread.feeder
    ∷ reader 0
    ∷ reader 1
    ∷ reader 1
    ∷ reader 1
    ∷ reader 0
    ∷ reader 0
    ∷ reader 0
    ∷ reader 1
    ∷ cpu
    ∷ cpu
    ∷ cpu
    ∷ Thread.main
    ∷ cpu
    ∷ cpu
    ∷ cpu
    ∷ cpu
    ∷ Thread.main
    ∷ Thread.main
    ∷ []

abbrev last : State setup
last = run setup (begin setup (new vec []) files) schedule

-- The writer's loop when `run` comes back.
abbrev loop_of : Returned setup → Loop vec
loop_of (Returned.joined l) = l
loop_of Returned.running = start vec (new vec [])
loop_of Returned.error = start vec (new vec [])

abbrev at_end : Loop vec
at_end = loop_of (returned setup last)

comes_back : returned setup last ≡ Returned.joined at_end
unfolding run step returned join_readers join_workers encode_one entry_of entry_from protect lock
    compressed_with compress lzma_for_zip relayout write_one receive drain write_entry
    encrypt_ae2_in_place encrypt_with_salt copy_from_slice slice insert remove lookup
comes_back = refl

run-IsOpened_example :
    (a : List EncodedEntry) × Each (IsOpened setup stored_decoders) files (by_index setup a)
    × Wrote setup (new vec []) files true a at_end
run-IsOpened_example =
    run-IsOpened setup stored_decoders (λ h. absurd cc) (new vec []) files schedule at_end
      (omega arith) (omega arith) comes_back

-- One reader, whose source fails.
abbrev failing : Setup
failing = record setup { read = λ it. none; sort = false; read_jobs = 1 }

abbrev left_over : List WorkItem
left_over = replicate 65 (file 97)

-- The reader fails with the first file, and the feeder has no one to send the second one to.
abbrev to_the_join : List Thread
to_the_join = Thread.feeder ∷ reader 0 ∷ reader 0 ∷ Thread.feeder ∷ []

abbrev hung : State failing
hung = run failing (begin failing (new vec []) (file 97 ∷ file 98 ∷ left_over)) to_the_join

hangs : IsBlocked failing hung
unfolding run step
hangs = (left_over, refl, omega arith)

step_terminates_example :
    Acc (Follows failing) hung
    × ((ts : List Thread) × (length ts ≤ measure failing hung)
        × IsSettled failing (run failing hung ts))
    × (IsBlocked failing hung → (ts : List Thread) → IsBlocked failing (run failing hung ts))
step_terminates_example = step_terminates failing hung

-- The files as they are, without a password.
abbrev stored_setup : Setup
stored_setup = record setup { method = store; password = none }

smooth : IsSmooth stored_setup files
unfolding encode_one entry_of protect compressed_with compress write_entry
smooth = record {
  walks = refl;
  readable = ((λ h. cc), ((λ h. cc), tt));
  encodable = λ salt' r c p h. cc;
  writable = λ zw e h. cc;
}

abbrev at_work : List Thread
at_work = reader 0 ∷ Thread.feeder ∷ reader 0 ∷ []

run-joins_example :
    let s = run stored_setup (begin stored_setup (new vec []) files) at_work in
    (returned stored_setup s ≢ Returned.error)
    × (ts' : List Thread) × (l : Loop vec) × (length ts' ≤ measure stored_setup s)
    × (returned stored_setup (run stored_setup s ts') ≡ Returned.joined l)
run-joins_example =
    run-joins stored_setup files smooth (new vec []) (omega arith) (omega arith) at_work
