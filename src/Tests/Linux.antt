-- ===== src/Tests/Linux.antt =====
-- A file system where every path is a file that holds its own name.
use tzip.Prelude.{ℕ, ◌≡◌, refl, Option, none, some, List, [], ◌∷◌, ◌++◌, map, All, Any}
use tzip.Prelude.Chunks.{chunks}
use tzip.Prelude.Sort.{sort_by_key, insert_by_key}
use tzip.Bytes.{Bytes}
use tzip.Walk.Item.{WorkItem}
use tzip.Channel.{RawItem, Channel, Outcome, Ends}
use tzip.Linux.Fiemap.{fs_ioc_fiemap, ioc}
use tzip.Linux.Extent.{
  FileSystem, probe, open_item, read, read_from_file, read_entry, ordered, read_window,
  bulk_read_all,
}
use tzip.Linux.Extent.Complete.{key, bulk_read_all_complete}
use tzip.Linux.Extent.Total.{IsUnreadable, bulk_read_all_total, bulk_read_all_failed}
use tzip.Linux.Uring.{Completion, start, read_batch}
use tzip.Linux.Uring.Filled.{IsSound}
use tzip.Linux.Uring.Sound.{read_batch-IsSound}
use tzip.Linux.Window.{Job, run_jobs}
use tzip.Linux.Window.Sent.{IsSent, run_jobs-IsSent}
use tzip.Tests.Toy.{open_channel}
use mathlib.Core.List.{Perm}

abbrev names : (Bytes → Option Bytes) → FileSystem
names contents = record {
  File = Bytes;
  open_at = λ d b. none;
  open_path = λ p. some p;
  fiemap = λ f start count. none;
  mmap = contents;
  read_to_end = contents;
}

abbrev fs : FileSystem
fs = names (λ f. some f)

abbrev broken : FileSystem
broken = names (λ f. none)

abbrev raw : Channel RawItem
raw = open_channel RawItem

abbrev item : WorkItem
item = record {
  path = 97 ∷ [];
  name_in_archive = 97 ∷ [];
  size = 1;
  mtime = (33, 0);
  dirfd = none;
  basename = none;
}

abbrev items : List (ℕ × WorkItem)
items = (0, item) ∷ []

abbrev sent : List RawItem
sent = record { index = 0; item = item; bytes = 97 ∷ [] } ∷ []

reads_all : bulk_read_all fs raw items [] ≡ Outcome.next sent
unfolding bulk_read_all read_window ordered read_entry probe open_item read_from_file chunks
    sort_by_key insert_by_key
reads_all = refl

bulk_read_all_complete_example :
    (out : List RawItem) × (raw.received sent ≡ raw.received [] ++ out)
    × Perm (map key out) items
    × All (λ r. read fs r.item ≡ some r.bytes) out
bulk_read_all_complete_example = bulk_read_all_complete fs raw items [] sent reads_all

item-readable : read fs item ≡ some (97 ∷ [])
unfolding read open_item read_from_file
item-readable = refl

bulk_read_all_total_example : (s : raw.State) × (bulk_read_all fs raw items [] ≡ Outcome.next s)
bulk_read_all_total_example =
    bulk_read_all_total fs raw (λ r s. (s ++ (r ∷ []), refl)) items []
      ((97 ∷ [], item-readable), tt)

fails : bulk_read_all broken raw items [] ≡ Outcome.failed []
unfolding bulk_read_all read_window ordered read_entry probe open_item read_from_file chunks
    sort_by_key insert_by_key
fails = refl

bulk_read_all_failed_example : Any (IsUnreadable broken raw) items
bulk_read_all_failed_example = bulk_read_all_failed broken raw items [] [] fails

-- The request of linux/fiemap.h.
request_number : fs_ioc_fiemap ≡ 0xC020660B
unfolding ioc
request_number = refl

abbrev done : Channel (ℕ × Bytes)
done = open_channel (ℕ × Bytes)

-- Two jobs of two bytes; the second completes first, the first in two reads.
abbrev rounds : List (List Completion)
rounds = (Completion.read 1 7 ∷ Completion.read 0 0 ∷ []) ∷ (Completion.read 0 0 ∷ []) ∷ []

read_batch-IsSound_example :
    Ends
      (IsSound done (λ i. 8 ∷ 9 ∷ []) (2 ∷ 2 ∷ []) [])
      (read_batch done (λ i. 8 ∷ 9 ∷ []) rounds (start done (2 ∷ 2 ∷ []) []))
read_batch-IsSound_example = read_batch-IsSound done (λ i. 8 ∷ 9 ∷ []) (2 ∷ 2 ∷ []) [] rounds

abbrev jobs : List (Job fs)
jobs = (8 ∷ 9 ∷ [], 4, item) ∷ (7 ∷ [], 5, item) ∷ []

run_jobs-IsSent_example :
    Ends (IsSent fs raw (λ f. f) jobs []) (run_jobs fs raw (λ f. f) rounds jobs [])
run_jobs-IsSent_example = run_jobs-IsSent fs raw (λ f. f) jobs [] rounds
