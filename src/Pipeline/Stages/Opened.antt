-- ===== src/Pipeline/Stages/Opened.antt =====
-- The entries that `run` of src/pipeline.rs has written, opened by an unarchiver.
use tzip.Prelude.{
  ◌≤◌, ◌≡◌, ◌≢◌, refl, sym, ap, ◌∙◌, true, Option, none, some, some-inj, List, [], ◌>>=◌,
}
use tzip.Bytes.{Bytes}
use tzip.Walk.Item.{WorkItem}
use tzip.Channel.{RawItem}
use tzip.Compress.{deflate, CompressOut, Scratch}
use tzip.Compress.Decode.{Decoders, IsTight}
use tzip.Zip.Entry.{EncodedEntry}
use tzip.Zip.Writer.{ZipWriter}
use tzip.Pipeline.Reorder.{Loop}
use tzip.Pipeline.Encode.{encode_one, compressed_with, entry_of}
use tzip.Pipeline.Encode.Decode.{decode, password_of, encode_one-decode}
use tzip.Pipeline.Stages.{Setup, Salt, Thread, begin, encode, run}
use tzip.Pipeline.Stages.Ends.{Returned, returned}
use tzip.Pipeline.Stages.Whole.{Each, Each-weaken, IsEntryOf, by_index, Wrote, run-IsWhole}

module _ (u : Setup) (D : Decoders u.codecs) where
  -- Opening the entry with the password gives the bytes that the source reads for the item.
  pub record IsOpened (item : WorkItem) (e : EncodedEntry) : Type 0 where
    pub bytes : Bytes
    pub reads : u.read item ≡ some bytes
    pub opens : decode D u.primitives (password_of D u.primitives u.password) e ≡ some bytes

  module _
      (guard : u.single_file_parallel ≡ true
        → (u.method ≡ deflate) × ((it : WorkItem) → u.read it ≢ some []) × IsTight u.codecs) where
    some_bytes :
        (r : RawItem)
        → u.read r.item ≡ some r.bytes
        → u.single_file_parallel ≡ true
        → (u.method ≡ deflate) × (r.bytes ≢ []) × IsTight u.codecs
    some_bytes r reads h =
        let (is_deflate, never, tight) = guard h in
        (is_deflate, (λ empty. never r.item (reads ∙ ap some empty)), tight)

    compressed_of :
        (salt : Salt) (r : RawItem) (c : Scratch u.codecs) (e : EncodedEntry)
        → (encode u salt r c).1 ≡ some e
        → (out : CompressOut) × ((compressed_with u.codecs u.primitives u.crc salt.bytes r u.method
              u.level c u.single_file_parallel).1
            ≡ some out)
    unfolding encode_one
    compressed_of salt r c e made =
        found
          (compressed_with u.codecs u.primitives u.crc salt.bytes r u.method u.level c
            u.single_file_parallel).1
          made
      where
        found :
            (o : Option CompressOut)
            → (o >>= entry_of u.codecs u.primitives u.crc salt.bytes r u.method u.password) ≡ some e
            → (out : CompressOut) × (o ≡ some out)
        found none h = absurd cc
        found (some out) h = (out, refl)

    entry-IsOpened : (item : WorkItem) (e : EncodedEntry) → IsEntryOf u item e → IsOpened item e
    entry-IsOpened item e h =
        let (out, compressed) = compressed_of h.salt h.raw h.scratch e h.made in
        let (e', made, opens) =
          encode_one-decode D u.primitives u.crc h.salt.bytes h.salt.sized h.raw u.method u.level
            u.password h.scratch u.single_file_parallel out (some_bytes h.raw h.reads) compressed in
        let same : e' ≡ e = some-inj (sym made ∙ h.made) in
        record {
          bytes = h.raw.bytes;
          reads = ap u.read (sym h.of_item) ∙ h.reads;
          opens =
              ap (decode D u.primitives (password_of D u.primitives u.password)) (sym same) ∙ opens;
        }

    -- With a reader and a worker at least, whatever the schedule of the threads, and with the parallel
    -- stream for DEFLATE, files that are not empty and a codec whose stream of a chunk has room in the
    -- buffer that is made for it: when `run` comes back from its joins without
    -- an error, the entries written are one for every item of the walk, and opening it with the password
    -- and decompressing it gives the bytes that the source reads for the item.
    pub run-IsOpened :
        (zw : ZipWriter u.sink) (items : List WorkItem) (ts : List Thread) (l : Loop u.sink)
        → 1 ≤ u.read_jobs
        → 1 ≤ u.cpu_jobs
        → returned u (run u (begin u zw items) ts) ≡ Returned.joined l
        → (a : List EncodedEntry) × Each IsOpened items (by_index u a) × Wrote u zw items u.sort a l
    run-IsOpened zw items ts l some_reader some_worker back =
        let (a, whole, wrote) = run-IsWhole u zw items ts l some_reader some_worker back in
        (a, Each-weaken (IsEntryOf u) IsOpened entry-IsOpened items (by_index u a) whole, wrote)
