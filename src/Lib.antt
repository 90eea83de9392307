-- ===== src/Lib.antt =====
-- tzip: a ZIP archiver that reads, compresses, encrypts and writes in parallel stages.
--
-- The program walks the given paths (src/walker.rs), feeds the files to readers, compresses and
-- encrypts each file as one item (src/compress.rs, src/crypto.rs, `encode_one` of src/pipeline.rs) and
-- writes the entries one after the other (the writer loops of src/pipeline.rs, src/zipwriter.rs). With
-- `--raw-block` it reads an APFS volume off the device (src/raw_apfs.rs), or, on Linux, the files in the
-- order in which they lie on the disk (src/linux_raw.rs, src/fiemap.rs, src/io_uring_src.rs).
--
-- Which file models which part:
--   Prelude, Bytes: lists, maps, tests on numbers, bit fields and little-endian fields
--   Zip.Entry, Zip.Header, Zip.Writer: src/zipwriter.rs. `lfh`, `cdr`, `eocd64`, `loc` and `eocd` are
--     the buffers of these names; `write_entry` and `finish` are the methods, over any output (`Sink`,
--     for `W: Write + Seek`), with `none` for an I/O error and 64-bit positions that wrap
--   Zip.Layout: the bytes of an archive as a specification; Zip.Reader: a reader that is written from
--     the format alone, for the round trip
--   Crypto: `encrypt_ae2_in_place` and `encrypt_ae2_in_place_with_salt` of src/crypto.rs, on one buffer;
--     Crypto.Envelope and Crypto.Open: what stands in it, and opening it with the password
--   Compress: src/compress.rs, with the scratch of a worker as explicit state; Compress.Decode and
--     Compress.Reuse: decoding, and reuse of the scratch
--   Pipeline.Encode: `encode_one`; Pipeline.Reorder: the writer loops; Pipeline.Split: the splitter
--   Pipeline.Stages: the feeder, the readers, the CPU workers and the writer of `run` in src/pipeline.rs
--     where a reader takes one file at a time, with the joins at the end: `step` is one move of one
--     thread, and a schedule says which thread moves. A thread that waits on a channel has no move. Of the
--     walker thread there is what its channel shows: it runs ahead of the feeder as far as there is room
--   Pipeline.Bounded: what src/pipeline.rs asks of the bounded channels of crossbeam, with its laws
--   Pipeline.Tune: `auto_tune` for both systems and `choose_writer_capacity`
--   Cli: `Args::into_options` and `resolve_password` of src/cli.rs, for a build with every feature on Linux
--   Time: `civil_from_days` and `unix_to_dos` of src/walker.rs (copied in src/bulk_walker.rs)
--   Walk.Glob: `glob_match` and `is_excluded` of src/walker.rs
--   Walk.Stream: `walk_stream` and `walk` of src/walker.rs and `walk_stream_bulk` of src/bulk_walker.rs,
--     with `build_item`. What jwalk finds, in which order, and the calls of the file system are parameters
--   Walk.Bulk: `walk_recursive` of src/bulk_walker.rs, with the parsing of its records
--   Walk.Name: `archive_prefix_for_root` and `archive_name` of src/walker.rs
--   Channel: `RawItem` of src/pipeline.rs, the channel from the readers on, and how a reader's loop ends
--   RawApfs.Cache, RawApfs.Shards: `BlockCacheInner` and `SharedBlockCache` of src/raw_apfs.rs
--   RawApfs.Aligned: `AlignedRawReader` of src/raw_apfs.rs
--   RawApfs.Volume: what src/raw_apfs.rs asks of the vendored parser; RawApfs.Oid: `resolve_oid`;
--     RawApfs.Source: `read` of one file, and `whole_disk_raw`; RawApfs.Walk: `walk_root` and `walk_dir`
--   RawApfs.Bulk: `bulk_read_all` and `bulk_read_window` of src/raw_apfs.rs by their phases: Meta (1a to
--     1c), Slots (1d), Runs and Reads (2), Window (3, and the whole)
--   Linux.Fiemap: src/fiemap.rs; Linux.Extent: src/linux_raw.rs with the reads of src/platform.rs;
--     Linux.Uring: `read_batch` of src/io_uring_src.rs; Linux.Window: the pass of src/linux_raw.rs over it
--   Tests: the theorems at concrete inputs, with codecs and a cipher that their laws hold for
--
-- Strings are lists of UTF-8 bytes, bytes are numbers. Code of crates is a parameter: the codecs
-- (`Codecs`, `Decoders`), PBKDF2, AES-CTR and HMAC (`Primitives`), the checksum and the random
-- salt, and the output. Of flate2 the parameter is one call of `Compress::compress`, and of `Vec`
-- the capacities that it gives. A level is clamped as the source clamps it. Other capacities of buffers
-- are not modelled, since no result depends on them. In Channel and Pipeline.Reorder the entries of
-- a channel are a list in the order of their arrival, so that every interleaving of the threads is
-- one such list. In Pipeline.Stages the bounded channel is a parameter.
--
-- Fuel: `chunk_loop` runs on the length of the chunk and one, where a stream that fits the buffer
-- takes one round; `drain` runs on the number of waiting entries, since every round takes one out;
-- `chunks` runs on the length of the input, since every chunk takes a byte at least; `split_from`
-- runs on the number of rounds of the source's `for`; `read_runs` runs on the number of tasks,
-- since every run takes one at least; `top_up` runs on the number of jobs, each of which it passes
-- once; `walk_dir` and `walk_recursive` run on the depth of the tree; `extents` runs on the number
-- of calls, as the kernel decides when the list ends. The stages run on a schedule, any list of
-- threads.
--
-- The kernel, the APFS parser and the channels are parameters with the laws that the code relies on.
-- Statistics, timing, messages and advice to the kernel change no result and are left out.
--
-- Not modelled: the panic of a thread, the choice of the source in `run` and its readers that take whole
-- chunks, opening devices and the pool of volumes, `device_traits` of src/linux_raw.rs, src/sevenz.rs,
-- the system calls of src/platform.rs, the progress display and the diagnostics (src/tui.rs,
-- src/usb_info.rs, src/contention.rs), and the libraries under vendor/.
pub mod Prelude
pub mod Bytes
pub mod Channel
pub mod Zip
pub mod Tests
pub mod Time
pub mod Walk
pub mod Crypto
pub mod Compress
pub mod Pipeline
pub mod RawApfs
pub mod Linux
pub mod Cli
