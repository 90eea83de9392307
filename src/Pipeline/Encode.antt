-- ===== src/Pipeline/Encode.antt =====
-- `encode_one` of src/pipeline.rs: checksum, compression and encryption of one item.
pub mod Decode
use tzip.Prelude.{
  ℕ, ◌+◌, ◌-◌, ◌==◌, Bool, true, false, Option, none, some, List, [], ◌∷◌, ◌++◌, if◌then◌else◌,
  length, take, drop, replicate, ◌>>=◌, ◌>>◌,
}
use tzip.Bytes.{Bytes, copy_from_slice, slice}
use tzip.Channel.{RawItem}
use tzip.Zip.Entry.{EncodedEntry, method_aes}
use tzip.Crypto.{Primitives, salt_len, verify_len, ae2_overhead, encrypt_ae2_in_place}
use tzip.Compress.{
  Codecs, Method, CompressOut, Scratch, compress, compress_parallel_deflate, method_id,
  version_needed,
}

-- `buf.resize(n, 0)`
abbrev pub resize : ℕ → Bytes → Bytes
resize n buf = take n buf ++ replicate (n - length buf) 0

-- `buf.copy_within(from..to, dest)`
abbrev pub copy_within : ℕ → ℕ → ℕ → Bytes → Bytes
copy_within from to dest buf = copy_from_slice dest (slice from to buf) buf

-- `salt` is what the random number generator gives, `crc` the crate's checksum.
module _ (C : Codecs) (P : Primitives) (crc : Bytes → ℕ) (salt : Bytes) where
  -- The encrypted body, in the buffer of the compressed one.
  unfoldable pub lock : Bytes → Bytes → Option Bytes
  lock pw compressed =
      let compressed_len = length compressed in
      let buf = resize (compressed_len + ae2_overhead) compressed in
      let moved = copy_within 0 compressed_len (salt_len + verify_len) buf in
      encrypt_ae2_in_place P salt pw moved compressed_len

  -- The body, whether it is encrypted, and the method on the wire.
  unfoldable pub protect : Option Bytes → Method → Bytes → Option (Bytes × Bool × ℕ)
  protect none method compressed = some (compressed, false, method_id method)
  protect (some pw) method compressed =
      if length pw == 0
      then some (compressed, false, method_id method)
      else (do buf ← lock pw compressed; some (buf, true, method_aes))

  unfoldable pub compressed_with :
      RawItem → Method → ℕ → Scratch C → Bool → Scratch C × Option CompressOut
  compressed_with raw method level scratch single_file_parallel =
      if single_file_parallel
      then (scratch, compress_parallel_deflate C raw.bytes level)
      else compress C method level raw.bytes scratch

  unfoldable pub entry_from : RawItem → Method → CompressOut → Bytes × Bool × ℕ → EncodedEntry
  entry_from raw method out (body, encrypted, method_on_wire) = record {
    index = raw.index;
    name = raw.item.name_in_archive;
    body = body;
    uncompressed_size = length raw.bytes;
    crc32 = crc raw.bytes;
    method_on_wire = method_on_wire;
    inner_method = method_id method;
    encrypted = encrypted;
    gp_bit1 = out.gp_bit1;
    version_needed = version_needed method;
    mtime = raw.item.mtime;
  }

  unfoldable pub entry_of : RawItem → Method → Option Bytes → CompressOut → Option EncodedEntry
  entry_of raw method password out = do
    r ← protect password method out.bytes
    some (entry_from raw method out r)

  unfoldable pub encode_one :
      RawItem → Method → ℕ → Option Bytes → Scratch C → Bool → Scratch C × Option EncodedEntry
  encode_one raw method level password scratch single_file_parallel =
      let (scratch', out) = compressed_with raw method level scratch single_file_parallel in
      (scratch', do o ← out; entry_of raw method password o)
