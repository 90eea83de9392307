-- ===== src/Zip/Writer.antt =====
-- `ZipWriter` of src/zipwriter.rs over any output. The output (`W: Write + Seek`) is not part of the
-- program: it is a parameter, with the documented effect of a call that succeeds.
use tzip.Prelude.{
  ℕ, ◌+◌, ◌-◌, ◌%◌, ◌^◌, ◌≡◌, Option, some, List, [], ◌∷◌, ◌++◌, if◌then◌else◌, length, ◌>>=◌,
}
use tzip.Bytes.{Bytes}
use tzip.Zip.Entry.{EncodedEntry, CentralEntry}
use tzip.Zip.Header.{lfh, cdr, eocd64, loc, eocd, vn, wire_crc, needs_zip64_eocd}

-- `write_all` and `flush` answer `none` on an I/O error.
pub record Sink : Type 1 where
  pub W : Type 0
  pub contents : W → Bytes
  pub write_all : W → Bytes → Option W
  pub flush : W → Option W
  pub contents-write_all :
      (w : W) (bs : Bytes) (w' : W) → write_all w bs ≡ some w' → contents w' ≡ contents w ++ bs
  pub contents-flush : (w w' : W) → flush w ≡ some w' → contents w' ≡ contents w

-- `u64` addition and subtraction, which wrap.
abbrev pub u64_mod : ℕ
u64_mod = 2 ^ 64

abbrev pub add64 : ℕ → ℕ → ℕ
add64 a b = (a + b) % u64_mod

abbrev pub sub64 : ℕ → ℕ → ℕ
sub64 a b = (a + u64_mod - b) % u64_mod

unfoldable pub central_entry : EncodedEntry → ℕ → CentralEntry
central_entry e lfh_offset = record {
  name = e.name;
  method_on_wire = e.method_on_wire;
  inner_method = e.inner_method;
  encrypted = e.encrypted;
  gp_bit1 = e.gp_bit1;
  version_needed = vn e;
  crc32 = wire_crc e;
  comp_size = length e.body;
  uncomp_size = e.uncompressed_size;
  lfh_offset = lfh_offset;
  mtime = e.mtime;
}

module _ (S : Sink) where
  open S use {W, write_all, flush}

  pub record ZipWriter : Type 0 where
    pub inner : W
    pub entries : List CentralEntry
    pub pos : ℕ

  unfoldable pub new : W → ZipWriter
  new inner = record { inner = inner; entries = []; pos = 0 }

  unfoldable pub write_entry : ZipWriter → EncodedEntry → Option ZipWriter
  write_entry zw e = do
    w ← write_all zw.inner (lfh e)
    w' ← write_all w e.body
    some (record {
      inner = w';
      entries = zw.entries ++ (central_entry e zw.pos ∷ []);
      pos = add64 zw.pos (length (lfh e) + length e.body);
    })

  -- The loop of `finish` over the entries: the output and `self.pos` after it.
  unfoldable pub write_cdrs : W → ℕ → List CentralEntry → Option (W × ℕ)
  write_cdrs w pos [] = some (w, pos)
  write_cdrs w pos (e ∷ es) = do
    w' ← write_all w (cdr e)
    write_cdrs w' (add64 pos (length (cdr e))) es

  -- The zip64 end record and its locator, where they are needed.
  unfoldable pub write_eocd64 : W → ℕ → ℕ → ℕ → ℕ → Option W
  write_eocd64 w pos entry_count cd_offset cd_size =
      if needs_zip64_eocd entry_count cd_offset cd_size
      then (do w' ← write_all w (eocd64 entry_count cd_offset cd_size); write_all w' (loc pos))
      else some w

  -- `finish` after its loop: the sizes, the end records, and the flush.
  unfoldable pub write_end : W → ℕ → ℕ → ℕ → Option W
  write_end w pos cd_offset entry_count = do
    let cd_size = sub64 pos cd_offset
    w' ← write_eocd64 w pos entry_count cd_offset cd_size
    w'' ← write_all w' (eocd entry_count cd_offset cd_size)
    flush w''

  unfoldable pub finish : ZipWriter → Option W
  finish zw = do
    (w, pos) ← write_cdrs zw.inner zw.pos zw.entries
    write_end w pos zw.pos (length zw.entries)

  -- The calls that the pipeline makes: one `write_entry` for each entry, up to an error.
  unfoldable pub write_entries : ZipWriter → List EncodedEntry → Option ZipWriter
  write_entries zw [] = some zw
  write_entries zw (e ∷ es) = do zw' ← write_entry zw e; write_entries zw' es
