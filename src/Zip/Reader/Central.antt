-- ===== src/Zip/Reader/Central.antt =====
-- The reader on a central directory record of src/zipwriter.rs.
use tzip.Prelude.{
  ℕ, ◌+◌, ◌*◌, ◌^◌, ◌<◌, ◌≡◌, refl, ◌∙◌, ap, max, Bool, true, false, none, some, [], ◌∷◌, ◌++◌,
  arith, length, concat, length-append, append_assoc, append-nil, if◌then◌else◌,
}
use tzip.Bytes.{Bytes, le, length-le}
use tzip.Zip.Entry.{EncodedEntry, CentralEntry, sig_cdr}
use tzip.Zip.Header.{u32_max, too_wide, needs_zip64, gpbf, vn, wire_crc, aes_extra, cdr_zip64, cdr}
use tzip.Zip.Writer.{central_entry}
use tzip.Zip.Reader.{Header, read_cdr}
use tzip.Zip.Reader.Fields.{read_cdr-fields}
use tzip.Zip.Reader.Extras.{fields, encode_extras, aes_of, resolve-fields}
use tzip.Zip.Reader.Headers.{
  IsWritable, cdr_extra-encode, length-aes_extra, marked-lt, gpbf-lt, gpbf_lem, vn-lt, wire_crc-lt,
}

-- What the directory should say of an entry: no version below 4.5, and the rest as in its local
-- header.
unfoldable pub central_header : EncodedEntry → Header
central_header e = record {
  version = max e.version_needed 45;
  flags = 0x800 + (if e.encrypted then 1 else 0) + (if e.gp_bit1 then 2 else 0);
  method = e.method_on_wire;
  mtime = e.mtime;
  crc32 = if e.encrypted then 0 else e.crc32;
  comp_size = length e.body;
  uncomp_size = e.uncompressed_size;
  name = e.name;
  aes = if e.encrypted then some e.inner_method else none;
}

length-cdr_extra :
    (wide far : Bool) (c : CentralEntry)
    → needs_zip64 c.comp_size c.uncomp_size ≡ wide
    → too_wide c.lfh_offset ≡ far
    → length (cdr_zip64 c ++ aes_extra c.encrypted c.inner_method) < 256 ^ 2
unfolding cdr_zip64
length-cdr_extra true true c hw hf =
    rw (hw, hf) (simp (length-append, length-le, length-aes_extra) (ground arith))
length-cdr_extra true false c hw hf =
    rw (hw, hf) (simp (length-append, length-le, length-aes_extra) (ground arith))
length-cdr_extra false true c hw hf =
    rw (hw, hf) (simp (length-append, length-le, length-aes_extra) (ground arith))
length-cdr_extra false false c hw hf =
    rw (hw, hf) (simp (length-append, length-le, length-aes_extra) (ground arith))

far-lt :
    (far : Bool) (offset : ℕ) → too_wide offset ≡ far → (if far then u32_max else offset) < 2 ^ 32
far-lt true offset h = omega arith
far-lt false offset h = ground arith

cdr-fields :
    (wide far : Bool) (c : CentralEntry)
    → needs_zip64 c.comp_size c.uncomp_size ≡ wide
    → too_wide c.lfh_offset ≡ far
    → (extra : Bytes) → cdr_zip64 c ++ aes_extra c.encrypted c.inner_method ≡ extra
    → cdr c
      ≡ concat (
          le 4 sig_cdr
          ∷ le 2 0x031E
          ∷ le 2 (max c.version_needed 45)
          ∷ le 2 (gpbf c.encrypted c.gp_bit1)
          ∷ le 2 c.method_on_wire
          ∷ le 2 c.mtime.1
          ∷ le 2 c.mtime.0
          ∷ le 4 c.crc32
          ∷ le 4 (if wide then u32_max else c.comp_size)
          ∷ le 4 (if wide then u32_max else c.uncomp_size)
          ∷ le 2 (length c.name)
          ∷ le 2 (length extra)
          ∷ le 2 0
          ∷ le 2 0
          ∷ le 2 0
          ∷ le 4 (0o100644 * 65536)
          ∷ le 4 (if far then u32_max else c.lfh_offset)
          ∷ c.name
          ∷ extra
          ∷ [])
unfolding cdr
cdr-fields wide far c hw hf extra he =
    rw (← he, hw, hf) (simp (append_assoc, append-nil, length-append, length-aes_extra))

abbrev bare_central : Bool → EncodedEntry → Header
bare_central wide e = record {
  version = max (vn e) 45;
  flags = gpbf e.encrypted e.gp_bit1;
  method = e.method_on_wire;
  mtime = e.mtime;
  crc32 = wire_crc e;
  comp_size = if wide then u32_max else length e.body;
  uncomp_size = if wide then u32_max else e.uncompressed_size;
  name = e.name;
  aes = none;
}

completed :
    (wide : Bool) (e : EncodedEntry)
    → record (bare_central wide e) {
      comp_size = length e.body;
      uncomp_size = e.uncompressed_size;
      aes = aes_of e.encrypted e.inner_method;
    }
      ≡ central_header e
unfolding central_header vn wire_crc needs_zip64
completed wide e = ground (arith, gpbf_lem e.encrypted e.gp_bit1)

read_cdr_at :
    (wide far : Bool) (e : EncodedEntry) (offset : ℕ) (rest : Bytes)
    → IsWritable e
    → offset < 2 ^ 64
    → needs_zip64 (length e.body) e.uncompressed_size ≡ wide
    → too_wide offset ≡ far
    → read_cdr (cdr (central_entry e offset) ++ rest) ≡ some ((central_header e, offset), rest)
unfolding central_entry
read_cdr_at wide far e offset rest fits at hw hf =
    let c = central_entry e offset in
    let comp = length e.body in
    let uncomp = e.uncompressed_size in
    let extra = encode_extras (fields wide far comp uncomp offset e.encrypted e.inner_method) in
    let same = cdr_extra-encode wide far c hw hf in
    let short : length extra < 256 ^ 2 = rw (← same) (length-cdr_extra wide far c hw hf) in
    let (narrow, narrow') = marked-lt wide comp uncomp hw in
    rw (cdr-fields wide far c hw hf extra same) (
      read_cdr-fields 0x031E (max (vn e) 45) (gpbf e.encrypted e.gp_bit1) e.method_on_wire e.mtime.1
        e.mtime.0 (wire_crc e) (if wide then u32_max else comp) (if wide then u32_max else uncomp)
        (0o100644 * 65536) (if far then u32_max else offset) e.name extra rest (omega arith)
        (omega (arith, vn-lt e fits)) (gpbf-lt e.encrypted e.gp_bit1) fits.method_on_wire fits.time
        fits.date (wire_crc-lt e fits) narrow narrow' fits.name short (omega arith)
        (far-lt far offset hf)
      ∙ rw
          (resolve-fields wide far e.encrypted comp uncomp offset e.inner_method
            (bare_central wide e) fits.body fits.uncompressed_size at fits.inner_method hw hf refl
            refl)
          (ap (λ (h : Header). some ((h, offset), rest)) (completed wide e)))

-- The reader takes the directory record of a writable entry, written for a local header at `offset`,
-- off the front of its input, and finds that offset in it.
pub read_cdr-cdr :
    (e : EncodedEntry) (offset : ℕ) (rest : Bytes)
    → IsWritable e
    → offset < 2 ^ 64
    → read_cdr (cdr (central_entry e offset) ++ rest) ≡ some ((central_header e, offset), rest)
read_cdr-cdr e offset rest fits at = read_cdr_at _ _ e offset rest fits at refl refl
