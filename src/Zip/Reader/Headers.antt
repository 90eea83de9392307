-- ===== src/Zip/Reader/Headers.antt =====
-- The reader on the headers of src/zipwriter.rs: what it says of a local file header and of a central
-- directory record.
use tzip.Prelude.{
  ℕ, ◌+◌, ◌^◌, ◌<◌, ◌≡◌, refl, ◌∙◌, ap, max, Bool, true, false, ◌||◌, none, some, [], ◌∷◌, ◌++◌,
  arith, length, concat, length-append, append_assoc, append-nil, if◌then◌else◌, leb,
}
use tzip.Bytes.{Bytes, le, length-le}
use tzip.Zip.Entry.{EncodedEntry, CentralEntry, sig_lfh}
use tzip.Zip.Header.{
  u32_max, too_wide, needs_zip64, gpbf, vn, wire_crc, aes_extra, lfh_zip64, lfh, cdr_zip64,
}
use tzip.Zip.Reader.{Header, read_lfh}
use tzip.Zip.Reader.Fields.{read_lfh-fields}
use tzip.Zip.Reader.Extras.{fields, encode_extras, aes_of, resolve-fields}

aes_extra-encode :
    (encrypted : Bool) (inner : ℕ)
    → aes_extra encrypted inner ≡ encode_extras (fields false false 0 0 0 encrypted inner)
unfolding aes_extra
aes_extra-encode true inner = simp (append_assoc, append-nil, length-append, length-le)
aes_extra-encode false inner = refl

lfh_extra-encode :
    (wide : Bool) (comp uncomp inner : ℕ) (encrypted : Bool)
    → needs_zip64 comp uncomp ≡ wide
    → lfh_zip64 comp uncomp ++ aes_extra encrypted inner
      ≡ encode_extras (fields wide false comp uncomp 0 encrypted inner)
unfolding lfh_zip64
lfh_extra-encode true comp uncomp inner encrypted h =
    rw h (simp (aes_extra-encode, append_assoc, append-nil, length-append, length-le))
lfh_extra-encode false comp uncomp inner encrypted h = rw h (aes_extra-encode encrypted inner)

pub cdr_extra-encode :
    (wide far : Bool) (c : CentralEntry)
    → needs_zip64 c.comp_size c.uncomp_size ≡ wide
    → too_wide c.lfh_offset ≡ far
    → cdr_zip64 c ++ aes_extra c.encrypted c.inner_method
      ≡ encode_extras
          (fields wide far c.comp_size c.uncomp_size c.lfh_offset c.encrypted c.inner_method)
unfolding cdr_zip64
cdr_extra-encode true true c hw hf =
    rw (hw, hf) (simp (aes_extra-encode, append_assoc, append-nil, length-append, length-le))
cdr_extra-encode true false c hw hf =
    rw (hw, hf) (simp (aes_extra-encode, append_assoc, append-nil, length-append, length-le))
cdr_extra-encode false true c hw hf =
    rw (hw, hf) (simp (aes_extra-encode, append_assoc, append-nil, length-append, length-le))
cdr_extra-encode false false c hw hf = rw (hw, hf) (aes_extra-encode c.encrypted c.inner_method)

pub length-aes_extra :
    (encrypted : Bool) (inner : ℕ)
    → length (aes_extra encrypted inner) ≡ (if encrypted then 11 else 0)
unfolding aes_extra
length-aes_extra true inner = simp (length-append, length-le)
length-aes_extra false inner = refl

length-lfh_extra :
    (wide : Bool) (comp uncomp inner : ℕ) (encrypted : Bool)
    → needs_zip64 comp uncomp ≡ wide
    → length (lfh_zip64 comp uncomp ++ aes_extra encrypted inner)
      ≡ (if wide then 20 else 0) + (if encrypted then 11 else 0)
unfolding lfh_zip64
length-lfh_extra true comp uncomp inner encrypted h =
    rw h (simp (length-append, length-le, length-aes_extra))
length-lfh_extra false comp uncomp inner encrypted h = rw h (simp (length-aes_extra) (omega arith))

-- The fields of an entry fit the widths that the format has for them.
pub record IsWritable (e : EncodedEntry) : Type 0 where
  pub name : length e.name < 2 ^ 16
  pub body : length e.body < 2 ^ 64
  pub uncompressed_size : e.uncompressed_size < 2 ^ 64
  pub crc32 : e.crc32 < 2 ^ 32
  pub method_on_wire : e.method_on_wire < 2 ^ 16
  pub inner_method : e.inner_method < 2 ^ 16
  pub version_needed : e.version_needed < 2 ^ 16
  pub date : e.mtime.0 < 2 ^ 16
  pub time : e.mtime.1 < 2 ^ 16

-- What the local header of an entry should say.
unfoldable pub local_header : EncodedEntry → Header
local_header e = record {
  version =
      max e.version_needed
        (if leb u32_max (length e.body) || leb u32_max e.uncompressed_size then 45 else 20);
  flags = 0x800 + (if e.encrypted then 1 else 0) + (if e.gp_bit1 then 2 else 0);
  method = e.method_on_wire;
  mtime = e.mtime;
  crc32 = if e.encrypted then 0 else e.crc32;
  comp_size = length e.body;
  uncomp_size = e.uncompressed_size;
  name = e.name;
  aes = if e.encrypted then some e.inner_method else none;
}

pub gpbf_lem :
    (encrypted gp_bit1 : Bool)
    → gpbf encrypted gp_bit1 ≡ 0x800 + (if encrypted then 1 else 0) + (if gp_bit1 then 2 else 0)
unfolding gpbf
gpbf_lem true true = refl
gpbf_lem true false = refl
gpbf_lem false true = refl
gpbf_lem false false = refl

pub gpbf-lt : (encrypted gp_bit1 : Bool) → gpbf encrypted gp_bit1 < 2 ^ 16
gpbf-lt encrypted gp_bit1 = rw gpbf_lem (ground arith)

pub marked-lt :
    (wide : Bool) (comp uncomp : ℕ)
    → needs_zip64 comp uncomp ≡ wide
    → ((if wide then u32_max else comp) < 2 ^ 32) × ((if wide then u32_max else uncomp) < 2 ^ 32)
unfolding needs_zip64
marked-lt true comp uncomp h = (omega arith, omega arith)
marked-lt false comp uncomp h = (ground arith, ground arith)

lfh-fields :
    (wide : Bool) (e : EncodedEntry)
    → needs_zip64 (length e.body) e.uncompressed_size ≡ wide
    → (extra : Bytes)
    → lfh_zip64 (length e.body) e.uncompressed_size ++ aes_extra e.encrypted e.inner_method ≡ extra
    → lfh e
      ≡ concat (
          le 4 sig_lfh
          ∷ le 2 (vn e)
          ∷ le 2 (gpbf e.encrypted e.gp_bit1)
          ∷ le 2 e.method_on_wire
          ∷ le 2 e.mtime.1
          ∷ le 2 e.mtime.0
          ∷ le 4 (wire_crc e)
          ∷ le 4 (if wide then u32_max else length e.body)
          ∷ le 4 (if wide then u32_max else e.uncompressed_size)
          ∷ le 2 (length e.name)
          ∷ le 2 (length extra)
          ∷ e.name
          ∷ extra
          ∷ [])
unfolding lfh
lfh-fields wide e hw extra he =
    rw
      (
        ← he,
        length-lfh_extra wide (length e.body) e.uncompressed_size e.inner_method e.encrypted hw,
        hw,
      )
      (simp (append_assoc, append-nil))

pub vn-lt : (e : EncodedEntry) → IsWritable e → vn e < 2 ^ 16
unfolding vn
vn-lt e fits = ground arith

pub wire_crc-lt : (e : EncodedEntry) → IsWritable e → wire_crc e < 2 ^ 32
unfolding wire_crc
wire_crc-lt e fits = ground arith

-- A local header before its extra fields are read.
abbrev bare_header : Bool → EncodedEntry → Header
bare_header wide e = record {
  version = vn e;
  flags = gpbf e.encrypted e.gp_bit1;
  method = e.method_on_wire;
  mtime = e.mtime;
  crc32 = wire_crc e;
  comp_size = if wide then u32_max else length e.body;
  uncomp_size = if wide then u32_max else e.uncompressed_size;
  name = e.name;
  aes = none;
}

completed :
    (wide : Bool) (e : EncodedEntry)
    → record (bare_header wide e) {
      comp_size = length e.body;
      uncomp_size = e.uncompressed_size;
      aes = aes_of e.encrypted e.inner_method;
    }
      ≡ local_header e
unfolding local_header vn wire_crc needs_zip64
completed wide e = ground (arith, gpbf_lem e.encrypted e.gp_bit1)

read_lfh_at :
    (wide : Bool) (e : EncodedEntry) (rest : Bytes)
    → IsWritable e
    → needs_zip64 (length e.body) e.uncompressed_size ≡ wide
    → read_lfh (lfh e ++ rest) ≡ some (local_header e, rest)
read_lfh_at wide e rest fits hw =
    let comp = length e.body in
    let uncomp = e.uncompressed_size in
    let extra = encode_extras (fields wide false comp uncomp 0 e.encrypted e.inner_method) in
    let same = lfh_extra-encode wide comp uncomp e.inner_method e.encrypted hw in
    let short : length extra < 256 ^ 2 =
      rw (← same, length-lfh_extra wide comp uncomp e.inner_method e.encrypted hw) (ground arith) in
    let (narrow, narrow') = marked-lt wide comp uncomp hw in
    rw (lfh-fields wide e hw extra same) (
      read_lfh-fields (vn e) (gpbf e.encrypted e.gp_bit1) e.method_on_wire e.mtime.1 e.mtime.0
        (wire_crc e) (if wide then u32_max else comp) (if wide then u32_max else uncomp) e.name
        extra rest (vn-lt e fits) (gpbf-lt e.encrypted e.gp_bit1) fits.method_on_wire fits.time
        fits.date (wire_crc-lt e fits) narrow narrow' fits.name short
      ∙ rw
          (resolve-fields wide false e.encrypted comp uncomp 0 e.inner_method (bare_header wide e)
            fits.body fits.uncompressed_size (omega arith) fits.inner_method hw refl refl refl)
          (ap (λ (h : Header). some (h, rest)) (completed wide e)))

-- The reader takes the local header of a writable entry off the front of its input, completed by the
-- zip64 and AE-2 fields, whatever follows.
pub read_lfh-lfh :
    (e : EncodedEntry) (rest : Bytes)
    → IsWritable e
    → read_lfh (lfh e ++ rest) ≡ some (local_header e, rest)
read_lfh-lfh e rest fits = read_lfh_at _ e rest fits refl
