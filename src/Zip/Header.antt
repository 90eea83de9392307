-- ===== src/Zip/Header.antt =====
-- The byte strings that `write_entry` and `finish` of src/zipwriter.rs assemble: the local file
-- header, the central directory record, and the end records. Each list of pieces is the sequence of
-- writes into the buffer of that name.
use Prim.Native.Nat.{bit_or}
use tzip.Prelude.{ℕ, ◌+◌, ◌*◌, max, min, Bool, ◌||◌, [], ◌∷◌, leb, if◌then◌else◌, length, concat}
use tzip.Bytes.{Bytes, le}
use tzip.Zip.Entry.{
  EncodedEntry, CentralEntry, sig_lfh, sig_cdr, sig_eocd, sig_eocd64, sig_eocd64_loc, aes_extra_id,
}

abbrev pub u16_max : ℕ
u16_max = 0xFFFF

abbrev pub u32_max : ℕ
u32_max = 0xFFFF_FFFF

-- A size or an offset that the 32-bit field cannot hold, the marker value included.
abbrev pub too_wide : ℕ → Bool
too_wide n = leb u32_max n

unfoldable pub needs_zip64 : ℕ → ℕ → Bool
needs_zip64 comp_size uncomp_size = too_wide comp_size || too_wide uncomp_size

unfoldable pub gpbf : Bool → Bool → ℕ
gpbf encrypted gp_bit1 =
    let utf8 : ℕ = 0x800 in
    let crypt = if encrypted then bit_or utf8 1 else utf8 in
    if gp_bit1 then bit_or crypt 2 else crypt

-- The AE-2 extra field: the vendor id "AE", and 0x03 for 256 bits.
unfoldable pub aes_extra : Bool → ℕ → Bytes
aes_extra encrypted inner_method =
    if encrypted
    then concat (
        le 2 aes_extra_id
        ∷ le 2 7
        ∷ le 2 2
        ∷ (b'A' ∷ b'E' ∷ [])
        ∷ (0x03 ∷ [])
        ∷ le 2 inner_method
        ∷ [])
    else []

-- The `version needed` of the local header, kept for the central directory.
unfoldable pub vn : EncodedEntry → ℕ
vn e =
    if needs_zip64 (length e.body) e.uncompressed_size
    then max e.version_needed 45
    else max e.version_needed 20

unfoldable pub wire_crc : EncodedEntry → ℕ
wire_crc e = if e.encrypted then 0 else e.crc32

-- The zip64 extra field of a local header.
unfoldable pub lfh_zip64 : ℕ → ℕ → Bytes
lfh_zip64 comp_size uncomp_size =
    if needs_zip64 comp_size uncomp_size
    then concat (le 2 0x0001 ∷ le 2 16 ∷ le 8 uncomp_size ∷ le 8 comp_size ∷ [])
    else []

unfoldable pub lfh : EncodedEntry → Bytes
lfh e =
    let comp_size = length e.body in
    let uncomp_size = e.uncompressed_size in
    let wide = needs_zip64 comp_size uncomp_size in
    let extra_len = (if wide then 20 else 0) + (if e.encrypted then 11 else 0) in
    concat (
      le 4 sig_lfh
      ∷ le 2 (vn e)
      ∷ le 2 (gpbf e.encrypted e.gp_bit1)
      ∷ le 2 e.method_on_wire
      ∷ le 2 e.mtime.1
      ∷ le 2 e.mtime.0
      ∷ le 4 (wire_crc e)
      ∷ le 4 (if wide then u32_max else comp_size)
      ∷ le 4 (if wide then u32_max else uncomp_size)
      ∷ le 2 (length e.name)
      ∷ le 2 extra_len
      ∷ e.name
      ∷ lfh_zip64 comp_size uncomp_size
      ∷ aes_extra e.encrypted e.inner_method
      ∷ [])

-- The zip64 extra field of a central record holds the sizes, the offset, or both.
unfoldable pub cdr_zip64 : CentralEntry → Bytes
cdr_zip64 e =
    let wide = needs_zip64 e.comp_size e.uncomp_size in
    let far = too_wide e.lfh_offset in
    let payload_len = (if wide then 1 else 0) * 16 + (if far then 1 else 0) * 8 in
    if wide || far
    then concat (
        le 2 0x0001
        ∷ le 2 payload_len
        ∷ (if wide then concat (le 8 e.uncomp_size ∷ le 8 e.comp_size ∷ []) else [])
        ∷ (if far then le 8 e.lfh_offset else [])
        ∷ [])
    else []

unfoldable pub cdr : CentralEntry → Bytes
cdr e =
    let wide = needs_zip64 e.comp_size e.uncomp_size in
    let z64 = cdr_zip64 e in
    concat (
      le 4 sig_cdr
      ∷ le 2 0x031E
      ∷ le 2 (max e.version_needed 45)
      ∷ le 2 (gpbf e.encrypted e.gp_bit1)
      ∷ le 2 e.method_on_wire
      ∷ le 2 e.mtime.1
      ∷ le 2 e.mtime.0
      ∷ le 4 e.crc32
      ∷ le 4 (if wide then u32_max else e.comp_size)
      ∷ le 4 (if wide then u32_max else e.uncomp_size)
      ∷ le 2 (length e.name)
      ∷ le 2 (length z64 + (if e.encrypted then 11 else 0))
      ∷ le 2 0
      ∷ le 2 0
      ∷ le 2 0
      ∷ le 4 (0o100644 * 65536)
      ∷ le 4 (if too_wide e.lfh_offset then u32_max else e.lfh_offset)
      ∷ e.name
      ∷ z64
      ∷ aes_extra e.encrypted e.inner_method
      ∷ [])

unfoldable pub needs_zip64_eocd : ℕ → ℕ → ℕ → Bool
needs_zip64_eocd entry_count cd_offset cd_size =
    leb u16_max entry_count || leb u32_max cd_offset || leb u32_max cd_size

unfoldable pub eocd64 : ℕ → ℕ → ℕ → Bytes
eocd64 entry_count cd_offset cd_size = concat (
    le 4 sig_eocd64
    ∷ le 8 44
    ∷ le 2 0x031E
    ∷ le 2 45
    ∷ le 4 0
    ∷ le 4 0
    ∷ le 8 entry_count
    ∷ le 8 entry_count
    ∷ le 8 cd_size
    ∷ le 8 cd_offset
    ∷ [])

unfoldable pub loc : ℕ → Bytes
loc eocd64_offset = concat (le 4 sig_eocd64_loc ∷ le 4 0 ∷ le 8 eocd64_offset ∷ le 4 1 ∷ [])

unfoldable pub eocd : ℕ → ℕ → ℕ → Bytes
eocd entry_count cd_offset cd_size = concat (
    le 4 sig_eocd
    ∷ le 2 0
    ∷ le 2 0
    ∷ le 2 (min entry_count u16_max)
    ∷ le 2 (min entry_count u16_max)
    ∷ le 4 (min cd_size u32_max)
    ∷ le 4 (min cd_offset u32_max)
    ∷ le 2 0
    ∷ [])
