-- ===== src/Zip/Reader.antt =====
-- A reader of the ZIP format after PKWARE's APPNOTE.TXT (4.3 and 4.5.3) and WinZip's AE-2 note, which
-- src/zipwriter.rs cites. It is the specification that the writer is compared with: it starts from
-- the end record, follows the zip64 locator where a field holds its marker value, reads the
-- directory, and goes to each member by the offset that the directory names.
pub mod Fields
pub mod Extras
pub mod Headers
pub mod Central
use tzip.Prelude.{
  ℕ, zero, suc, ◌+◌, ◌-◌, Bool, ◌&&◌, ◌||◌, Option, none, some, List, [], ◌∷◌, length, drop, ◌==◌,
  if◌then◌else◌, ◌>>=◌, ◌>>◌, guard,
}
use tzip.Bytes.{Bytes, Reader, read_le, read_bytes}
use tzip.Zip.Entry.{sig_lfh, sig_cdr, sig_eocd, sig_eocd64, sig_eocd64_loc, aes_extra_id}
use tzip.Zip.Header.{u16_max, u32_max}

-- What a header says of a member; `aes` is the compression method inside an AE-2 member.
pub record Header : Type 0 where
  pub version : ℕ
  pub flags : ℕ
  pub method : ℕ
  pub mtime : ℕ × ℕ
  pub crc32 : ℕ
  pub comp_size : ℕ
  pub uncomp_size : ℕ
  pub name : Bytes
  pub aes : Option ℕ

pub record Extra : Type 0 where
  pub id : ℕ
  pub payload : Bytes

unfoldable pub read_extras : ℕ → Bytes → Option (List Extra)
read_extras fuel [] = some []
read_extras zero (b ∷ bs) = none
read_extras (suc fuel) (b ∷ bs) = do
  (id, r) ← read_le 2 (b ∷ bs)
  (n, r) ← read_le 2 r
  (payload, r) ← read_bytes n r
  more ← read_extras fuel r
  some (record { id = id; payload = payload } ∷ more)

-- The payload of the first extra field with an id.
unfoldable pub find_extra : ℕ → List Extra → Option Bytes
find_extra id [] = none
find_extra id (x ∷ xs) = if x.id == id then some x.payload else find_extra id xs

unfoldable pub payload_or_nil : Option Bytes → Bytes
payload_or_nil none = []
payload_or_nil (some bs) = bs

-- A 32-bit field, or the next eight bytes of the zip64 field if it holds the marker.
unfoldable pub read_wide : ℕ → Reader ℕ
read_wide field zip64 = if field == u32_max then read_le 8 zip64 else some (field, zip64)

-- The AE-2 field: version 2, vendor "AE", strength 3, and the method inside.
unfoldable pub read_aes : Option Bytes → Option (Option ℕ)
read_aes none = some none
read_aes (some bs) = do
  (version, r) ← read_le 2 bs
  (vendor, r) ← read_le 2 r
  (strength, r) ← read_le 1 r
  (method, r) ← read_le 2 r
  guard (version == 2 && vendor == 0x4541 && strength == 3)
  some (some method)

-- The compressed size, the uncompressed size and the offset: what a marked field leaves open stands
-- in the zip64 field, in APPNOTE's order.
unfoldable pub read_sizes : ℕ → ℕ → ℕ → Bytes → Option (ℕ × ℕ × ℕ)
read_sizes comp uncomp offset zip64 = do
  (uncomp_size, z) ← read_wide uncomp zip64
  (comp_size, z) ← read_wide comp z
  (offset', z) ← read_wide offset z
  some (comp_size, uncomp_size, offset')

unfoldable pub resolve_with : Header → ℕ → List Extra → Option (Header × ℕ)
resolve_with h offset extras = do
  (comp_size, uncomp_size, offset') ←
      read_sizes h.comp_size h.uncomp_size offset (payload_or_nil (find_extra 0x0001 extras))
  aes ← read_aes (find_extra aes_extra_id extras)
  some (record h { uncomp_size = uncomp_size; comp_size = comp_size; aes = aes }, offset')

-- A local header has no offset: it passes 0.
unfoldable pub resolve : Header → ℕ → Bytes → Option (Header × ℕ)
resolve h offset extra = do extras ← read_extras (length extra) extra; resolve_with h offset extras

unfoldable pub read_lfh : Reader Header
read_lfh bs = do
  (sig, r) ← read_le 4 bs
  guard (sig == sig_lfh)
  (version, r) ← read_le 2 r
  (flags, r) ← read_le 2 r
  (method, r) ← read_le 2 r
  (time, r) ← read_le 2 r
  (date, r) ← read_le 2 r
  (crc, r) ← read_le 4 r
  (comp, r) ← read_le 4 r
  (uncomp, r) ← read_le 4 r
  (name_len, r) ← read_le 2 r
  (extra_len, r) ← read_le 2 r
  (name, r) ← read_bytes name_len r
  (extra, r) ← read_bytes extra_len r
  (h, _) ←
      resolve
        (record {
          version = version;
          flags = flags;
          method = method;
          mtime = (date, time);
          crc32 = crc;
          comp_size = comp;
          uncomp_size = uncomp;
          name = name;
          aes = none;
        })
        0 extra
  some (h, r)

unfoldable pub read_cdr : Reader (Header × ℕ)
read_cdr bs = do
  (sig, r) ← read_le 4 bs
  guard (sig == sig_cdr)
  (_, r) ← read_le 2 r
  (version, r) ← read_le 2 r
  (flags, r) ← read_le 2 r
  (method, r) ← read_le 2 r
  (time, r) ← read_le 2 r
  (date, r) ← read_le 2 r
  (crc, r) ← read_le 4 r
  (comp, r) ← read_le 4 r
  (uncomp, r) ← read_le 4 r
  (name_len, r) ← read_le 2 r
  (extra_len, r) ← read_le 2 r
  (comment_len, r) ← read_le 2 r
  (_, r) ← read_le 2 r
  (_, r) ← read_le 2 r
  (_, r) ← read_le 4 r
  (offset, r) ← read_le 4 r
  (name, r) ← read_bytes name_len r
  (extra, r) ← read_bytes extra_len r
  (_, r) ← read_bytes comment_len r
  h ←
      resolve
        (record {
          version = version;
          flags = flags;
          method = method;
          mtime = (date, time);
          crc32 = crc;
          comp_size = comp;
          uncomp_size = uncomp;
          name = name;
          aes = none;
        })
        offset extra
  some (h, r)

-- Where the directory is.
pub record Directory : Type 0 where
  pub count : ℕ
  pub size : ℕ
  pub offset : ℕ

unfoldable pub read_eocd : Bytes → Option Directory
read_eocd bs = do
  (sig, r) ← read_le 4 bs
  guard (sig == sig_eocd)
  (_, r) ← read_le 2 r
  (_, r) ← read_le 2 r
  (_, r) ← read_le 2 r
  (count, r) ← read_le 2 r
  (size, r) ← read_le 4 r
  (offset, r) ← read_le 4 r
  (comment_len, r) ← read_le 2 r
  guard (comment_len == 0)
  some (record { count = count; size = size; offset = offset })

unfoldable pub read_loc : Bytes → Option ℕ
read_loc bs = do
  (sig, r) ← read_le 4 bs
  guard (sig == sig_eocd64_loc)
  (_, r) ← read_le 4 r
  (offset, r) ← read_le 8 r
  some offset

unfoldable pub read_eocd64 : Bytes → Option Directory
read_eocd64 bs = do
  (sig, r) ← read_le 4 bs
  guard (sig == sig_eocd64)
  (_, r) ← read_le 8 r
  (_, r) ← read_le 2 r
  (_, r) ← read_le 2 r
  (_, r) ← read_le 4 r
  (_, r) ← read_le 4 r
  (_, r) ← read_le 8 r
  (count, r) ← read_le 8 r
  (size, r) ← read_le 8 r
  (offset, r) ← read_le 8 r
  some (record { count = count; size = size; offset = offset })

unfoldable pub is_marked : Directory → Bool
is_marked d = d.count == u16_max || d.size == u32_max || d.offset == u32_max

-- Where a field holds its marker, the zip64 end record is found through its locator, the 20 bytes
-- before the end record.
unfoldable pub follow_zip64 : Bytes → Directory → Option Directory
follow_zip64 bs d =
    if is_marked d
    then (do at ← read_loc (drop (length bs - 42) bs); read_eocd64 (drop at bs))
    else some d

-- The end record is the last 22 bytes: the archive has no comment.
unfoldable pub find_directory : Bytes → Option Directory
find_directory bs = do d ← read_eocd (drop (length bs - 22) bs); follow_zip64 bs d

unfoldable pub read_cdrs : ℕ → Reader (List (Header × ℕ))
read_cdrs zero bs = some ([], bs)
read_cdrs (suc n) bs = do (h, r) ← read_cdr bs; (hs, r) ← read_cdrs n r; some (h ∷ hs, r)

-- A member: its directory header, its local header, and its body.
pub record Member : Type 0 where
  pub central : Header
  pub local : Header
  pub body : Bytes

unfoldable pub read_member : Bytes → Header × ℕ → Option Member
read_member bs (central, offset) = do
  (local, r) ← read_lfh (drop offset bs)
  (body, _) ← read_bytes central.comp_size r
  some (record { central = central; local = local; body = body })

unfoldable pub read_members : Bytes → List (Header × ℕ) → Option (List Member)
read_members bs [] = some []
read_members bs (h ∷ hs) = do m ← read_member bs h; ms ← read_members bs hs; some (m ∷ ms)

unfoldable pub read_archive : Bytes → Option (List Member)
read_archive bs = do
  d ← find_directory bs
  (hs, _) ← read_cdrs d.count (drop d.offset bs)
  read_members bs hs
