-- ===== src/Zip/Reader/Fields.antt =====
-- The reader on fields laid out one after the other, as both headers and the end records are.
use tzip.Prelude.{
  ℕ, ◌^◌, ◌<◌, ◌≡◌, none, some, [], ◌∷◌, ◌++◌, arith, length, concat, append_assoc, ◌>>=◌,
}
use tzip.Bytes.{Bytes, le, read_le-le, read_bytes-append}
use tzip.Zip.Entry.{sig_lfh, sig_cdr, sig_eocd, sig_eocd64, sig_eocd64_loc}
use tzip.Zip.Header.{loc, eocd64}
use tzip.Zip.Reader.{resolve, read_lfh, read_cdr, read_eocd, read_loc, read_eocd64}

pub read_lfh-fields :
    (version flags method time date crc comp uncomp : ℕ) (name extra rest : Bytes)
    → version < 256 ^ 2
    → flags < 256 ^ 2
    → method < 256 ^ 2
    → time < 256 ^ 2
    → date < 256 ^ 2
    → crc < 256 ^ 4
    → comp < 256 ^ 4
    → uncomp < 256 ^ 4
    → length name < 256 ^ 2
    → length extra < 256 ^ 2
    → read_lfh (
        concat (
          le 4 sig_lfh
          ∷ le 2 version
          ∷ le 2 flags
          ∷ le 2 method
          ∷ le 2 time
          ∷ le 2 date
          ∷ le 4 crc
          ∷ le 4 comp
          ∷ le 4 uncomp
          ∷ le 2 (length name)
          ∷ le 2 (length extra)
          ∷ name
          ∷ extra
          ∷ [])
        ++ rest)
      ≡ (resolve
            (record {
              version = version;
              flags = flags;
              method = method;
              mtime = (date, time);
              crc32 = crc;
              comp_size = comp;
              uncomp_size = uncomp;
              name = name;
              aes = none;
            })
            0
            extra
          >>= λ (h, _). some (h, rest))
unfolding read_lfh
read_lfh-fields version flags method time date crc comp uncomp name extra rest h1 h2 h3 h4 h5 h6 h7
      h8 h9 h10 =
    simp (
      append_assoc,
      read_bytes-append,
      λ (t : Bytes). read_le-le 4 sig_lfh t (omega arith),
      λ (t : Bytes). read_le-le 2 version t h1,
      λ (t : Bytes). read_le-le 2 flags t h2,
      λ (t : Bytes). read_le-le 2 method t h3,
      λ (t : Bytes). read_le-le 2 time t h4,
      λ (t : Bytes). read_le-le 2 date t h5,
      λ (t : Bytes). read_le-le 4 crc t h6,
      λ (t : Bytes). read_le-le 4 comp t h7,
      λ (t : Bytes). read_le-le 4 uncomp t h8,
      λ (t : Bytes). read_le-le 2 (length name) t h9,
      λ (t : Bytes). read_le-le 2 (length extra) t h10,
    )

pub read_cdr-fields :
    (made_by version flags method time date crc comp uncomp attr offset : ℕ)
    (name extra rest : Bytes)
    → made_by < 256 ^ 2
    → version < 256 ^ 2
    → flags < 256 ^ 2
    → method < 256 ^ 2
    → time < 256 ^ 2
    → date < 256 ^ 2
    → crc < 256 ^ 4
    → comp < 256 ^ 4
    → uncomp < 256 ^ 4
    → length name < 256 ^ 2
    → length extra < 256 ^ 2
    → attr < 256 ^ 4
    → offset < 256 ^ 4
    → read_cdr (
        concat (
          le 4 sig_cdr
          ∷ le 2 made_by
          ∷ le 2 version
          ∷ le 2 flags
          ∷ le 2 method
          ∷ le 2 time
          ∷ le 2 date
          ∷ le 4 crc
          ∷ le 4 comp
          ∷ le 4 uncomp
          ∷ le 2 (length name)
          ∷ le 2 (length extra)
          ∷ le 2 0
          ∷ le 2 0
          ∷ le 2 0
          ∷ le 4 attr
          ∷ le 4 offset
          ∷ name
          ∷ extra
          ∷ [])
        ++ rest)
      ≡ (resolve
            (record {
              version = version;
              flags = flags;
              method = method;
              mtime = (date, time);
              crc32 = crc;
              comp_size = comp;
              uncomp_size = uncomp;
              name = name;
              aes = none;
            })
            offset
            extra
          >>= λ h. some (h, rest))
unfolding read_cdr
read_cdr-fields made_by version flags method time date crc comp uncomp attr offset name extra rest
      h0 h1 h2 h3 h4 h5 h6 h7 h8 h9 h10 h11 h12 =
    simp (
      append_assoc,
      read_bytes-append,
      λ (t : Bytes). read_bytes-append [] t,
      λ (t : Bytes). read_le-le 4 sig_cdr t (omega arith),
      λ (t : Bytes). read_le-le 2 made_by t h0,
      λ (t : Bytes). read_le-le 2 version t h1,
      λ (t : Bytes). read_le-le 2 flags t h2,
      λ (t : Bytes). read_le-le 2 method t h3,
      λ (t : Bytes). read_le-le 2 time t h4,
      λ (t : Bytes). read_le-le 2 date t h5,
      λ (t : Bytes). read_le-le 4 crc t h6,
      λ (t : Bytes). read_le-le 4 comp t h7,
      λ (t : Bytes). read_le-le 4 uncomp t h8,
      λ (t : Bytes). read_le-le 2 (length name) t h9,
      λ (t : Bytes). read_le-le 2 (length extra) t h10,
      λ (t : Bytes). read_le-le 2 0 t (omega arith),
      λ (t : Bytes). read_le-le 4 attr t h11,
      λ (t : Bytes). read_le-le 4 offset t h12,
    )

pub read_eocd-fields :
    (count size offset : ℕ)
    → count < 256 ^ 2
    → size < 256 ^ 4
    → offset < 256 ^ 4
    → read_eocd (
        concat (
          le 4 sig_eocd
          ∷ le 2 0
          ∷ le 2 0
          ∷ le 2 count
          ∷ le 2 count
          ∷ le 4 size
          ∷ le 4 offset
          ∷ le 2 0
          ∷ []))
      ≡ some (record { count = count; size = size; offset = offset })
unfolding read_eocd
read_eocd-fields count size offset h1 h2 h3 = simp (
  λ (t : Bytes). read_le-le 4 sig_eocd t (omega arith),
  λ (t : Bytes). read_le-le 2 0 t (omega arith),
  λ (t : Bytes). read_le-le 2 count t h1,
  λ (t : Bytes). read_le-le 4 size t h2,
  λ (t : Bytes). read_le-le 4 offset t h3,
)

pub read_loc-loc :
    (offset : ℕ) (rest : Bytes) → offset < 256 ^ 8 → read_loc (loc offset ++ rest) ≡ some offset
unfolding read_loc loc
read_loc-loc offset rest h = simp (
  append_assoc,
  λ (t : Bytes). read_le-le 4 sig_eocd64_loc t (omega arith),
  λ (t : Bytes). read_le-le 4 0 t (omega arith),
  λ (t : Bytes). read_le-le 8 offset t h,
)

pub read_eocd64-eocd64 :
    (count size offset : ℕ) (rest : Bytes)
    → count < 256 ^ 8
    → size < 256 ^ 8
    → offset < 256 ^ 8
    → read_eocd64 (eocd64 count offset size ++ rest)
      ≡ some (record { count = count; size = size; offset = offset })
unfolding read_eocd64 eocd64
read_eocd64-eocd64 count size offset rest h1 h2 h3 = simp (
  append_assoc,
  λ (t : Bytes). read_le-le 4 sig_eocd64 t (omega arith),
  λ (t : Bytes). read_le-le 8 44 t (omega arith),
  λ (t : Bytes). read_le-le 2 0x031E t (omega arith),
  λ (t : Bytes). read_le-le 2 45 t (omega arith),
  λ (t : Bytes). read_le-le 4 0 t (omega arith),
  λ (t : Bytes). read_le-le 8 count t h1,
  λ (t : Bytes). read_le-le 8 size t h2,
  λ (t : Bytes). read_le-le 8 offset t h3,
)
