-- ===== src/Zip/Reader/Extras.antt =====
-- The extra fields that the writer emits, as the reader sees them.
use tzip.Prelude.{
  ℕ, zero, suc, ◌+◌, ◌^◌, ◌≤◌, ◌<◌, ◌≡◌, refl, ◌∙◌, Bool, true, false, ◌||◌, Option, none, some,
  List, [], ◌∷◌, ◌++◌, arith, length, length-append, append_assoc, ◌>>=◌, All, if◌then◌else◌,
}
use tzip.Bytes.{
  Bytes, le, read_le, read_bytes, length-le, read_le-le, read_le-le_end, read_bytes-append,
}
use tzip.Zip.Entry.{aes_extra_id}
use tzip.Zip.Header.{u32_max, too_wide, needs_zip64}
use tzip.Zip.Reader.{
  Header, Extra, read_extras, find_extra, payload_or_nil, read_wide, read_aes, read_sizes,
  resolve_with, resolve,
}

abbrev pub IsSmall : Extra → Type 0
IsSmall x = (x.id < 256 ^ 2) × (length x.payload < 256 ^ 2)

abbrev pub encode_extras : List Extra → Bytes
encode_extras [] = []
encode_extras (x ∷ xs) = le 2 x.id ++ (le 2 (length x.payload) ++ (x.payload ++ encode_extras xs))

read_extras_step :
    (fuel : ℕ) (bs : Bytes)
    → 0 < length bs
    → read_extras (suc fuel) bs ≡ (
        read_le 2 bs >>= λ (id, r). read_le 2 r >>= λ (n, r). read_bytes n r >>= λ (payload, r).
        read_extras fuel r >>= λ more. some (record { id = id; payload = payload } ∷ more))
unfolding read_extras
read_extras_step fuel [] h = absurd (omega arith)
read_extras_step fuel (b ∷ bs) h = refl

length-encode_extras :
    (x : Extra) (xs : List Extra)
    → length (encode_extras (x ∷ xs)) ≡ 4 + length x.payload + length (encode_extras xs)
length-encode_extras x xs = simp (length-append, length-le) (omega arith)

pub read_extras-encode :
    (xs : List Extra) (fuel : ℕ)
    → All IsSmall xs
    → length (encode_extras xs) ≤ fuel
    → read_extras fuel (encode_extras xs) ≡ some xs
read_extras-encode [] zero small h = unfold read_extras in refl
read_extras-encode [] (suc fuel) small h = unfold read_extras in refl
read_extras-encode (x ∷ xs) zero small h = absurd (omega (arith, length-encode_extras x xs))
read_extras-encode (x ∷ xs) (suc fuel) ((fits, short), small) h =
    read_extras_step fuel (encode_extras (x ∷ xs)) (omega (arith, length-encode_extras x xs))
    ∙ simp (
      λ (t : Bytes). read_le-le 2 x.id t fits,
      λ (t : Bytes). read_le-le 2 (length x.payload) t short,
      read_bytes-append,
      read_extras-encode xs fuel small (omega (arith, length-encode_extras x xs)),
    )

-- The payload of a zip64 field: both sizes if one of them is wide, then the offset if it is far.
abbrev pub zip64_payload : Bool → Bool → ℕ → ℕ → ℕ → Bytes
zip64_payload wide far comp uncomp offset =
    (if wide then le 8 uncomp ++ le 8 comp else []) ++ (if far then le 8 offset else [])

abbrev pub zip64_field : Bool → Bool → ℕ → ℕ → ℕ → List Extra
zip64_field wide far comp uncomp offset =
    if wide || far
    then record { id = 0x0001; payload = zip64_payload wide far comp uncomp offset } ∷ []
    else []

abbrev pub aes_field : Bool → ℕ → List Extra
aes_field encrypted inner =
    if encrypted
    then record {
      id = aes_extra_id;
      payload = le 2 2 ++ ((b'A' ∷ b'E' ∷ []) ++ ((0x03 ∷ []) ++ le 2 inner));
    }
      ∷ []
    else []

abbrev pub aes_of : Bool → ℕ → Option ℕ
aes_of encrypted inner = if encrypted then some inner else none

read_vendor : (rest : Bytes) → read_le 2 (b'A' ∷ b'E' ∷ rest) ≡ some (0x4541, rest)
unfolding read_le
read_vendor rest = refl

read_strength : (rest : Bytes) → read_le 1 (0x03 ∷ rest) ≡ some (3, rest)
unfolding read_le
read_strength rest = refl

read_aes-field :
    (encrypted : Bool) (inner : ℕ)
    → inner < 256 ^ 2
    → read_aes (find_extra aes_extra_id (aes_field encrypted inner)) ≡ some (aes_of encrypted inner)
unfolding read_aes find_extra
read_aes-field false inner h = refl
read_aes-field true inner h = simp (
  λ (t : Bytes). read_le-le 2 2 t (omega arith),
  read_vendor,
  read_strength,
  read_le-le_end 2 inner h,
)

-- A field is marked exactly if its value does not fit.
read_wide_marked : (zip64 : Bytes) → read_wide u32_max zip64 ≡ read_le 8 zip64
unfolding read_wide
read_wide_marked zip64 = refl

read_wide_plain : (n : ℕ) (zip64 : Bytes) → too_wide n ≡ false → read_wide n zip64 ≡ some (n, zip64)
unfolding read_wide
read_wide_plain n zip64 h = ground arith

module _ (comp uncomp offset : ℕ) (hc : comp < 256 ^ 8) (hu : uncomp < 256 ^ 8)
    (ho : offset < 256 ^ 8) where
  pub read_sizes-zip64 :
      (wide far : Bool)
      → needs_zip64 comp uncomp ≡ wide
      → too_wide offset ≡ far
      → read_sizes
          (if wide then u32_max else comp)
          (if wide then u32_max else uncomp)
          (if far then u32_max else offset)
          (zip64_payload wide far comp uncomp offset)
        ≡ some (comp, uncomp, offset)
  unfolding read_sizes needs_zip64
  read_sizes-zip64 true true hw hf = simp (
    append_assoc,
    read_wide_marked,
    λ (t : Bytes). read_le-le 8 uncomp t hu,
    λ (t : Bytes). read_le-le 8 comp t hc,
    read_le-le_end 8 offset ho,
  )
  read_sizes-zip64 true false hw hf = simp (
    append_assoc,
    read_wide_marked,
    λ (t : Bytes). read_le-le 8 uncomp t hu,
    λ (t : Bytes). read_le-le 8 comp t hc,
    λ (t : Bytes). read_wide_plain offset t hf,
  )
  read_sizes-zip64 false true hw hf = simp (
    read_wide_marked,
    λ (t : Bytes). read_wide_plain uncomp t (ground arith),
    λ (t : Bytes). read_wide_plain comp t (ground arith),
    read_le-le_end 8 offset ho,
  )
  read_sizes-zip64 false false hw hf = simp (
    λ (t : Bytes). read_wide_plain uncomp t (ground arith),
    λ (t : Bytes). read_wide_plain comp t (ground arith),
    λ (t : Bytes). read_wide_plain offset t hf,
  )

-- The extra fields that a header carries.
abbrev pub fields : Bool → Bool → ℕ → ℕ → ℕ → Bool → ℕ → List Extra
fields wide far comp uncomp offset encrypted inner =
    zip64_field wide far comp uncomp offset ++ aes_field encrypted inner

find-zip64 :
    (wide far encrypted : Bool) (comp uncomp offset inner : ℕ)
    → payload_or_nil (find_extra 0x0001 (fields wide far comp uncomp offset encrypted inner))
      ≡ zip64_payload wide far comp uncomp offset
unfolding find_extra payload_or_nil
find-zip64 true far true comp uncomp offset inner = refl
find-zip64 true far false comp uncomp offset inner = refl
find-zip64 false true true comp uncomp offset inner = refl
find-zip64 false true false comp uncomp offset inner = refl
find-zip64 false false true comp uncomp offset inner = refl
find-zip64 false false false comp uncomp offset inner = refl

find-aes :
    (wide far encrypted : Bool) (comp uncomp offset inner : ℕ)
    → find_extra aes_extra_id (fields wide far comp uncomp offset encrypted inner)
      ≡ find_extra aes_extra_id (aes_field encrypted inner)
unfolding find_extra
find-aes true far encrypted comp uncomp offset inner = refl
find-aes false true encrypted comp uncomp offset inner = refl
find-aes false false encrypted comp uncomp offset inner = refl

pub length-zip64_payload :
    (wide far : Bool) (comp uncomp offset : ℕ)
    → length (zip64_payload wide far comp uncomp offset)
      ≡ (if wide then 16 else 0) + (if far then 8 else 0)
length-zip64_payload true true comp uncomp offset = simp (length-append, length-le)
length-zip64_payload true false comp uncomp offset = simp (length-append, length-le)
length-zip64_payload false true comp uncomp offset = simp length-le
length-zip64_payload false false comp uncomp offset = refl

length-aes_payload :
    (inner : ℕ) → length (le 2 2 ++ ((b'A' ∷ b'E' ∷ []) ++ ((0x03 ∷ []) ++ le 2 inner))) ≡ 7
length-aes_payload inner = simp (length-append, length-le)

aes_field-IsSmall : (encrypted : Bool) (inner : ℕ) → All IsSmall (aes_field encrypted inner)
aes_field-IsSmall true inner = ((omega arith, omega (arith, length-aes_payload inner)), tt)
aes_field-IsSmall false inner = tt

fields-IsSmall :
    (wide far encrypted : Bool) (comp uncomp offset inner : ℕ)
    → All IsSmall (fields wide far comp uncomp offset encrypted inner)
fields-IsSmall false false encrypted comp uncomp offset inner = aes_field-IsSmall encrypted inner
fields-IsSmall true far encrypted comp uncomp offset inner = (
  (omega arith, ground (arith, length-zip64_payload true far comp uncomp offset)),
  aes_field-IsSmall encrypted inner,
)
fields-IsSmall false true encrypted comp uncomp offset inner = (
  (omega arith, omega (arith, length-zip64_payload false true comp uncomp offset)),
  aes_field-IsSmall encrypted inner,
)

-- The reader completes a header whose marked fields stand in its extra fields.
pub resolve-fields :
    (wide far encrypted : Bool) (comp uncomp offset inner : ℕ) (h : Header)
    → comp < 256 ^ 8
    → uncomp < 256 ^ 8
    → offset < 256 ^ 8
    → inner < 256 ^ 2
    → needs_zip64 comp uncomp ≡ wide
    → too_wide offset ≡ far
    → h.comp_size ≡ (if wide then u32_max else comp)
    → h.uncomp_size ≡ (if wide then u32_max else uncomp)
    → resolve h
        (if far then u32_max else offset)
        (encode_extras (fields wide far comp uncomp offset encrypted inner))
      ≡ some (
        record h { comp_size = comp; uncomp_size = uncomp; aes = aes_of encrypted inner },
        offset,
      )
unfolding resolve resolve_with
resolve-fields wide far encrypted comp uncomp offset inner h hc hu ho hi hw hf ec eu =
    let xs = fields wide far comp uncomp offset encrypted inner in
    simp (
      read_extras-encode xs (length (encode_extras xs))
          (fields-IsSmall wide far encrypted comp uncomp offset inner) (omega arith),
      find-zip64,
      find-aes,
      ec,
      eu,
      read_sizes-zip64 comp uncomp offset hc hu ho wide far hw hf,
      read_aes-field encrypted inner hi,
    )
