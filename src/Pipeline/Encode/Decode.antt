-- ===== src/Pipeline/Encode/Decode.antt =====
-- `encode_one` of src/pipeline.rs against what an unarchiver does with an entry.
use tzip.Prelude.{
  ℕ, ◌+◌, ◌-◌, ◌≡◌, ◌≢◌, refl, sym, ap, ◌∙◌, some-inj, arith, ◌==◌, Bool, true, false, Option, none,
  some, [], ◌++◌, if◌then◌else◌, length, take, drop, replicate, ◌>>=◌, take-all, length-append,
  length-replicate, length-take, length-drop, take-append_length, inl, inr, Bool-cases,
}
use tzip.Bytes.{Bytes, copy_from_slice, slice}
use tzip.Zip.Entry.{EncodedEntry}
use tzip.Crypto.{Primitives, encrypt_ae2_in_place}
use tzip.Crypto.Envelope.{envelope, encrypt_with_salt-envelope}
use tzip.Crypto.Open.{open_ae2, open_ae2-envelope}
use tzip.Compress.{Codecs, Method, deflate, CompressOut, Scratch, method_id}
use tzip.Compress.Decode.{
  Decoders, IsTight, decompress, compress-decompress, compress_parallel_deflate-inflate,
}
use tzip.Channel.{RawItem}
use tzip.Pipeline.Encode.{lock, protect, compressed_with, entry_from, entry_of, encode_one}

module _ {C : Codecs} (D : Decoders C) (P : Primitives) where
  -- An unarchiver opens the body, if it is encrypted, and decompresses it.
  unfoldable pub decode : Bytes → EncodedEntry → Option Bytes
  decode pw e = do
    compressed ← (if e.encrypted then open_ae2 P pw e.body else some e.body)
    decompress D e.inner_method compressed

  abbrev pub password_of : Option Bytes → Bytes
  password_of none = []
  password_of (some pw) = pw

  module _ (crc : Bytes → ℕ) (salt : Bytes) (hs : length salt ≡ 16) where
    encrypt_ae2-envelope :
        (pw pre plain tail : Bytes)
        → length pw ≢ 0
        → length pre ≡ 18
        → length tail ≡ 10
        → encrypt_ae2_in_place P salt pw (pre ++ (plain ++ tail)) (length plain)
          ≡ some (envelope P pw salt plain)
    unfolding encrypt_ae2_in_place
    encrypt_ae2-envelope pw pre plain tail hpw hp ht =
        let given : (length pw == 0) ≡ false = ground arith in
        let whole : (length (pre ++ (plain ++ tail)) == 18 + length plain + 10) ≡ true =
          ground (arith, length-append pre (plain ++ tail), length-append plain tail) in
        rw (given, whole) (encrypt_with_salt-envelope P pw salt pre plain tail hs hp ht)

    lock-envelope :
        (pw x : Bytes) → length pw ≢ 0 → lock C P crc salt pw x ≡ some (envelope P pw salt x)
    unfolding lock copy_from_slice slice
    lock-envelope pw x hpw =
        let n = length x in
        let zeros : Bytes = replicate 28 0 in
        let pad : n + 28 - n ≡ 28 = omega arith in
        let same : take (n + 28) x ≡ x = take-all (n + 28) x (omega arith) in
        let front : n - 0 ≡ n = omega arith in
        rw (pad, same, front, take-append_length x zeros)
          (encrypt_ae2-envelope pw (take 18 (x ++ zeros)) x (drop (18 + n) (x ++ zeros)) hpw
            (omega (
              arith,
              length-take 18 (x ++ zeros),
              length-append x zeros,
              length-replicate {A = ℕ} 28 0,
            ))
            (omega (
              arith,
              length-drop (18 + n) (x ++ zeros),
              length-append x zeros,
              length-replicate {A = ℕ} 28 0,
            )))

    -- What `protect` made can be opened with the same password.
    Opens : Option Bytes → Method → Bytes → Bytes × Bool × ℕ → Type 0
    Opens password m x r =
        (if r.1 then open_ae2 P (password_of password) r.0 else some r.0) ≡ some x

    protect-Opens :
        (password : Option Bytes) (m : Method) (x : Bytes)
        → (r : Bytes × Bool × ℕ) × (protect C P crc salt password m x ≡ some r)
          × Opens password m x r
    unfolding protect Opens
    protect-Opens none m x = (_, refl, refl)
    protect-Opens (some pw) m x = elim (Bool-cases (length pw == 0)) [
      | inl empty ↦ ((x, false, method_id m), rw empty refl, refl)
      | inr given ↦ (
        (envelope P pw salt x, true, 99),
        rw (given, lock-envelope pw x (ground arith)) refl,
        open_ae2-envelope P pw salt x hs,
      )
    ]

    entry_of-decode :
        (raw : RawItem) (m : Method) (password : Option Bytes) (out : CompressOut)
        → decompress D (method_id m) out.bytes ≡ some raw.bytes
        → (e : EncodedEntry) × (entry_of C P crc salt raw m password out ≡ some e)
          × (decode (password_of password) e ≡ some raw.bytes)
    unfolding entry_of entry_from decode Opens
    entry_of-decode raw m password out h =
        let (r, made, opens) = protect-Opens password m out.bytes in
        (entry_from C P crc salt raw m out r, rw made refl, rw opens h)

    -- What the parallel stream is asked for with: DEFLATE, some bytes, and a codec whose streams have
    -- room in the buffers that the source makes.
    abbrev pub SuitsParallel : Method → Bytes → Type 0
    SuitsParallel m bytes = (m ≡ deflate) × (bytes ≢ []) × IsTight C

    compressed_with-decompress :
        (raw : RawItem) (m : Method) (level : ℕ) (s : Scratch C) (parallel : Bool)
        (out : CompressOut)
        → (parallel ≡ true → SuitsParallel m raw.bytes)
        → (compressed_with C P crc salt raw m level s parallel).1 ≡ some out
        → decompress D (method_id m) out.bytes ≡ some raw.bytes
    unfolding compressed_with
    compressed_with-decompress raw m level s true out h made =
        let (is_deflate, some_bytes, tight) = h refl in
        let (out', made', back) =
          compress_parallel_deflate-inflate D tight raw.bytes level some_bytes in
        let same : out' ≡ out = some-inj (sym made' ∙ made) in
        let back' : D.inflate out.bytes ≡ some raw.bytes =
          ap (λ (t : CompressOut). D.inflate t.bytes) (sym same) ∙ back in
        unfold decompress method_id in rw is_deflate back'
    compressed_with-decompress raw m level s false out h made =
        compress-decompress D m level raw.bytes s out made

    -- Whenever the codec succeeds, `encode_one` gives an entry, and decoding the entry with the password
    -- gives the bytes of the item; with the parallel stream where the method is DEFLATE, the item is not
    -- empty and the stream of a chunk has room in the buffer that is made for it.
    pub encode_one-decode :
        (raw : RawItem) (m : Method) (level : ℕ) (password : Option Bytes) (s : Scratch C)
        (parallel : Bool) (out : CompressOut)
        → (parallel ≡ true → SuitsParallel m raw.bytes)
        → (compressed_with C P crc salt raw m level s parallel).1 ≡ some out
        → (e : EncodedEntry) × ((encode_one C P crc salt raw m level password s parallel).1
            ≡ some e)
          × (decode (password_of password) e ≡ some raw.bytes)
    unfolding encode_one
    encode_one-decode raw m level password s parallel out h made = rw made (
        entry_of-decode raw m password out
          (compressed_with-decompress raw m level s parallel out h made))
