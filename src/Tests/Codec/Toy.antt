-- ===== src/Tests/Codec/Toy.antt =====
-- Codecs that store, and a cipher that flips the lowest bit.
use tzip.Prelude.{
  ℕ, Bool, true, false, some-inj, ◌<◌, ◌∙◌, leb, take, take-all, length-take, suc, ◌+◌, ◌-◌, ◌%◌,
  ◌≡◌, ◌≤◌, refl, sym, ap, arith, ◌==◌, some, [], ◌∷◌, ◌++◌, map, if◌then◌else◌, length, replicate,
  length-replicate, drop, drop-append_length, length-append,
}
use tzip.Bytes.{Bytes}
use tzip.Crypto.{Primitives}
use tzip.Compress.{Codecs, Flush, Status}
use tzip.Compress.Decode.{Decoders, IsTight}

abbrev zeros : Bytes
zeros = replicate 13 0

-- The end of the input, with `finish`.
abbrev status_of : Flush → Bool → Status
status_of Flush.sync whole = Status.ok
status_of Flush.finish true = Status.stream_end
status_of Flush.finish false = Status.ok

abbrev pub stored : Codecs
stored = record {
  Compressor = ℕ;
  compressor_new = λ n. some n;
  deflate_compress = λ c x. some x;
  Deflater = ℕ;
  deflater_new = λ l. l;
  deflater_compress = λ z x room flush.
      some (z, length (take room x), take room x, status_of flush (leb (length x) room));
  with_capacity = λ n. n;
  reserve = λ capacity len more. len + more;
  with_capacity_le = λ n. omega arith;
  bzip2_encode = λ l x. some x;
  lzma_alone = λ l x. some (zeros ++ x);
  xz_encode = λ l x. some x;
  zstd_encode = λ l x. some x;
}

pub same : {x y : Bytes} → some x ≡ some y → some y ≡ some x
same h = sym h

pub sync : {x y z r : Bytes} → some x ≡ some y → some z ≡ some r → some (y ++ z) ≡ some (x ++ r)
sync h k = ap some (λ i. some-inj (sym h) i ++ some-inj k i)

pub after_header :
    (x y : Bytes) → some (zeros ++ x) ≡ some y → (13 ≤ length y) × (some (drop 13 y) ≡ some x)
after_header x y h =
    rw (← some-inj h) (omega (arith, length-append zeros x), ap some (drop-append_length zeros x))

abbrev Call : Type 0
Call = ℕ × ℕ × Bytes × Status

whole_taken : (x : Bytes) (room : ℕ) → length (take room x) < room → take room x ≡ x
whole_taken x room less = take-all room x (omega (arith, length-take room x))

pub stored_sync :
    (l : ℕ) (x : Bytes) (room n : ℕ) (z : ℕ) (y : Bytes) (status : Status)
    → stored.deflater_compress (stored.deflater_new l) x room Flush.sync ≡ some (z, n, y, status)
    → length y < room
    → (n ≡ length x)
      × (status ≡ Status.ok)
      × ((w r : Bytes) → some w ≡ some r → some (y ++ w) ≡ some (x ++ r))
stored_sync l x room n z y status h less =
    let e : ◌≡◌ {A = Call} (l, length (take room x), take room x, Status.ok) (z, n, y, status) =
      some-inj h in
    let bytes : take room x ≡ y = ap (λ (c : Call). c.2) e in
    let all : take room x ≡ x = whole_taken x room (rw bytes less) in
    (
      sym (ap (λ (c : Call). c.1) e) ∙ ap length all,
      sym (ap (λ (c : Call). c.3) e),
      λ w r k. sync (ap some (sym all ∙ bytes)) k,
    )

pub stored_finish :
    (l : ℕ) (x : Bytes) (room n : ℕ) (z : ℕ) (y : Bytes) (status : Status)
    → stored.deflater_compress (stored.deflater_new l) x room Flush.finish ≡ some (z, n, y, status)
    → length y < room
    → (status ≡ Status.stream_end) × (some y ≡ some x)
stored_finish l x room n z y status h less =
    let e : ◌≡◌ {A = Call}
        (l, length (take room x), take room x, status_of Flush.finish (leb (length x) room))
        (z, n, y, status) =
      some-inj h in
    let bytes : take room x ≡ y = ap (λ (c : Call). c.2) e in
    let all : take room x ≡ x = whole_taken x room (rw bytes less) in
    let fits : leb (length x) room ≡ true = ground (arith, length-take room x) in
    (sym (ap (λ (c : Call). c.3) e) ∙ ap (status_of Flush.finish) fits, ap some (sym bytes ∙ all))

pub stored_tight : IsTight stored
stored_tight l flush x room wide = (
  l,
  length (take room x),
  take room x,
  status_of flush (leb (length x) room),
  refl,
  omega (arith, length-take room x),
)

abbrev pub stored_decoders : Decoders stored
stored_decoders = record {
  inflate = λ y. some y;
  bunzip2 = λ y. some y;
  unlzma = λ p d. some d;
  unxz = λ y. some y;
  unzstd = λ y. some y;
  deflate_compress-inflate = λ c x y h. same h;
  deflater_compress-sync = stored_sync;
  deflater_compress-finish = stored_finish;
  bzip2_encode-bunzip2 = λ l x y h. same h;
  lzma_alone-unlzma = λ l x y h. after_header x y h;
  xz_encode-unxz = λ l x y h. same h;
  zstd_encode-unzstd = λ l x y h. same h;
}

abbrev flip : ℕ → ℕ
flip b = if b % 2 == 0 then b + 1 else b - 1

flip-flip : (b : ℕ) → flip (flip b) ≡ b
flip-flip b = ground arith

pub flip_all-twice : (x : Bytes) → map flip (map flip x) ≡ x
flip_all-twice [] = refl
flip_all-twice (b ∷ x) = λ i. flip-flip b i ∷ flip_all-twice x i

pub length-flip_all : (x : Bytes) → length (map flip x) ≡ length x
length-flip_all [] = refl
length-flip_all (b ∷ x) = ap suc (length-flip_all x)

abbrev pub flipping : Primitives
flipping = record {
  pbkdf2_hmac = λ pw salt rounds n. replicate n 7;
  apply_keystream = λ key iv x. map flip x;
  hmac = λ key x. replicate 20 (length x);
  length-pbkdf2_hmac = λ pw salt rounds n. length-replicate n 7;
  length-apply_keystream = λ key iv x. length-flip_all x;
  apply_keystream-twice = λ key iv x. flip_all-twice x;
  length-hmac = λ key x. length-replicate 20 (length x);
}
