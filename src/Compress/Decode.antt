-- ===== src/Compress/Decode.antt =====
-- Decompressing: what an unarchiver does with a body, by the method's number.
use tzip.Prelude.{
  some-inj, ℕ, zero, suc, ◌+◌, ◌*◌, ◌≤◌, ◌<◌, ◌-◌, leb, ◌≡◌, ◌≢◌, refl, sym, ap, ◌∙◌, arith, Bool,
  true, false, ◌==◌, ltb, Option, none, some, if◌then◌else◌, List, [], ◌∷◌, ◌++◌, length, take,
  drop, ◌>>=◌, concat, length-take, >>=-eq-some, append-nil, take-append_length, drop-append_length,
}
use tzip.Bytes.{Bytes}
use tzip.Prelude.Chunks.{chunks, concat-chunks}
use tzip.Compress.{
  Codecs, Method, store, deflate, bzip2, lzma, xz, zstd, CompressOut, Scratch, clamp, compress,
  method_id, relayout, chunk_size, Flush, Status, bound_of, chunk_loop, deflate_chunk,
  deflate_parts, compress_parallel_deflate, lzma_for_zip, plain_out,
}

-- The decoders of the formats, and what the encoders promise of them.
pub record Decoders (C : Codecs) : Type 0 where
  pub inflate : Bytes → Option Bytes
  pub bunzip2 : Bytes → Option Bytes
  -- properties and data
  pub unlzma : Bytes → Bytes → Option Bytes
  pub unxz : Bytes → Option Bytes
  pub unzstd : Bytes → Option Bytes
  pub deflate_compress-inflate :
      (c : C.Compressor) (x y : Bytes) → C.deflate_compress c x ≡ some y → inflate y ≡ some x
  -- The first call that leaves room in the output has taken the whole input. After a sync flush what
  -- it wrote goes in front of any stream; after `finish` it is a stream.
  pub deflater_compress-sync :
      (l : ℕ) (x : Bytes) (room n : ℕ) (z : C.Deflater) (y : Bytes) (status : Status)
      → C.deflater_compress (C.deflater_new l) x room Flush.sync ≡ some (z, n, y, status)
      → length y < room
      → (n ≡ length x)
        × (status ≡ Status.ok)
        × ((w r : Bytes) → inflate w ≡ some r → inflate (y ++ w) ≡ some (x ++ r))
  pub deflater_compress-finish :
      (l : ℕ) (x : Bytes) (room n : ℕ) (z : C.Deflater) (y : Bytes) (status : Status)
      → C.deflater_compress (C.deflater_new l) x room Flush.finish ≡ some (z, n, y, status)
      → length y < room
      → (status ≡ Status.stream_end) × (inflate y ≡ some x)
  pub bzip2_encode-bunzip2 :
      (l : ℕ) (x y : Bytes) → C.bzip2_encode l x ≡ some y → bunzip2 y ≡ some x
  -- An LZMA_ALONE stream has 5 bytes of properties and 8 of size.
  pub lzma_alone-unlzma :
      (l : ℕ) (x y : Bytes)
      → C.lzma_alone l x ≡ some y
      → (13 ≤ length y) × (unlzma (take 5 y) (drop 13 y) ≡ some x)
  pub xz_encode-unxz : (l : ℕ) (x y : Bytes) → C.xz_encode l x ≡ some y → unxz y ≡ some x
  pub zstd_encode-unzstd : (l : ℕ) (x y : Bytes) → C.zstd_encode l x ≡ some y → unzstd y ≡ some x

-- With the room that the source makes for a chunk, the first call succeeds and leaves some of it: the
-- stream of a chunk of `n` bytes is shorter than `n + n / 100 + 128` bytes.
abbrev pub IsTight : Codecs → Type 0
IsTight C =
    (l : ℕ) (flush : Flush) (x : Bytes) (room : ℕ)
    → bound_of C x ≤ room
    → (z : C.Deflater) × (n : ℕ) × (y : Bytes) × (status : Status) × (C.deflater_compress
          (C.deflater_new l) x room flush
        ≡ some (z, n, y, status))
      × (length y < room)

module _ {C : Codecs} (D : Decoders C) where
  -- Method 14: two bytes of version, the length of the properties, the properties, the data.
  unfoldable pub unlzma_zip : Bytes → Option Bytes
  unlzma_zip (major ∷ minor ∷ lo ∷ hi ∷ body) =
      D.unlzma (take (lo + 256 * hi) body) (drop (lo + 256 * hi) body)
  unlzma_zip _ = none

  unfoldable pub decompress : ℕ → Bytes → Option Bytes
  decompress id body =
      if id == 0
      then some body
      else if id == 8
      then D.inflate body
      else if id == 12
      then D.bunzip2 body
      else if id == 14
      then unlzma_zip body
      else if id == 93
      then D.unzstd body
      else if id == 95
      then D.unxz body
      else none

  unlzma_zip-pieces :
      (p d x : Bytes)
      → length p ≡ 5
      → D.unlzma p d ≡ some x
      → unlzma_zip (0x13 ∷ 0x00 ∷ 0x05 ∷ 0x00 ∷ (p ++ d)) ≡ some x
  unfolding unlzma_zip
  unlzma_zip-pieces p d x h e =
      let props : take 5 (p ++ d) ≡ p = rw (← h) (take-append_length p d) in
      let rest : drop 5 (p ++ d) ≡ d = rw (← h) (drop-append_length p d) in
      let opened : D.unlzma (take 5 (p ++ d)) (drop 5 (p ++ d)) ≡ some x = rw (props, rest) e in
      opened

  relayout-unlzma_zip :
      (y x z : Bytes)
      → 13 ≤ length y
      → D.unlzma (take 5 y) (drop 13 y) ≡ some x
      → relayout y ≡ some z
      → unlzma_zip z ≡ some x
  unfolding relayout
  relayout-unlzma_zip y x z h e r =
      let long : ltb (length y) 13 ≡ false = ground arith in
      let made : some (0x13 ∷ 0x00 ∷ 0x05 ∷ 0x00 ∷ (take 5 y ++ drop 13 y)) ≡ some z =
        rw long at r in
      rw (← some-inj made)
        (unlzma_zip-pieces (take 5 y) (drop 13 y) x (omega (arith, length-take 5 y)) e)

  plain_out-bytes :
      (b : Bool) (o : Option Bytes) (out : CompressOut)
      → plain_out C b o ≡ some out
      → o ≡ some out.bytes
  plain_out-bytes b none out h = absurd cc
  plain_out-bytes b (some d) out h = ap some (ap (λ (t : CompressOut). t.bytes) (some-inj h))

  deflated :
      (x y : Bytes) (o : Option C.Compressor)
      → (do c ← o; C.deflate_compress c x) ≡ some y
      → D.inflate y ≡ some x
  deflated x y none h = absurd cc
  deflated x y (some c) h = D.deflate_compress-inflate c x y h

  -- Every method is decoded by the decoder of its number.
  pub compress-decompress :
      (m : Method) (level : ℕ) (input : Bytes) (s : Scratch C) (out : CompressOut)
      → (compress C m level input s).1 ≡ some out
      → decompress (method_id m) out.bytes ≡ some input
  unfolding compress decompress method_id lzma_for_zip
  compress-decompress store level input s out h =
      ap some (sym (ap (λ (t : CompressOut). t.bytes) (some-inj h)))
  compress-decompress deflate level input s out h =
      deflated input out.bytes _ (plain_out-bytes _ _ out h)
  compress-decompress bzip2 level input s out h =
      D.bzip2_encode-bunzip2 _ input out.bytes (plain_out-bytes _ _ out h)
  compress-decompress lzma level input s out h =
      let (alone, made, laid) = >>=-eq-some _ _ (plain_out-bytes _ _ out h) in
      let (long, back) = D.lzma_alone-unlzma _ input alone made in
      relayout-unlzma_zip alone input out.bytes long back laid
  compress-decompress xz level input s out h =
      D.xz_encode-unxz _ input out.bytes (plain_out-bytes _ _ out h)
  compress-decompress zstd level input s out h =
      D.zstd_encode-unzstd _ input out.bytes (plain_out-bytes _ _ out h)

  chunks-nonempty : (fuel size b : ℕ) (x : Bytes) → 1 ≤ fuel → chunks fuel size (b ∷ x) ≢ []
  unfolding chunks
  chunks-nonempty zero size b x h = absurd (omega arith)
  chunks-nonempty (suc fuel) size b x h = λ e. absurd cc

  module _ (tight : IsTight C) where
    -- The loop over a chunk that is not the last, in one round.
    deflate_chunk-sync :
        (l : ℕ) (x : Bytes)
        → (y : Bytes) × (deflate_chunk C l false x ≡ some y)
          × ((w r : Bytes) → D.inflate w ≡ some r → D.inflate (y ++ w) ≡ some (x ++ r))
    unfolding deflate_chunk chunk_loop
    deflate_chunk-sync l x =
        let room : ℕ = C.with_capacity (bound_of C x) - 0 in
        let wide = C.with_capacity_le (bound_of C x) in
        let (z, n, y, status, called, less) = tight l Flush.sync x room (omega arith) in
        let (whole, fine, front) = D.deflater_compress-sync l x room n z y status called less in
        let taken : leb (length x) (0 + n) ≡ true = ground arith in
        (y, rw (called, fine, taken) refl, front)

    deflate_chunk-last :
        (l : ℕ) (x : Bytes)
        → (y : Bytes) × (deflate_chunk C l true x ≡ some y) × (D.inflate y ≡ some x)
    unfolding deflate_chunk chunk_loop
    deflate_chunk-last l x =
        let room : ℕ = C.with_capacity (bound_of C x) - 0 in
        let wide = C.with_capacity_le (bound_of C x) in
        let (z, n, y, status, called, less) = tight l Flush.finish x room (omega arith) in
        let (ended, back) = D.deflater_compress-finish l x room n z y status called less in
        (y, rw (called, ended) refl, back)

    deflate_parts-inflate :
        (l : ℕ) (c : Bytes) (cs : List Bytes)
        → (parts : List Bytes) × (deflate_parts C l (c ∷ cs) ≡ some parts)
          × (D.inflate (concat parts) ≡ some (concat (c ∷ cs)))
    unfolding deflate_parts
    deflate_parts-inflate l c [] =
        let (p, made, back) = deflate_chunk-last l c in
        (p ∷ [], rw made refl, rw (append-nil p, append-nil c) back)
    deflate_parts-inflate l c (d ∷ cs) =
        let (p, made, front) = deflate_chunk-sync l c in
        let (ps, others, back) = deflate_parts-inflate l d cs in
        (p ∷ ps, rw (made, others) refl, front (concat ps) (concat (d ∷ cs)) back)

    pub compress_parallel_deflate-inflate :
        (input : Bytes) (level : ℕ)
        → input ≢ []
        → (out : CompressOut) × (compress_parallel_deflate C input level ≡ some out)
          × (D.inflate out.bytes ≡ some input)
    unfolding compress_parallel_deflate chunks
    compress_parallel_deflate-inflate [] level some_input = absurd (some_input refl)
    compress_parallel_deflate-inflate (b ∷ x) level _ =
        let input = b ∷ x in
        let (parts, made, back) =
          deflate_parts-inflate (clamp 0 9 level) (take chunk_size input)
            (chunks (length x) chunk_size (drop chunk_size input)) in
        (
          record { bytes = concat parts; gp_bit1 = false },
          rw made refl,
          back
              ∙ ap some (concat-chunks (length input) chunk_size input (omega arith) (omega arith)),
        )
