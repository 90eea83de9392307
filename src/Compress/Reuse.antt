-- ===== src/Compress/Reuse.antt =====
-- The scratch of a worker of src/compress.rs over many calls.
use tzip.Prelude.{
  ℕ, ◌≡◌, refl, sym, ap, ◌∙◌, arith, true, Option, none, some, [], Bool-cases, inl, inr,
}
use tzip.Prelude.Int.{ℤ, pos, negsuc}
use tzip.Bytes.{Bytes}
use tzip.Compress.{
  Codecs, Method, store, deflate, bzip2, lzma, xz, zstd, Scratch, new, clamp, get_deflate, compress,
  is_level, replaced, reused,
}

pos-inj : {a b : ℕ} → pos a ≡ pos b → a ≡ b
pos-inj h = cc

module _ (C : Codecs) where
  -- The cached compressor is one of the cached level.
  abbrev pub IsFresh : Scratch C → Type 0
  IsFresh s =
      (c : C.Compressor) (n : ℕ)
      → s.compressor ≡ some c
      → s.deflate_level ≡ pos n
      → C.compressor_new n ≡ some c

  new-IsFresh : IsFresh (new C)
  unfolding new
  new-IsFresh c n h = absurd cc

  is_level-pos : (l : ℤ) (n : ℕ) → is_level C l n ≡ true → l ≡ pos n
  is_level-pos (pos k) n h = let same : k ≡ n = ground arith in ap pos same
  is_level-pos (negsuc k) n h = absurd (ground arith)

  replaced-new : (s : Scratch C) (lvl : ℕ) (o : Option C.Compressor) → (replaced C s lvl o).1 ≡ o
  replaced-new s lvl none = refl
  replaced-new s lvl (some c) = refl

  replaced-IsFresh :
      (s : Scratch C) (lvl : ℕ) (o : Option C.Compressor)
      → C.compressor_new lvl ≡ o
      → IsFresh s
      → IsFresh ((replaced C s lvl o).0)
  replaced-IsFresh s lvl none e h = h
  replaced-IsFresh s lvl (some c) e h = λ d n hd hn. rw (← pos-inj hn) (e ∙ hd)

  -- What `get_deflate` promises of a scratch: the compressor of the level asked for.
  abbrev Serves : ℕ → Scratch C × Option C.Compressor → Type 0
  Serves lvl r = (r.1 ≡ C.compressor_new lvl) × IsFresh r.0

  replaced-Serves :
      (s : Scratch C) (lvl : ℕ) → IsFresh s → Serves lvl (replaced C s lvl (C.compressor_new lvl))
  replaced-Serves s lvl h = (replaced-new s lvl _, replaced-IsFresh s lvl _ refl h)

  reused-Serves :
      (s : Scratch C) (lvl : ℕ) (o : Option C.Compressor)
      → s.compressor ≡ o
      → IsFresh s
      → Serves lvl (reused C s lvl o)
  reused-Serves s lvl none e h = replaced-Serves s lvl h
  reused-Serves s lvl (some c) e h = elim (Bool-cases (is_level C s.deflate_level lvl)) [
    | inl same ↦ rw same (sym (h c lvl e (is_level-pos s.deflate_level lvl same)), h)
    | inr other ↦ rw other (replaced-Serves s lvl h)
  ]

  get_deflate-Serves :
      (s : Scratch C) (level : ℕ) → IsFresh s → Serves (clamp 0 12 level) (get_deflate C s level)
  unfolding get_deflate
  get_deflate-Serves s level h = reused-Serves s (clamp 0 12 level) s.compressor refl h

  -- A call on a scratch that was used before gives what a call on a new scratch gives, and the scratch
  -- can be used again.
  pub compress-reuse :
      (m : Method) (level : ℕ) (input : Bytes) (s : Scratch C)
      → IsFresh s
      → ((compress C m level input s).1 ≡ (compress C m level input (new C)).1)
        × IsFresh ((compress C m level input s).0)
  unfolding compress
  compress-reuse store level input s h = (refl, h)
  compress-reuse deflate level input s h =
      let taken : Scratch C = record {
        out = [];
        compressor = s.compressor;
        deflate_level = s.deflate_level;
      } in
      let (same, fresh) = get_deflate-Serves taken level h in
      let (same', _) =
        get_deflate-Serves
          (record {
            out = [];
            compressor = (new C).compressor;
            deflate_level = (new C).deflate_level;
          })
          level (unfold new in new-IsFresh) in
      (rw (same, same') refl, fresh)
  compress-reuse bzip2 level input s h = (refl, h)
  compress-reuse lzma level input s h = (refl, h)
  compress-reuse zstd level input s h = (refl, h)
  compress-reuse xz level input s h = (refl, h)
