-- ===== src/Zip/Layout/Written.antt =====
-- The writer of src/zipwriter.rs produces the archive: what its state holds after any number of
-- entries, and what `finish` adds.
use tzip.Prelude.{
  ℕ, ◌+◌, ◌<◌, ◌≡◌, refl, ◌∙◌, ap, some, List, [], ◌∷◌, ◌++◌, arith, length, length-append,
  append_assoc, append-nil, ◌>>=◌, >>=-eq-some, Bool-cases, inl, inr,
}
use tzip.Bytes.{Bytes}
use tzip.Zip.Entry.{EncodedEntry, CentralEntry}
use tzip.Zip.Header.{lfh, cdr, eocd64, loc, eocd, needs_zip64_eocd}
use tzip.Zip.Writer.{
  Sink, ZipWriter, central_entry, u64_mod, add64, sub64, new, write_entry, write_entries,
  write_cdrs, write_eocd64, write_end, finish,
}
use tzip.Zip.Layout.{locals, centrals, directory, end_records, archive, length-centrals}

module _ (S : Sink) where
  open S use {W, contents, write_all, flush, contents-write_all, contents-flush}

  record Written (zw zw' : ZipWriter S) (es : List EncodedEntry) : Type 0 where
    bytes : contents zw'.inner ≡ contents zw.inner ++ locals es
    listed : zw'.entries ≡ zw.entries ++ centrals zw.pos es
    moved : zw'.pos ≡ zw.pos + length (locals es)

  two_writes :
      (w : W) (xs ys : Bytes) (w' : W)
      → (write_all w xs >>= λ v. write_all v ys) ≡ some w'
      → contents w' ≡ contents w ++ (xs ++ ys)
  two_writes w xs ys w' h =
      let (v, hv, hw) = >>=-eq-some (write_all w xs) (λ v. write_all v ys) h in
      contents-write_all v ys w' hw
      ∙ ap (λ (t : Bytes). t ++ ys) (contents-write_all w xs v hv)
      ∙ append_assoc _ xs ys

  write_entry-bytes :
      (zw : ZipWriter S) (e : EncodedEntry) (zw' : ZipWriter S)
      → write_entry S zw e ≡ some zw'
      → (contents zw'.inner ≡ contents zw.inner ++ (lfh e ++ e.body))
        × (zw'.entries ≡ zw.entries ++ (central_entry e zw.pos ∷ []))
        × (zw'.pos ≡ add64 zw.pos (length (lfh e) + length e.body))
  unfolding write_entry
  write_entry-bytes zw e zw' h =
      let (v, hv, hr) = >>=-eq-some (write_all zw.inner (lfh e)) _ h in
      let (w, hw, hs) = >>=-eq-some (write_all v e.body) _ hr in
      let bytes = two_writes zw.inner (lfh e) e.body w (rw hv hw) in
      (ground (arith, bytes), ground arith, ground arith)

  fits_after :
      (pos pos' : ℕ) (e : EncodedEntry) (es : List EncodedEntry)
      → pos + length (locals (e ∷ es)) < u64_mod
      → pos' ≡ add64 pos (length (lfh e) + length e.body)
      → (pos' ≡ pos + length (lfh e ++ e.body)) × (pos' + length (locals es) < u64_mod)
  fits_after pos pos' e es fits moved =
      omega
        (arith, moved, length-append (lfh e) e.body, length-append (lfh e ++ e.body) (locals es))

  write_entries-Written :
      (zw : ZipWriter S) (es : List EncodedEntry) (zw' : ZipWriter S)
      → write_entries S zw es ≡ some zw'
      → zw.pos + length (locals es) < u64_mod
      → Written zw zw' es
  unfolding write_entries
  write_entries-Written zw [] zw' h fits = record {
    bytes = ground (arith, append-nil (contents zw.inner));
    listed = ground (arith, append-nil zw.entries);
    moved = ground arith;
  }
  write_entries-Written zw (e ∷ es) zw' h fits =
      let (v, hv, hr) = >>=-eq-some (write_entry S zw e) _ h in
      let (bytes, listed, moved) = write_entry-bytes zw e v hv in
      let (at, fits') = fits_after zw.pos v.pos e es fits moved in
      let rest = write_entries-Written v es zw' hr fits' in
      record {
        bytes = rest.bytes ∙ rw bytes (append_assoc _ (lfh e ++ e.body) (locals es));
        listed =
            rest.listed ∙ rw (listed, at) (append_assoc zw.entries (central_entry e zw.pos ∷ []) _);
        moved = rest.moved ∙ omega (arith, at, length-append (lfh e ++ e.body) (locals es));
      }

  write_cdrs-bytes :
      (w : W) (pos : ℕ) (cs : List CentralEntry) (w' : W) (pos' : ℕ)
      → write_cdrs S w pos cs ≡ some (w', pos')
      → pos + length (directory cs) < u64_mod
      → (contents w' ≡ contents w ++ directory cs) × (pos' ≡ pos + length (directory cs))
  unfolding write_cdrs
  write_cdrs-bytes w pos [] w' pos' h fits = (ground (arith, append-nil (contents w)), ground arith)
  write_cdrs-bytes w pos (c ∷ cs) w' pos' h fits =
      let (v, hv, hr) = >>=-eq-some (write_all w (cdr c)) _ h in
      let sizes = length-append (cdr c) (directory cs) in
      let (bytes, moved) =
        write_cdrs-bytes v (add64 pos (length (cdr c))) cs w' pos' hr (omega (arith, sizes)) in
      (
        bytes ∙ rw (contents-write_all w (cdr c) v hv) (append_assoc _ (cdr c) (directory cs)),
        omega (arith, moved, sizes),
      )

  write_eocd64-bytes :
      (w : W) (pos n offset size : ℕ) (w' : W)
      → write_eocd64 S w pos n offset size ≡ some w'
      → pos ≡ offset + size
      → contents w' ++ eocd n offset size ≡ contents w ++ end_records n offset size
  unfolding write_eocd64 end_records
  write_eocd64-bytes w pos n offset size w' h at =
      elim (Bool-cases (needs_zip64_eocd n offset size)) [
        | inl wide ↦
            rw (wide, ← at)
              (rw (two_writes w (eocd64 n offset size) (loc pos) w' (rw wide at h))
                (append_assoc (contents w) (eocd64 n offset size ++ loc pos) (eocd n offset size)))
        | inr narrow ↦ ground (arith, narrow)
      ]

  write_end-bytes :
      (w : W) (pos offset n size : ℕ) (w' : W)
      → write_end S w pos offset n ≡ some w'
      → pos ≡ offset + size
      → pos < u64_mod
      → contents w' ≡ contents w ++ end_records n offset size
  unfolding write_end
  write_end-bytes w pos offset n size w' h at fits =
      let same : sub64 pos offset ≡ size = omega arith in
      let (u, hu, hs) = >>=-eq-some (write_eocd64 S w pos n offset size) _ (rw same at h) in
      let (t, ht, hf) = >>=-eq-some (write_all u (eocd n offset size)) flush hs in
      contents-flush t w' hf
      ∙ contents-write_all u (eocd n offset size) t ht
      ∙ write_eocd64-bytes w pos n offset size u hu at

  -- What `finish` leaves in the output: what was there, the directory, and the end records.
  finish-bytes :
      (zw : ZipWriter S) (w' : W)
      → finish S zw ≡ some w'
      → zw.pos + length (directory zw.entries) < u64_mod
      → contents w'
        ≡ contents zw.inner
          ++ (directory zw.entries
              ++ end_records (length zw.entries) zw.pos (length (directory zw.entries)))
  unfolding finish
  finish-bytes zw w' h fits =
      let ((v, pos), hv, hr) = >>=-eq-some (write_cdrs S zw.inner zw.pos zw.entries) _ h in
      let (bytes, moved) = write_cdrs-bytes zw.inner zw.pos zw.entries v pos hv fits in
      write_end-bytes v pos zw.pos _ _ w' hr moved (omega arith)
      ∙ rw bytes (append_assoc (contents zw.inner) (directory zw.entries) _)

  archive_of_Written :
      (w : W) (es : List EncodedEntry) (zw : ZipWriter S) (w' : W)
      → contents w ≡ []
      → length (archive es) < u64_mod
      → Written (new S w) zw es
      → finish S zw ≡ some w'
      → contents w' ≡ archive es
  unfolding new archive
  archive_of_Written w es zw w' empty fits h hf =
      let cd = directory (centrals 0 es) in
      let at : zw.pos ≡ length (locals es) = omega (arith, h.moved) in
      let room : zw.pos + length (directory zw.entries) < u64_mod =
        rw (h.listed, at) (omega (arith, length-append (locals es) _, length-append cd _)) in
      finish-bytes zw w' hf room ∙ rw (h.listed, h.bytes, at, empty, length-centrals 0 es) refl

  -- If every call of the output succeeds up to the end of `finish`, on an output that was empty, and the
  -- archive of the entries is shorter than 2^64 bytes, then the output is that archive, with the entries
  -- in the order in which they were written.
  pub write_archive-bytes :
      (w : W) (es : List EncodedEntry) (w' : W)
      → contents w ≡ []
      → length (archive es) < u64_mod
      → (write_entries S (new S w) es >>= finish S) ≡ some w'
      → contents w' ≡ archive es
  unfolding new archive
  write_archive-bytes w es w' empty fits h =
      let (zw, hz, hf) = >>=-eq-some (write_entries S (new S w) es) (finish S) h in
      let room : 0 + length (locals es) < u64_mod = omega (arith, length-append (locals es) _) in
      archive_of_Written w es zw w' empty fits (write_entries-Written (new S w) es zw hz room) hf

  -- No call of the output fails.
  pub record IsReliable : Type 0 where
    pub writes : (w : W) (bs : Bytes) → (w' : W) × (write_all w bs ≡ some w')
    pub flushes : (w : W) → (w' : W) × (flush w ≡ some w')

  module _ (reliable : IsReliable) where
    write_entry_total :
        (zw : ZipWriter S) (e : EncodedEntry)
        → (zw' : ZipWriter S) × (write_entry S zw e ≡ some zw')
    unfolding write_entry
    write_entry_total zw e =
        let (u, hu) = reliable.writes zw.inner (lfh e) in
        let (v, hv) = reliable.writes u e.body in rw (hu, hv) (_, refl)

    write_entries_total :
        (zw : ZipWriter S) (es : List EncodedEntry)
        → (zw' : ZipWriter S) × (write_entries S zw es ≡ some zw')
    unfolding write_entries
    write_entries_total zw [] = (zw, refl)
    write_entries_total zw (e ∷ es) =
        let (v, hv) = write_entry_total zw e in rw hv (write_entries_total v es)

    write_cdrs_total :
        (w : W) (pos : ℕ) (cs : List CentralEntry) → (r : W × ℕ) × (write_cdrs S w pos cs ≡ some r)
    unfolding write_cdrs
    write_cdrs_total w pos [] = ((w, pos), refl)
    write_cdrs_total w pos (c ∷ cs) =
        let (u, hu) = reliable.writes w (cdr c) in
        rw hu (write_cdrs_total u (add64 pos (length (cdr c))) cs)

    write_eocd64_total :
        (w : W) (pos n offset size : ℕ) → (w' : W) × (write_eocd64 S w pos n offset size ≡ some w')
    unfolding write_eocd64
    write_eocd64_total w pos n offset size = elim (Bool-cases (needs_zip64_eocd n offset size)) [
      | inl wide ↦
          let (u, hu) = reliable.writes w (eocd64 n offset size) in
          rw (wide, hu) (reliable.writes u (loc pos))
      | inr narrow ↦ rw narrow (w, refl)
    ]

    finish_total : (zw : ZipWriter S) → (w' : W) × (finish S zw ≡ some w')
    unfolding finish write_end
    finish_total zw =
        let ((w, pos), hw) = write_cdrs_total zw.inner zw.pos zw.entries in
        let (u, hu) = write_eocd64_total w pos (length zw.entries) zw.pos (sub64 pos zw.pos) in
        let (v, hv) = reliable.writes u (eocd (length zw.entries) zw.pos (sub64 pos zw.pos)) in
        rw (hw, hu, hv) (reliable.flushes v)

  -- On an output whose calls never fail, and that is empty at the start, writing entries whose archive is
  -- shorter than 2^64 bytes and finishing succeeds, and the output holds the archive of the entries.
  pub write_archive_total :
      (w : W) (es : List EncodedEntry)
      → IsReliable
      → contents w ≡ []
      → length (archive es) < u64_mod
      → (w' : W) × ((write_entries S (new S w) es >>= finish S) ≡ some w')
        × (contents w' ≡ archive es)
  write_archive_total w es reliable empty fits =
      let (zw, hz) = write_entries_total reliable (new S w) es in
      let (w', hw) = finish_total reliable zw in
      (w', rw hz hw, write_archive-bytes w es w' empty fits (rw hz hw))
