-- ===== src/Zip/RoundTrip.antt =====
-- Reading back what src/zipwriter.rs wrote: the reader of the format, on the archive of any entries
-- that fit the format, finds every member with its header fields, its name and its body.
use tzip.Prelude.{
  ℕ, ◌+◌, ◌-◌, ◌^◌, ◌≤◌, ◌<◌, min, ◌≡◌, refl, ◌∙◌, true, false, some, List, [], ◌∷◌, ◌++◌, map,
  arith, length, drop, All, length-append, append_assoc, drop-append_length, Bool-cases, inl, inr,
}
use tzip.Bytes.{Bytes, le, length-le, read_bytes-append}
use tzip.Zip.Entry.{EncodedEntry, CentralEntry, sig_cdr}
use tzip.Zip.Header.{u16_max, u32_max, lfh, cdr, eocd64, loc, eocd, needs_zip64_eocd}
use tzip.Zip.Writer.{central_entry}
use tzip.Zip.Layout.{locals, centrals, directory, end_records, archive}
use tzip.Zip.Reader.{
  Header, Directory, Member, is_marked, follow_zip64, find_directory, read_cdrs, read_member,
  read_members, read_archive, read_eocd,
}
use tzip.Zip.Reader.Fields.{read_eocd-fields, read_loc-loc, read_eocd64-eocd64}
use tzip.Zip.Reader.Headers.{IsWritable, local_header, read_lfh-lfh}
use tzip.Zip.Reader.Central.{central_header, read_cdr-cdr}

-- Leaving the last `k` bytes.
drop-append_last :
    (front back : Bytes) (k : ℕ)
    → length back ≡ k
    → drop (length (front ++ back) - k) (front ++ back) ≡ back
drop-append_last front back k h =
    let cut : length (front ++ back) - k ≡ length front = omega (arith, length-append front back) in
    rw cut (drop-append_length front back)

drop-append_at : (front back : Bytes) (k : ℕ) → length front ≡ k → drop k (front ++ back) ≡ back
drop-append_at front back k h = rw (← h) (drop-append_length front back)

length-eocd : (n offset size : ℕ) → length (eocd n offset size) ≡ 22
unfolding eocd
length-eocd n offset size = simp (length-append, length-le)

length-loc : (offset : ℕ) → length (loc offset) ≡ 20
unfolding loc
length-loc offset = simp (length-append, length-le)

read_eocd-eocd :
    (n offset size : ℕ)
    → read_eocd (eocd n offset size)
      ≡ some
          (record { count = min n u16_max; size = min size u32_max; offset = min offset u32_max })
unfolding eocd
read_eocd-eocd n offset size =
    read_eocd-fields (min n u16_max) (min size u32_max) (min offset u32_max) (omega arith)
      (omega arith) (omega arith)

-- The end record is marked exactly if the writer added the zip64 records.
is_marked-eocd :
    (n offset size : ℕ)
    → is_marked
        (record { count = min n u16_max; size = min size u32_max; offset = min offset u32_max })
      ≡ needs_zip64_eocd n offset size
unfolding is_marked needs_zip64_eocd
is_marked-eocd n offset size = ground arith

plain_fields :
    (n offset size : ℕ)
    → needs_zip64_eocd n offset size ≡ false
    → (min n u16_max ≡ n) × (min size u32_max ≡ size) × (min offset u32_max ≡ offset)
unfolding needs_zip64_eocd
plain_fields n offset size h = (ground arith, ground arith, ground arith)

module _ (front : Bytes) (n offset size : ℕ) (at : length front ≡ offset + size) (hn : n < 2 ^ 64)
    (hf : offset + size < 2 ^ 64) where
  abbrev found : Directory
  found = record { count = n; size = size; offset = offset }

  find_directory-plain :
      needs_zip64_eocd n offset size ≡ false
      → find_directory (front ++ ([] ++ eocd n offset size)) ≡ some found
  unfolding find_directory follow_zip64
  find_directory-plain h =
      let (e1, e2, e3) = plain_fields n offset size h in
      rw (drop-append_last front (eocd n offset size) 22 (length-eocd n offset size))
        (rw (read_eocd-eocd, is_marked-eocd, h, e1, e2, e3) refl)

  find_directory-zip64 :
      (bs : Bytes)
      → needs_zip64_eocd n offset size ≡ true
      → drop (length bs - 22) bs ≡ eocd n offset size
      → drop (length bs - 42) bs ≡ loc (offset + size) ++ eocd n offset size
      → drop (offset + size) bs
        ≡ eocd64 n offset size ++ (loc (offset + size) ++ eocd n offset size)
      → find_directory bs ≡ some found
  unfolding find_directory follow_zip64
  find_directory-zip64 bs h e22 e42 e64 =
      rw (e22, read_eocd-eocd, is_marked-eocd, h, e42)
        (rw (read_loc-loc (offset + size) (eocd n offset size) hf, e64)
          (read_eocd64-eocd64 n size offset _ hn (omega arith) (omega arith)))

  -- The reader finds the directory behind any `front` of the right length.
  find_directory-end_records : find_directory (front ++ end_records n offset size) ≡ some found
  unfolding end_records
  find_directory-end_records = elim (Bool-cases (needs_zip64_eocd n offset size)) [
    | inl wide ↦ rw wide (
        let E = eocd64 n offset size in
        let L = loc (offset + size) in
        let O = eocd n offset size in
        find_directory-zip64 _ wide
          (rw (← append_assoc front (E ++ L) O)
            (drop-append_last (front ++ (E ++ L)) O 22 (length-eocd n offset size)))
          (rw (append_assoc E L O, ← append_assoc front E (L ++ O))
            (drop-append_last (front ++ E) (L ++ O) 42 (
              omega
                (arith, length-append L O, length-loc (offset + size), length-eocd n offset size))))
          (rw (append_assoc E L O) (drop-append_at front (E ++ (L ++ O)) (offset + size) at)))
    | inr narrow ↦ rw narrow (find_directory-plain narrow)
  ]

-- The directory entries as the reader should see them, and the members.
abbrev pub headers : ℕ → List EncodedEntry → List (Header × ℕ)
headers pos [] = []
headers pos (e ∷ es) = (central_header e, pos) ∷ headers (pos + length (lfh e ++ e.body)) es

unfoldable pub member : EncodedEntry → Member
member e = record { central = central_header e; local = local_header e; body = e.body }

read_cdrs-directory :
    (pos : ℕ) (es : List EncodedEntry) (rest : Bytes)
    → All IsWritable es
    → pos + length (locals es) < 2 ^ 64
    → read_cdrs (length es) (directory (centrals pos es) ++ rest) ≡ some (headers pos es, rest)
unfolding read_cdrs
read_cdrs-directory pos [] rest fits room = refl
read_cdrs-directory pos (e ∷ es) rest (fit, fits) room =
    let next = pos + length (lfh e ++ e.body) in
    let more = directory (centrals next es) ++ rest in
    let sizes = length-append (lfh e ++ e.body) (locals es) in
    rw (append_assoc (cdr (central_entry e pos)) (directory (centrals next es)) rest) (
      rw (read_cdr-cdr e pos more fit (omega (arith, sizes)))
        (rw (read_cdrs-directory next es rest fits (omega (arith, sizes))) refl))

read_member-local :
    (bs pre : Bytes) (e : EncodedEntry) (post : Bytes)
    → bs ≡ pre ++ (lfh e ++ (e.body ++ post))
    → IsWritable e
    → read_member bs (central_header e, length pre) ≡ some (member e)
unfolding read_member member central_header
read_member-local bs pre e post same fit =
    rw (same, drop-append_length pre (lfh e ++ (e.body ++ post)))
      (rw (read_lfh-lfh e (e.body ++ post) fit) (rw (read_bytes-append e.body post) refl))

read_members-locals :
    (bs pre : Bytes) (at : ℕ) (es : List EncodedEntry) (post : Bytes)
    → at ≡ length pre
    → bs ≡ pre ++ (locals es ++ post)
    → All IsWritable es
    → read_members bs (headers at es) ≡ some (map member es)
unfolding read_members
read_members-locals bs pre at [] post here same fits = refl
read_members-locals bs pre at (e ∷ es) post here same (fit, fits) =
    let item = lfh e ++ e.body in
    let regroup : bs ≡ pre ++ (lfh e ++ (e.body ++ (locals es ++ post))) =
      same ∙ simp append_assoc in
    let onward : bs ≡ (pre ++ item) ++ (locals es ++ post) = regroup ∙ simp append_assoc in
    let more =
      read_members-locals bs (pre ++ item) (at + length item) es post
        (omega (arith, here, length-append pre item)) onward fits in
    let first : read_member bs (central_header e, at) ≡ some (member e) =
      rw here (read_member-local bs pre e (locals es ++ post) regroup fit) in
    rw (first, more) refl

length-directory :
    (pos : ℕ) (es : List EncodedEntry) → length es ≤ length (directory (centrals pos es))
length-directory pos [] = omega arith
length-directory pos (e ∷ es) =
    let c = central_entry e pos in
    let next = pos + length (lfh e ++ e.body) in
    omega (
      arith,
      length-cdr c,
      length-append (cdr c) (directory (centrals next es)),
      length-directory next es,
    )
  where
    length-cdr : (c : CentralEntry) → 4 ≤ length (cdr c)
    length-cdr c = unfold cdr in omega (arith, length-append (le 4 sig_cdr) _, length-le 4 sig_cdr)

-- An archive of entries whose fields fit the format, and whose length fits 64 bits, is read back: the
-- reader finds the members in the order of the entries, each with its directory header, its local
-- header and its body, also where sizes, offsets or the number of entries need zip64.
pub read_archive-archive :
    (es : List EncodedEntry)
    → All IsWritable es
    → length (archive es) < 2 ^ 64
    → read_archive (archive es) ≡ some (map member es)
unfolding read_archive archive
read_archive-archive es fits room =
    let n = length es in
    let offset = length (locals es) in
    let cd = directory (centrals 0 es) in
    let end = end_records n offset (length cd) in
    let sizes = length-append (locals es) (cd ++ end) in
    let sizes' = length-append cd end in
    let found : find_directory (locals es ++ (cd ++ end))
        ≡ some (record { count = n; size = length cd; offset = offset }) =
      rw (← append_assoc (locals es) cd end) (
        find_directory-end_records (locals es ++ cd) n offset (length cd)
          (length-append (locals es) cd) (omega (arith, sizes, sizes', length-directory 0 es))
          (omega (arith, sizes, sizes'))) in
    rw found (
      rw (drop-append_length (locals es) (cd ++ end)) (
        rw (read_cdrs-directory 0 es end fits (omega (arith, sizes)))
          (read_members-locals (archive es) [] 0 es (cd ++ end) refl refl fits)))
