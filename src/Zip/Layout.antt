-- ===== src/Zip/Layout.antt =====
-- The bytes of a whole archive as one expression: what src/zipwriter.rs should leave in its output.
pub mod Written
use tzip.Prelude.{ℕ, suc, ◌+◌, ◌≡◌, refl, ap, List, [], ◌∷◌, ◌++◌, if◌then◌else◌, length}
use tzip.Bytes.{Bytes}
use tzip.Zip.Entry.{EncodedEntry, CentralEntry}
use tzip.Zip.Header.{lfh, cdr, eocd64, loc, eocd, needs_zip64_eocd}
use tzip.Zip.Writer.{central_entry}

-- The local headers with their bodies.
abbrev pub locals : List EncodedEntry → Bytes
locals [] = []
locals (e ∷ es) = (lfh e ++ e.body) ++ locals es

-- The directory entries when the first local header stands at `pos`.
abbrev pub centrals : ℕ → List EncodedEntry → List CentralEntry
centrals pos [] = []
centrals pos (e ∷ es) = central_entry e pos ∷ centrals (pos + length (lfh e ++ e.body)) es

abbrev pub directory : List CentralEntry → Bytes
directory [] = []
directory (c ∷ cs) = cdr c ++ directory cs

-- The end records of a directory of `n` entries, `size` bytes at `offset`.
unfoldable pub end_records : ℕ → ℕ → ℕ → Bytes
end_records n offset size =
    (if needs_zip64_eocd n offset size then eocd64 n offset size ++ loc (offset + size) else [])
    ++ eocd n offset size

unfoldable pub archive : List EncodedEntry → Bytes
archive es =
    let offset = length (locals es) in
    let cd = directory (centrals 0 es) in
    locals es ++ (cd ++ end_records (length es) offset (length cd))

pub length-centrals : (pos : ℕ) (es : List EncodedEntry) → length (centrals pos es) ≡ length es
length-centrals pos [] = refl
length-centrals pos (e ∷ es) = ap suc (length-centrals (pos + length (lfh e ++ e.body)) es)
