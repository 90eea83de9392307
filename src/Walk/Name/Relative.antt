-- ===== src/Walk/Name/Relative.antt =====
-- Names of src/walker.rs and the root of the file system.
use tzip.Prelude.{
  ℕ, ◌==◌, ◌≡◌, ◌≢◌, arith, Bool, true, false, Bool-cases, inl, inr, Option, [], ◌∷◌, map,
}
use tzip.Bytes.{Bytes}
use tzip.Walk.Name.{
  slash, trim_start, trim_end, add_unless_slash, or_empty, archive_prefix_for_root, forward,
  archive_name, joined,
}

-- No leading slash.
abbrev pub IsRelative : Bytes → Type 0
IsRelative [] = Unit
IsRelative (c ∷ s) = c ≢ slash

trim_start-IsRelative : (s : Bytes) → IsRelative (trim_start s)
unfolding trim_start
trim_start-IsRelative [] = tt
trim_start-IsRelative (c ∷ s) = elim (Bool-cases (c == slash)) [
  | inl is ↦ rw is (trim_start-IsRelative s)
  | inr other ↦ rw other (ground arith)
]

add_unless_slash-IsRelative : (c : ℕ) (s : Bytes) → c ≢ slash → IsRelative (add_unless_slash c s)
add_unless_slash-IsRelative c [] h = let other : (c == slash) ≡ false = ground arith in rw other h
add_unless_slash-IsRelative c (d ∷ s) h = h

trim_end-IsRelative : (s : Bytes) → IsRelative s → IsRelative (trim_end s)
unfolding trim_end
trim_end-IsRelative [] h = tt
trim_end-IsRelative (c ∷ s) h = add_unless_slash-IsRelative c (trim_end s) h

prefix-IsRelative :
    (file_name : Bytes → Option Bytes) (root : Bytes) (basename_only : Bool)
    → IsRelative (or_empty (file_name root))
    → IsRelative (archive_prefix_for_root file_name root basename_only)
unfolding archive_prefix_for_root
prefix-IsRelative file_name root true h = h
prefix-IsRelative file_name root false h =
    trim_end-IsRelative (trim_start root) (trim_start-IsRelative root)

joined-IsRelative : (base rel : Bytes) → IsRelative base → IsRelative (joined base rel)
joined-IsRelative [] rel h = trim_start-IsRelative rel
joined-IsRelative (b ∷ base) [] h = h
joined-IsRelative (b ∷ base) (c ∷ rel) h = h

-- The name of a file below a root has no leading slash, whatever the root and the path below it, where
-- the last component of a path has none.
pub archive_name-IsRelative :
    (file_name : Bytes → Option Bytes) (root rel : Bytes) (basename_only : Bool)
    → IsRelative (or_empty (file_name root))
    → IsRelative (archive_name (archive_prefix_for_root file_name root basename_only) rel)
unfolding archive_name
archive_name-IsRelative file_name root rel basename_only h =
    joined-IsRelative (archive_prefix_for_root file_name root basename_only) (map forward rel)
      (prefix-IsRelative file_name root basename_only h)
