-- ===== src/Walk/Name.antt =====
-- `archive_prefix_for_root` and `archive_name` of src/walker.rs, on UTF-8 bytes.
pub mod Relative
use tzip.Prelude.{
  ℕ, ◌==◌, Bool, true, false, Option, none, some, List, [], ◌∷◌, ◌++◌, if◌then◌else◌, map,
}
use tzip.Bytes.{Bytes}

abbrev pub slash : ℕ
slash = 47

abbrev pub backslash : ℕ
backslash = 92

-- `trim_start_matches('/')`
unfoldable pub trim_start : Bytes → Bytes
trim_start [] = []
trim_start (c ∷ s) = let rest = trim_start s in if c == slash then rest else c ∷ s

abbrev pub add_unless_slash : ℕ → Bytes → Bytes
add_unless_slash c [] = if c == slash then [] else c ∷ []
add_unless_slash c (d ∷ s) = c ∷ d ∷ s

-- `trim_end_matches('/')`
unfoldable pub trim_end : Bytes → Bytes
trim_end [] = []
trim_end (c ∷ s) = add_unless_slash c (trim_end s)

abbrev pub or_empty : Option Bytes → Bytes
or_empty none = []
or_empty (some s) = s

-- `file_name` is the last component of a path, of the standard library.
unfoldable pub archive_prefix_for_root : (Bytes → Option Bytes) → Bytes → Bool → Bytes
archive_prefix_for_root file_name cli_root basename_only =
    if basename_only then or_empty (file_name cli_root) else trim_end (trim_start cli_root)

abbrev pub forward : ℕ → ℕ
forward c = if c == backslash then slash else c

abbrev pub joined : Bytes → Bytes → Bytes
joined [] rel = trim_start rel
joined (b ∷ base) [] = b ∷ base
joined (b ∷ base) (c ∷ rel) = (b ∷ base) ++ (slash ∷ trim_start (c ∷ rel))

unfoldable pub archive_name : Bytes → Bytes → Bytes
archive_name base_name rel = joined base_name (map forward rel)
