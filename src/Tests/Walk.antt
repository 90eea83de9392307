-- ===== src/Tests/Walk.antt =====
-- Patterns of src/walker.rs.
use tzip.Prelude.{◌≡◌, refl, true, false, none, ◌↔◌, [], ◌∷◌, Any}
use tzip.Bytes.{Bytes}
use tzip.Walk.Glob.{is_excluded, glob_match}
use tzip.Walk.Name.{archive_name, archive_prefix_for_root}
use tzip.Walk.Name.Relative.{IsRelative, archive_name-IsRelative}
use tzip.Walk.Glob.Meaning.{Matches, is_excluded_iff}

-- "a.o"
abbrev object : Bytes
object = 97 ∷ 46 ∷ 111 ∷ []

-- "*.?"
abbrev suffix : Bytes
suffix = 42 ∷ 46 ∷ 63 ∷ []

object_left_out : is_excluded object (suffix ∷ []) ≡ true
unfolding is_excluded glob_match
object_left_out = refl

is_excluded_iff_example :
    (is_excluded object (suffix ∷ []) ≡ true) ↔ Any (λ g. Matches g object) (suffix ∷ [])
is_excluded_iff_example = is_excluded_iff object (suffix ∷ [])

archive_name-IsRelative_example :
    IsRelative
      (archive_name (archive_prefix_for_root (λ p. none) (47 ∷ 97 ∷ 47 ∷ []) false) (98 ∷ []))
archive_name-IsRelative_example =
    archive_name-IsRelative (λ p. none) (47 ∷ 97 ∷ 47 ∷ []) (98 ∷ []) false tt
