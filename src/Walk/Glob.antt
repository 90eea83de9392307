-- ===== src/Walk/Glob.antt =====
-- `glob_match` and `is_excluded` of src/walker.rs, on the bytes of the pattern and of the name.
pub mod Meaning
use tzip.Prelude.{ℕ, Bool, true, false, ◌||◌, ◌==◌, ◌≡◌, refl, List, [], ◌∷◌, if◌then◌else◌}
use tzip.Bytes.{Bytes}

abbrev pub star : ℕ
star = 42

abbrev pub question : ℕ
question = 63

-- `recur`: the pattern's first byte decides.
unfoldable pub glob_match : Bytes → Bytes → Bool
glob_match [] [] = true
glob_match [] (c ∷ t) = false
glob_match (p ∷ ps) [] = if p == star then glob_match ps [] else false
glob_match (p ∷ ps) (c ∷ t) =
    if p == star
    then glob_match ps (c ∷ t) || glob_match (p ∷ ps) t
    else if p == question || p == c
    then glob_match ps t
    else false

unfoldable pub is_excluded : Bytes → List Bytes → Bool
is_excluded name [] = false
is_excluded name (g ∷ globs) = glob_match g name || is_excluded name globs
