-- ===== src/Walk/Glob/Meaning.antt =====
-- What a pattern of src/walker.rs means, without an algorithm.
use tzip.Prelude.{
  ℕ, Bool, true, false, ◌||◌, ◌≡◌, ◌≢◌, ◌↔◌, ◌⊎◌, inl, inr, refl, arith, List, [], ◌∷◌, ◌++◌, Any,
}
use mathlib.Core.Path.{subst}
use tzip.Bytes.{Bytes}
use tzip.Walk.Glob.{star, question, glob_match, is_excluded}

-- `*` stands for any run of bytes, `?` for one byte, any other byte for itself; both ends are anchored.
pub data Matches : Bytes → Bytes → Type 0 where
  end : Matches [] []
  run : {p t : Bytes} (skipped : Bytes) → Matches p t → Matches (star ∷ p) (skipped ++ t)
  one : {p t : Bytes} (c : ℕ) → Matches p t → Matches (question ∷ p) (c ∷ t)
  same : {p t : Bytes} (c : ℕ) → c ≢ star → Matches p t → Matches (c ∷ p) (c ∷ t)

byte-cases :
    (p c : ℕ)
    → (p ≡ star)
      ⊎ ((p ≢ star) × (p ≡ question))
      ⊎ ((p ≢ star) × (p ≡ c))
      ⊎ ((p ≢ star) × (p ≢ question) × (p ≢ c))
byte-cases p c = omega arith

or_true : (a : Bool) → (a || true) ≡ true
or_true true = refl
or_true false = refl

or-cases : (a b : Bool) → (a || b) ≡ true → (a ≡ true) ⊎ (b ≡ true)
or-cases true b h = inl refl
or-cases false b h = inr h

star-cases :
    (p : Bytes) (c : ℕ) (t : Bytes)
    → glob_match (star ∷ p) (c ∷ t) ≡ true
    → (glob_match p (c ∷ t) ≡ true) ⊎ (glob_match (star ∷ p) t ≡ true)
unfolding glob_match
star-cases p c t h = or-cases _ _ h

longer : {p t : Bytes} (c : ℕ) → Matches (star ∷ p) t → Matches (star ∷ p) (c ∷ t)
longer c (run skipped m) = run (c ∷ skipped) m
longer c (same _ differ m) = absurd (differ refl)

glob_match-Matches : (p t : Bytes) → glob_match p t ≡ true → Matches p t
unfolding glob_match
glob_match-Matches [] [] h = end
glob_match-Matches [] (c ∷ t) h = absurd (ground arith)
glob_match-Matches (p ∷ ps) [] h = elim (byte-cases p p) [
  | inl e ↦ rw e (run [] (glob_match-Matches ps [] (ground arith)))
  | inr differ ↦ absurd (ground arith)
]
glob_match-Matches (p ∷ ps) (c ∷ t) h = elim (byte-cases p c) [
  | inl e ↦
      rw e (elim (star-cases ps c t (subst (λ (x : ℕ). glob_match (x ∷ ps) (c ∷ t) ≡ true) e h)) [
        | inl now ↦ run [] (glob_match-Matches ps (c ∷ t) now)
        | inr later ↦
            longer c
              (subst (λ (x : ℕ). Matches (x ∷ ps) t) e (glob_match-Matches (p ∷ ps) t (rw e later)))
      ])
  | inr (inl (differ, e)) ↦ rw e (one c (glob_match-Matches ps t (ground arith)))
  | inr (inr (inl (differ, e))) ↦
      rw e (same c (rw (← e) differ) (glob_match-Matches ps t (ground arith)))
  | inr (inr (inr others)) ↦ absurd (ground arith)
]

star_now : (p t : Bytes) → glob_match p t ≡ true → glob_match (star ∷ p) t ≡ true
unfolding glob_match
star_now p [] h = h
star_now p (c ∷ t) h = ground arith

star_later :
    (p : Bytes) (c : ℕ) (t : Bytes)
    → glob_match (star ∷ p) t ≡ true
    → glob_match (star ∷ p) (c ∷ t) ≡ true
unfolding glob_match
star_later p c t h = rw h (or_true _)

one_lem : (p t : Bytes) (c : ℕ) → glob_match p t ≡ true → glob_match (question ∷ p) (c ∷ t) ≡ true
unfolding glob_match
one_lem p t c h = h

same_lem :
    (p t : Bytes) (c : ℕ) → c ≢ star → glob_match p t ≡ true → glob_match (c ∷ p) (c ∷ t) ≡ true
unfolding glob_match
same_lem p t c differ h = ground arith

star_skip :
    (p t skipped : Bytes) → glob_match p t ≡ true → glob_match (star ∷ p) (skipped ++ t) ≡ true
star_skip p t [] h = star_now p t h
star_skip p t (x ∷ skipped) h = star_later p x (skipped ++ t) (star_skip p t skipped h)

Matches-glob_match : {p t : Bytes} → Matches p t → glob_match p t ≡ true
Matches-glob_match end = unfold glob_match in refl
Matches-glob_match (run {p} {t} skipped m) = star_skip p t skipped (Matches-glob_match m)
Matches-glob_match (one {p} {t} c m) = one_lem p t c (Matches-glob_match m)
Matches-glob_match (same {p} {t} c differ m) = same_lem p t c differ (Matches-glob_match m)

left_out :
    (name : Bytes) (globs : List Bytes)
    → is_excluded name globs ≡ true
    → Any (λ g. Matches g name) globs
unfolding is_excluded
left_out name [] h = absurd (ground arith)
left_out name (g ∷ globs) h = elim (or-cases (glob_match g name) (is_excluded name globs) h) [
  | inl this ↦ inl (glob_match-Matches g name this)
  | inr others ↦ inr (left_out name globs others)
]

leaves_out :
    (name : Bytes) (globs : List Bytes)
    → Any (λ g. Matches g name) globs
    → is_excluded name globs ≡ true
unfolding is_excluded
leaves_out name [] a = absurd a
leaves_out name (g ∷ globs) (inl m) = rw (Matches-glob_match m) refl
leaves_out name (g ∷ globs) (inr a) = rw (leaves_out name globs a) (or_true (glob_match g name))

-- A name is left out exactly when one of the patterns means it.
pub is_excluded_iff :
    (name : Bytes) (globs : List Bytes)
    → (is_excluded name globs ≡ true) ↔ Any (λ g. Matches g name) globs
is_excluded_iff name globs = (left_out name globs, leaves_out name globs)
