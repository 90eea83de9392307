-- ===== src/Prelude/Totals.antt =====
-- Writes at a place of a list, and sums over a list.
use Prim.Native.Nat.{ℕ, zero, suc, ◌+◌, ◌≤◌, ◌<◌}
use mathlib.Core.Path.{◌≡◌, refl}
use mathlib.Core.Option.{some}
use mathlib.Core.List.{List, [], ◌∷◌, ◌++◌}
use native.Mathlib.Omega.{arith}
use tzip.Prelude.Tests.{some-inj}
use tzip.Prelude.Lists.{length, get_elem?, All}

module _ {A : Type 0} where
  -- A write out of bounds changes nothing.
  abbrev pub set : List A → ℕ → A → List A
  set [] i v = []
  set (x ∷ xs) zero v = v ∷ xs
  set (x ∷ xs) (suc i) v = x ∷ set xs i v

  pub length-set : (xs : List A) (i : ℕ) (v : A) → length (set xs i v) ≡ length xs
  length-set [] i v = refl
  length-set (x ∷ xs) zero v = refl
  length-set (x ∷ xs) (suc i) v = omega (arith, length-set xs i v)

  module _ (P : A → Type 0) where
    pub set-All : (xs : List A) (i : ℕ) (v : A) → All P xs → P v → All P (set xs i v)
    set-All [] i v h p = tt
    set-All (x ∷ xs) zero v (q, h) p = (p, h)
    set-All (x ∷ xs) (suc i) v (q, h) p = (q, set-All xs i v h p)

  module _ (w : A → ℕ) where
    abbrev pub total : List A → ℕ
    total [] = 0
    total (x ∷ xs) = w x + total xs

    pub total-append : (xs ys : List A) → total (xs ++ ys) ≡ total xs + total ys
    total-append [] ys = omega arith
    total-append (x ∷ xs) ys = omega (arith, total-append xs ys)

    pub total-set :
        (xs : List A) (i : ℕ) (x v : A)
        → get_elem? xs i ≡ some x
        → total (set xs i v) + w x ≡ total xs + w v
    total-set [] i x v h = absurd cc
    total-set (y ∷ xs) zero x v h =
        let same : w y ≡ w x = λ j. w (some-inj h j) in omega (arith, same)
    total-set (y ∷ xs) (suc i) x v h = omega (arith, total-set xs i x v h)

    pub total-le : ((x : A) → w x ≤ 1) → (xs : List A) → total xs ≤ length xs
    total-le one [] = omega arith
    total-le one (x ∷ xs) = omega (arith, one x, total-le one xs)

    -- One element that does not count keeps the total below the length.
    pub total-lt :
        ((x : A) → w x ≤ 1)
        → (xs : List A) (i : ℕ) (x : A) → get_elem? xs i ≡ some x
        → w x ≡ 0
        → total xs < length xs
    total-lt one [] i x h z = absurd cc
    total-lt one (y ∷ xs) zero x h z =
        let same : w y ≡ w x = λ j. w (some-inj h j) in omega (arith, same, total-le one xs)
    total-lt one (y ∷ xs) (suc i) x h z = omega (arith, one y, total-lt one xs i x h z)

    pub total-eq_zero : (xs : List A) → All (λ x. w x ≡ 0) xs → total xs ≡ 0
    total-eq_zero [] h = refl
    total-eq_zero (x ∷ xs) (p, h) = omega (arith, total-eq_zero xs h)
