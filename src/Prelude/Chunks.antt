-- ===== src/Prelude/Chunks.antt =====
-- `xs.chunks(size)`: pieces of `size` elements, the last one what is left.
use Prim.Native.Nat.{ℕ, zero, suc, ◌≤◌}
use mathlib.Core.Path.{◌≡◌, refl}
use mathlib.Core.List.{List, [], ◌∷◌}
use native.Mathlib.Omega.{arith}
use tzip.Prelude.Lists.{length, take, drop, concat, length-drop, take-append-drop}

module _ {A : Type 0} where
  -- The length of the input is enough fuel.
  unfoldable pub chunks : ℕ → ℕ → List A → List (List A)
  chunks zero size input = []
  chunks (suc fuel) size [] = []
  chunks (suc fuel) size (b ∷ input) =
      take size (b ∷ input) ∷ chunks fuel size (drop size (b ∷ input))

  pub concat-chunks :
      (fuel size : ℕ) (x : List A) → 1 ≤ size → length x ≤ fuel → concat (chunks fuel size x) ≡ x
  unfolding chunks
  concat-chunks zero size [] hs h = refl
  concat-chunks zero size (b ∷ x) hs h = absurd (omega arith)
  concat-chunks (suc fuel) size [] hs h = refl
  concat-chunks (suc fuel) size (b ∷ x) hs h =
      let rest = drop size (b ∷ x) in
      let shorter : length rest ≤ fuel = omega (arith, length-drop size (b ∷ x)) in
      rw (concat-chunks fuel size rest hs shorter) (take-append-drop size (b ∷ x))
