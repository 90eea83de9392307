-- ===== src/Prelude/Assoc.antt =====
-- `HashMap<u64, _>` as an association list in the order of insertion.
use tzip.Prelude.Tests.{◌==◌, if◌then◌else◌, Option-cases}
use tzip.Prelude.Lists.{length}
use Prim.Native.Nat.{ℕ, ◌≤◌, ◌<◌}
use mathlib.Core.Path.{◌≡◌}
use mathlib.Core.Logic.{◌≢◌, ◌⊎◌, inl, inr}
use mathlib.Core.Option.{Option, none, some}
use mathlib.Core.List.{List, [], ◌∷◌, ◌++◌}
use native.Mathlib.Omega.{arith}

abbrev pub Map : Type 0 → Type 0
Map A = List (ℕ × A)

module _ {A : Type 0} where
  unfoldable pub lookup : ℕ → Map A → Option A
  lookup k [] = none
  lookup k ((j, e) ∷ p) = if j == k then some e else lookup k p

  unfoldable pub remove : ℕ → Map A → Map A
  remove k [] = []
  remove k ((j, e) ∷ p) = let rest = remove k p in if j == k then rest else (j, e) ∷ rest

  unfoldable pub insert : ℕ → A → Map A → Map A
  insert k e p = remove k p ++ ((k, e) ∷ [])

  lookup-append :
      (j k : ℕ) (e : A) (p : Map A)
      → lookup j p ≡ none
      → lookup j (p ++ ((k, e) ∷ [])) ≡ (if j == k then some e else none)
  unfolding lookup
  lookup-append j k e [] h = ground arith
  lookup-append j k e ((i, x) ∷ p) h = ground (arith, lookup-append j k e p)

  lookup-append_some :
      (j k : ℕ) (e x : A) (p : Map A) → lookup j p ≡ some x → lookup j (p ++ ((k, e) ∷ [])) ≡ some x
  unfolding lookup
  lookup-append_some j k e x [] h = absurd cc
  lookup-append_some j k e x ((i, y) ∷ p) h = ground (arith, lookup-append_some j k e x p)

  pub lookup-remove :
      (j k : ℕ) (p : Map A) → lookup j (remove k p) ≡ (if j == k then none else lookup j p)
  unfolding lookup remove
  lookup-remove j k [] = ground arith
  lookup-remove j k ((i, e) ∷ p) = ground (arith, lookup-remove j k p)

  pub lookup-insert :
      (j k : ℕ) (e : A) (p : Map A)
      → lookup j (insert k e p) ≡ (if j == k then some e else lookup j p)
  unfolding insert
  lookup-insert j k e p = elim (Option-cases (lookup j (remove k p))) [
    | inl gone ↦ ground (arith, lookup-remove j k p, lookup-append j k e (remove k p) gone)
    | inr (x, there) ↦
        ground (arith, lookup-remove j k p, lookup-append_some j k e x (remove k p) there)
  ]

  module _ (j k : ℕ) (p : Map A) where
    pub remove-some : (e : A) → lookup j (remove k p) ≡ some e → lookup j p ≡ some e
    remove-some e h = ground (arith, lookup-remove j k p)

    pub remove-none : lookup j p ≡ none → lookup j (remove k p) ≡ none
    remove-none h = ground (arith, lookup-remove j k p)

    pub remove-other : j ≢ k → lookup j (remove k p) ≡ lookup j p
    remove-other d = ground (arith, lookup-remove j k p)

    module _ (e : A) where
      pub insert-some :
          (e' : A)
          → lookup j (insert k e p) ≡ some e'
          → ((j ≡ k) × (some e ≡ some e')) ⊎ (lookup j p ≡ some e')
      insert-some e' h = ground (arith, lookup-insert j k e p)

      pub insert-none : j ≢ k → lookup j p ≡ none → lookup j (insert k e p) ≡ none
      insert-none d h = ground (arith, lookup-insert j k e p)

      pub insert-same : j ≡ k → lookup j (insert k e p) ≡ some e
      insert-same d = ground (arith, lookup-insert j k e p)

      pub insert-other : j ≢ k → lookup j (insert k e p) ≡ lookup j p
      insert-other d = ground (arith, lookup-insert j k e p)

  length-remove_le : (k : ℕ) (p : Map A) → length (remove k p) ≤ length p
  unfolding remove
  length-remove_le k [] = omega arith
  length-remove_le k ((i, e) ∷ p) = ground (arith, length-remove_le k p)

  pub length-remove :
      (k : ℕ) (p : Map A) (e : A) → lookup k p ≡ some e → length (remove k p) < length p
  unfolding remove lookup
  length-remove k [] e h = absurd (ground arith)
  length-remove k ((i, x) ∷ p) e h = ground (arith, length-remove_le k p, length-remove k p e)
