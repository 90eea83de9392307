-- ===== src/Prelude/Ranks.antt =====
-- A list whose elements have the keys 0, 1, 2, ... once each, and what sorting by the key makes of it.
use Prim.Native.Nat.{ℕ, zero, suc, ◌+◌, ◌-◌, ◌≤◌, ◌<◌}
use mathlib.Core.Path.{◌≡◌, refl}
use mathlib.Core.Logic.{◌≢◌, inl, inr}
use mathlib.Core.Bool.{◌&&◌}
use mathlib.Core.Option.{some}
use mathlib.Core.List.{List, [], ◌∷◌}
use native.Mathlib.Omega.{arith}
use tzip.Prelude.Tests.{ltb, leb, ◌==◌, if◌then◌else◌, Bool-cases, some-inj}
use tzip.Prelude.Lists.{length, get_elem?, All, Any, All-weaken}
use tzip.Prelude.Totals.{total}
use tzip.Prelude.Sort.{insert_by_key, sort_by_key, Ascending, sort_by_key-Ascending}

module _ {A : Type 0} (key : A → ℕ) where
  abbrev pub at_key : ℕ → A → ℕ
  at_key j x = if key x == j then 1 else 0

  -- The keys go up by one, from `k` on.
  abbrev pub Placed : ℕ → List A → Type 0
  Placed k [] = Unit
  Placed k (x ∷ xs) = (key x ≡ k) × Placed (k + 1) xs

  -- Each key of `k` to `k + m - 1` once, and no other.
  abbrev pub Once : ℕ → ℕ → List A → Type 0
  Once k m xs = (j : ℕ) → total (at_key j) xs ≡ (if leb k j && ltb j (k + m) then 1 else 0)

  total-insert_by_key :
      (w : A → ℕ) (x : A) (xs : List A) → total w (insert_by_key key x xs) ≡ w x + total w xs
  unfolding insert_by_key
  total-insert_by_key w x [] = refl
  total-insert_by_key w x (y ∷ ys) = elim (Bool-cases (leb (key x) (key y))) [
    | inl first ↦ rw first refl
    | inr later ↦ rw later (omega (arith, total-insert_by_key w x ys))
  ]

  pub total-sort_by_key : (w : A → ℕ) (xs : List A) → total w (sort_by_key key xs) ≡ total w xs
  unfolding sort_by_key
  total-sort_by_key w [] = refl
  total-sort_by_key w (x ∷ xs) =
      omega (arith, total-insert_by_key w x (sort_by_key key xs), total-sort_by_key w xs)

  absent : (j n : ℕ) (xs : List A) → j < n → All (λ y. n ≤ key y) xs → total (at_key j) xs ≡ 0
  absent j n [] lt h = refl
  absent j n (x ∷ xs) lt (p, h) = ground (arith, absent j n xs)

  module _ (k m : ℕ) (x : A) (xs : List A) (h : Once k m (x ∷ xs)) where
    once_low : (k ≤ key x) × (key x < k + m) × (total (at_key (key x)) xs ≡ 0)
    once_low = ground (arith, h (key x))

    once-first : All (λ y. key x ≤ key y) xs → key x ≡ k
    once-first low = ground (arith, once_low, h k, absent k (key x) xs)

  Once-tail :
      (k m j : ℕ) (x : A) (xs : List A)
      → key x ≡ k
      → Once k (suc m) (x ∷ xs)
      → total (at_key j) xs ≡ (if leb (k + 1) j && ltb j (k + 1 + m) then 1 else 0)
  Once-tail k m j x xs e h = ground (arith, h j)

  -- In the order of the keys such a list has each element at its place.
  pub Once-Placed :
      (k m : ℕ) (xs : List A) → Ascending key xs → Once k m xs → Placed k xs × (length xs ≡ m)
  Once-Placed k zero [] a h = (tt, refl)
  Once-Placed k (suc m) [] a h = absurd (ground (arith, h k))
  Once-Placed k zero (x ∷ xs) a h = absurd (omega (arith, once_low k 0 x xs h))
  Once-Placed k (suc m) (x ∷ xs) (low, a) h =
      let e = once-first k (suc m) x xs h low in
      let (p, n) = Once-Placed (k + 1) m xs a (λ j. Once-tail k m j x xs e h) in
      ((e, p), omega arith)

  Placed-found :
      (k : ℕ) (xs : List A)
      → Placed k xs
      → All (λ x. (k ≤ key x) × (get_elem? xs (key x - k) ≡ some x)) xs
  Placed-found k [] h = tt
  Placed-found k (x ∷ xs) (e, h) =
      let here : key x - k ≡ 0 = omega arith in
      (
        (omega arith, rw here refl),
        All-weaken _ _ (λ y (le, found). later y le found) xs (Placed-found (k + 1) xs h),
      )
    where
      later :
          (y : A)
          → k + 1 ≤ key y
          → get_elem? xs (key y - (k + 1)) ≡ some y
          → (k ≤ key y) × (get_elem? (x ∷ xs) (key y - k) ≡ some y)
      later y le found =
          let same : key y - k ≡ suc (key y - (k + 1)) = omega arith in (omega arith, rw same found)

  at_zero :
      (n : ℕ) (xs : List A) (x : A)
      → (0 ≤ n) × (get_elem? xs (n - 0) ≡ some x)
      → get_elem? xs n ≡ some x
  at_zero n xs x (le, found) = let same : n - 0 ≡ n = omega arith in rw same at found

  Placed-first : (xs : List A) → Placed 0 xs → All (λ x. get_elem? xs (key x) ≡ some x) xs
  Placed-first xs h =
      All-weaken (λ x. (0 ≤ key x) × (get_elem? xs (key x - 0) ≡ some x)) _
        (λ x. at_zero (key x) xs x) xs (Placed-found 0 xs h)

  unsort_insert :
      (P : A → Type 0) (x : A) (xs : List A) → All P (insert_by_key key x xs) → P x × All P xs
  unfolding insert_by_key
  unsort_insert P x [] h = h
  unsort_insert P x (y ∷ ys) h = elim (Bool-cases (leb (key x) (key y))) [
    | inl first ↦ rw first at h
    | inr later ↦
        let (p, rest) : P y × All P (insert_by_key key x ys) = rw later at h in
        let (q, ps) = unsort_insert P x ys rest in (q, (p, ps))
  ]

  unsort : (P : A → Type 0) (xs : List A) → All P (sort_by_key key xs) → All P xs
  unfolding sort_by_key
  unsort P [] h = tt
  unsort P (x ∷ xs) h =
      let (p, rest) = unsort_insert P x (sort_by_key key xs) h in (p, unsort P xs rest)

  found-Any : (j : ℕ) (xs : List A) → total (at_key j) xs ≢ 0 → Any (λ x. key x ≡ j) xs
  found-Any j [] h = absurd (h refl)
  found-Any j (x ∷ xs) h = elim (Bool-cases (key x == j)) [
    | inl same ↦ inl (ground arith)
    | inr other ↦ inr (found-Any j xs (λ z. h (ground arith)))
  ]

  Placed-index :
      (k i : ℕ) (xs : List A) (x : A) → Placed k xs → get_elem? xs i ≡ some x → key x ≡ k + i
  Placed-index k i [] x h e = absurd cc
  Placed-index k zero (y ∷ xs) x (p, h) e =
      let same : key y ≡ key x = λ t. key (some-inj e t) in omega arith
  Placed-index k (suc i) (y ∷ xs) x (p, h) e = omega (arith, Placed-index (k + 1) i xs x h e)

  -- `xs` holds each key below `n` once: what sorting makes of it, and where each element goes.
  pub record Ranked (n : ℕ) (xs : List A) : Type 0 where
    pub sized : length (sort_by_key key xs) ≡ n
    pub found : All (λ x. get_elem? (sort_by_key key xs) (key x) ≡ some x) xs
    pub below : All (λ x. key x < n) xs
    pub covers : (j : ℕ) → j < n → Any (λ x. key x ≡ j) xs
    pub index : (i : ℕ) (x : A) → get_elem? (sort_by_key key xs) i ≡ some x → key x ≡ i

  some_place : (es : List A) (i : ℕ) (x : A) → get_elem? es i ≡ some x → i < length es
  some_place [] i x e = absurd cc
  some_place (y ∷ es) zero x e = omega arith
  some_place (y ∷ es) (suc i) x e = omega (arith, some_place es i x e)

  pub once-Ranked :
      (n : ℕ) (xs : List A)
      → ((j : ℕ) → total (at_key j) xs ≡ (if ltb j n then 1 else 0))
      → Ranked n xs
  once-Ranked n xs h =
      let es = sort_by_key key xs in
      let (placed, sized) = Once-Placed 0 n es (sort_by_key-Ascending key xs) once in
      let found = Placed-first es placed in
      record {
        sized = sized;
        found = unsort _ xs found;
        below =
            unsort _ xs (All-weaken _ _ (λ x e. rw sized at (some_place es (key x) x e)) es found);
        covers = λ j lt. found-Any j xs (λ z. ground (arith, h j));
        index = λ i x e. omega (arith, Placed-index 0 i es x placed e);
      }
    where
      once : Once 0 n (sort_by_key key xs)
      once j = ground (arith, h j, total-sort_by_key (at_key j) xs)
