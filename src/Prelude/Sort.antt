-- ===== src/Prelude/Sort.antt =====
-- `sort_by_key` of the standard library: a stable sort.
use Prim.Native.Nat.{ℕ, suc, ◌≤◌}
use mathlib.Core.Path.{◌≡◌, refl}
use mathlib.Core.Logic.{◌⊎◌, inl, inr}
use mathlib.Core.List.{List, [], ◌∷◌, ◌++◌, Perm}
use mathlib.Core.List.Perm
use native.Mathlib.Omega.{arith}
use tzip.Prelude.Tests.{leb, if◌then◌else◌, Bool-cases}
use tzip.Prelude.Lists.{All, Any, length}

module _ {A : Type 0} (key : A → ℕ) where
  -- In front of the elements with the same key, which come later in the input.
  unfoldable pub insert_by_key : A → List A → List A
  insert_by_key x [] = x ∷ []
  insert_by_key x (y ∷ ys) =
      let rest = insert_by_key x ys in if leb (key x) (key y) then x ∷ y ∷ ys else y ∷ rest

  unfoldable pub sort_by_key : List A → List A
  unfolding insert_by_key
  sort_by_key [] = []
  sort_by_key (x ∷ xs) = insert_by_key x (sort_by_key xs)

  abbrev pub Ascending : List A → Type 0
  Ascending [] = Unit
  Ascending (x ∷ xs) = All (λ y. key x ≤ key y) xs × Ascending xs

  insert_by_key-perm : (x : A) (xs : List A) → Perm (insert_by_key x xs) (x ∷ xs)
  unfolding insert_by_key
  insert_by_key-perm x [] = Perm.rfl
  insert_by_key-perm x (y ∷ ys) = elim (Bool-cases (leb (key x) (key y))) [
    | inl first ↦ rw first Perm.rfl
    | inr later ↦ rw later (Perm.trans (Perm.cons y (insert_by_key-perm x ys)) (Perm.swap x y ys))
  ]

  pub sort_by_key-perm : (xs : List A) → Perm (sort_by_key xs) xs
  unfolding sort_by_key
  sort_by_key-perm [] = Perm.rfl
  sort_by_key-perm (x ∷ xs) =
      Perm.trans (insert_by_key-perm x (sort_by_key xs)) (Perm.cons x (sort_by_key-perm xs))

  pub insert_by_key-All :
      (P : A → Type 0) (x : A) (xs : List A) → P x → All P xs → All P (insert_by_key x xs)
  unfolding insert_by_key
  insert_by_key-All P x [] p h = (p, tt)
  insert_by_key-All P x (y ∷ ys) p (q, h) = elim (Bool-cases (leb (key x) (key y))) [
    | inl first ↦ rw first (p, (q, h))
    | inr later ↦ rw later (q, insert_by_key-All P x ys p h)
  ]

  pub sort_by_key-All : (P : A → Type 0) (xs : List A) → All P xs → All P (sort_by_key xs)
  unfolding sort_by_key
  sort_by_key-All P [] h = tt
  sort_by_key-All P (x ∷ xs) (p, h) =
      insert_by_key-All P x (sort_by_key xs) p (sort_by_key-All P xs h)

  above : (n m : ℕ) (xs : List A) → n ≤ m → All (λ y. m ≤ key y) xs → All (λ y. n ≤ key y) xs
  above n m [] h a = tt
  above n m (x ∷ xs) h (p, a) = (omega arith, above n m xs h a)

  insert_by_key-Ascending : (x : A) (xs : List A) → Ascending xs → Ascending (insert_by_key x xs)
  unfolding insert_by_key
  insert_by_key-Ascending x [] h = (tt, tt)
  insert_by_key-Ascending x (y ∷ ys) (low, h) = elim (Bool-cases (leb (key x) (key y))) [
    | inl first ↦
        let le : key x ≤ key y = ground arith in
        rw first ((le, above (key x) (key y) ys le low), (low, h))
    | inr later ↦
        let le : key y ≤ key x = ground arith in
        rw later
          (insert_by_key-All (λ z. key y ≤ key z) x ys le low, insert_by_key-Ascending x ys h)
  ]

  pub sort_by_key-Ascending : (xs : List A) → Ascending (sort_by_key xs)
  unfolding sort_by_key
  sort_by_key-Ascending [] = tt
  sort_by_key-Ascending (x ∷ xs) =
      insert_by_key-Ascending x (sort_by_key xs) (sort_by_key-Ascending xs)

  pub Ascending-append_right : (xs ys : List A) → Ascending (xs ++ ys) → Ascending ys
  Ascending-append_right [] ys h = h
  Ascending-append_right (x ∷ xs) ys (p, h) = Ascending-append_right xs ys h

  length-insert_by_key : (x : A) (xs : List A) → length (insert_by_key x xs) ≡ suc (length xs)
  unfolding insert_by_key
  length-insert_by_key x [] = refl
  length-insert_by_key x (y ∷ ys) = ground (arith, length-insert_by_key x ys)

  pub length-sort_by_key : (xs : List A) → length (sort_by_key xs) ≡ length xs
  unfolding sort_by_key
  length-sort_by_key [] = refl
  length-sort_by_key (x ∷ xs) =
      omega (arith, length-insert_by_key x (sort_by_key xs), length-sort_by_key xs)

  insert_by_key-Any :
      (P : A → Type 0) (x : A) (xs : List A) → Any P (insert_by_key x xs) → P x ⊎ Any P xs
  unfolding insert_by_key
  insert_by_key-Any P x [] (inl p) = inl p
  insert_by_key-Any P x [] (inr h) = absurd h
  insert_by_key-Any P x (y ∷ ys) h = elim (Bool-cases (leb (key x) (key y))) [
    | inl first ↦ elim (rw first at h) [ inl p ↦ inl p | inr k ↦ inr k ]
    | inr later ↦ elim (rw later at h) [
      | inl p ↦ inr (inl p)
      | inr k ↦ elim (insert_by_key-Any P x ys k) [ inl p ↦ inl p | inr k' ↦ inr (inr k') ]
    ]
  ]

  pub sort_by_key-Any : (P : A → Type 0) (xs : List A) → Any P (sort_by_key xs) → Any P xs
  unfolding sort_by_key
  sort_by_key-Any P [] h = h
  sort_by_key-Any P (x ∷ xs) h = elim (insert_by_key-Any P x (sort_by_key xs) h) [
    | inl p ↦ inl p
    | inr k ↦ inr (sort_by_key-Any P xs k)
  ]
