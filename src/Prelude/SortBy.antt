-- ===== src/Prelude/SortBy.antt =====
-- `sort_by` of the standard library, a stable sort by a comparison, and the order of byte strings.
use Prim.Native.Nat.{ℕ}
use mathlib.Core.Path.{◌≡◌, subst, refl, ap, ◌∙◌}
use mathlib.Core.Bool.{Bool, true, false}
use mathlib.Core.List.{List, [], ◌∷◌, Permᴰ}
use mathlib.Core.List.Permᴰ
use native.Mathlib.Omega.{arith}
use tzip.Prelude.Tests.{ltb, ◌==◌, if◌then◌else◌, Bool-cases}
use tzip.Prelude.Lists.{All}
use mathlib.Core.Logic.{◌⊎◌, inl, inr}

-- `a.cmp(b) != Greater` on strings: byte by byte, a prefix first.
unfoldable pub bytes_le : List ℕ → List ℕ → Bool
bytes_le [] ys = true
bytes_le (x ∷ xs) [] = false
bytes_le (x ∷ xs) (y ∷ ys) =
    let rest = bytes_le xs ys in if ltb x y then true else if x == y then rest else false

pub bytes_le_total : (xs ys : List ℕ) → bytes_le xs ys ≡ false → bytes_le ys xs ≡ true
unfolding bytes_le
bytes_le_total [] ys h = absurd cc
bytes_le_total (x ∷ xs) [] h = refl
bytes_le_total (x ∷ xs) (y ∷ ys) h = ground (arith, bytes_le_total xs ys)

pub bytes_le_trans :
    (xs ys zs : List ℕ) → bytes_le xs ys ≡ true → bytes_le ys zs ≡ true → bytes_le xs zs ≡ true
unfolding bytes_le
bytes_le_trans [] ys zs h k = refl
bytes_le_trans (x ∷ xs) [] zs h k = absurd cc
bytes_le_trans (x ∷ xs) (y ∷ ys) [] h k = absurd cc
bytes_le_trans (x ∷ xs) (y ∷ ys) (z ∷ zs) h k = ground (arith, bytes_le_trans xs ys zs)

pub bytes_le_antisymm : (xs ys : List ℕ) → bytes_le xs ys ≡ true → bytes_le ys xs ≡ true → xs ≡ ys
unfolding bytes_le
bytes_le_antisymm [] [] h k = refl
bytes_le_antisymm [] (y ∷ ys) h k = absurd cc
bytes_le_antisymm (x ∷ xs) [] h k = absurd cc
bytes_le_antisymm (x ∷ xs) (y ∷ ys) h k = ground (arith, bytes_le_antisymm xs ys)

module _ {A : Type 0} (le : A → A → Bool) where
  unfoldable pub insert_by : A → List A → List A
  insert_by x [] = x ∷ []
  insert_by x (y ∷ ys) = let rest = insert_by x ys in if le x y then x ∷ y ∷ ys else y ∷ rest

  unfoldable pub sort_by : List A → List A
  unfolding insert_by
  sort_by [] = []
  sort_by (x ∷ xs) = insert_by x (sort_by xs)

  -- No two elements that the order does not tell apart.
  abbrev pub Apart : A → A → Type 0
  Apart x y = (le x y ≡ false) ⊎ (le y x ≡ false)

  abbrev pub Distinct : List A → Type 0
  Distinct [] = Unit
  Distinct (x ∷ xs) = All (λ y. Apart x y) xs × Distinct xs

  pub record IsOrder : Type 0 where
    pub le_total : (x y : A) → le x y ≡ false → le y x ≡ true
    pub le_trans : (x y z : A) → le x y ≡ true → le y z ≡ true → le x z ≡ true

  module _ (o : IsOrder) where
    insert_by_swap :
        (x y : A) (zs : List A)
        → Apart x y
        → insert_by x (insert_by y zs) ≡ insert_by y (insert_by x zs)
    unfolding insert_by
    insert_by_swap x y [] h = ground (arith, o.le_total x y, o.le_total y x)
    insert_by_swap x y (z ∷ zs) h = ground (
      arith,
      insert_by_swap x y zs h,
      o.le_total x y,
      o.le_total y x,
      o.le_trans x y z,
      o.le_trans y x z,
    )

    Apart-sym : (x y : A) → Apart x y → Apart y x
    Apart-sym x y (inl h) = inr h
    Apart-sym x y (inr h) = inl h

    Permᴰ-All : (P : A → Type 0) {xs ys : List A} → Permᴰ xs ys → All P xs → All P ys
    Permᴰ-All P Permᴰ.nil h = tt
    Permᴰ-All P (Permᴰ.cons e p) (q, h) = (subst P e q, Permᴰ-All P p h)
    Permᴰ-All P (Permᴰ.swap e e') (q, (r, h)) = (subst P e' r, (subst P e q, h))
    Permᴰ-All P (Permᴰ.trans p p') h = Permᴰ-All P p' (Permᴰ-All P p h)

    pub Permᴰ-Distinct : {xs ys : List A} → Permᴰ xs ys → Distinct xs → Distinct ys
    Permᴰ-Distinct Permᴰ.nil h = tt
    Permᴰ-Distinct (Permᴰ.cons {a} {b} {l₁ = l} {l₂ = l'} e p) (q, h) =
        (Permᴰ-All (λ y. Apart b y) p (subst (λ x. All (λ y. Apart x y) l) e q), Permᴰ-Distinct p h)
    Permᴰ-Distinct (Permᴰ.swap {a} {b} {a'} {b'} {l} e e') ((q, r), (t, h)) = (
      (
        subst (λ x. Apart x b') e' (subst (λ x. Apart b x) e (Apart-sym a b q)),
        subst (λ x. All (λ y. Apart x y) l) e' t,
      ),
      (subst (λ x. All (λ y. Apart x y) l) e r, h),
    )
    Permᴰ-Distinct (Permᴰ.trans p p') h = Permᴰ-Distinct p' (Permᴰ-Distinct p h)

    -- The order of the input does not matter where the order tells all elements apart.
    pub sort_by-Permᴰ : {xs ys : List A} → Permᴰ xs ys → Distinct xs → sort_by xs ≡ sort_by ys
    unfolding sort_by
    sort_by-Permᴰ Permᴰ.nil h = refl
    sort_by-Permᴰ (Permᴰ.cons {a} {b} {l₁ = l} {l₂ = l'} e p) (q, h) =
        ap (λ x. insert_by x (sort_by l)) e ∙ ap (insert_by b) (sort_by-Permᴰ p h)
    sort_by-Permᴰ (Permᴰ.swap {a} {b} {a'} {b'} {l} e e') ((q, r), (t, h)) =
        insert_by_swap a b (sort_by l) q
        ∙ ap (λ x. insert_by x (insert_by a (sort_by l))) e'
        ∙ ap (λ x. insert_by a' (insert_by x (sort_by l))) e
    sort_by-Permᴰ (Permᴰ.trans p p') h = sort_by-Permᴰ p h ∙ sort_by-Permᴰ p' (Permᴰ-Distinct p h)

  insert_by-Permᴰ : (x : A) (xs : List A) → Permᴰ (insert_by x xs) (x ∷ xs)
  unfolding insert_by
  insert_by-Permᴰ x [] = Permᴰ.refl (x ∷ [])
  insert_by-Permᴰ x (y ∷ ys) = elim (Bool-cases (le x y)) [
    | inl first ↦ rw first (Permᴰ.refl (x ∷ y ∷ ys))
    | inr later ↦
        rw later (Permᴰ.trans (Permᴰ.cons refl (insert_by-Permᴰ x ys)) (Permᴰ.swap refl refl))
  ]

  pub sort_by_perm : (xs : List A) → Permᴰ (sort_by xs) xs
  unfolding sort_by
  sort_by_perm [] = Permᴰ.nil
  sort_by_perm (x ∷ xs) =
      Permᴰ.trans (insert_by-Permᴰ x (sort_by xs)) (Permᴰ.cons refl (sort_by_perm xs))
