-- ===== src/Prelude/Lists.antt =====
-- Lists measured and cut by native numbers, under the library's names.
use Prim.Native.Nat.{ℕ, zero, suc, ◌+◌, ◌-◌, ◌≤◌, ◌<◌, min}
use mathlib.Core.Path.{◌≡◌, refl, sym, ap, subst}
use mathlib.Core.List.{List, [], ◌∷◌, ◌++◌, map}
use mathlib.Core.Option.{Option, none, some}
use mathlib.Core.Logic.{◌⊎◌, inl, inr}
use native.Mathlib.Omega.{arith}

get_inj {ℓ} : {A : Type ℓ} {x y : A} → some x ≡ some y → x ≡ y
get_inj h = cc

module _ {ℓ} {A : Type ℓ} where
  abbrev pub length : List A → ℕ
  length [] = 0
  length (x ∷ xs) = suc (length xs)

  abbrev pub take : ℕ → List A → List A
  take zero xs = []
  take (suc n) [] = []
  take (suc n) (x ∷ xs) = x ∷ take n xs

  abbrev pub drop : ℕ → List A → List A
  drop zero xs = xs
  drop (suc n) [] = []
  drop (suc n) (x ∷ xs) = drop n xs

  abbrev pub get_elem? : List A → ℕ → Option A
  get_elem? [] i = none
  get_elem? (x ∷ xs) zero = some x
  get_elem? (x ∷ xs) (suc i) = get_elem? xs i

  abbrev pub replicate : ℕ → A → List A
  replicate zero a = []
  replicate (suc n) a = a ∷ replicate n a

  -- Pieces written one after the other.
  abbrev pub concat : List (List A) → List A
  concat [] = []
  concat (x ∷ xs) = x ++ concat xs

  abbrev pub All {κ} : (A → Type κ) → List A → Type κ
  All P [] = Unit {κ}
  All P (x ∷ xs) = P x × All P xs

  abbrev pub Any : (A → Type 0) → List A → Type 0
  Any P [] = ⊥
  Any P (x ∷ xs) = P x ⊎ Any P xs

  pub length-append : (xs ys : List A) → length (xs ++ ys) ≡ length xs + length ys
  length-append [] ys = omega arith
  length-append (x ∷ xs) ys = omega (arith, length-append xs ys)

  pub take-append-drop : (n : ℕ) (xs : List A) → take n xs ++ drop n xs ≡ xs
  take-append-drop zero xs = refl
  take-append-drop (suc n) [] = refl
  take-append-drop (suc n) (x ∷ xs) = ap (λ (t : List A). x ∷ t) (take-append-drop n xs)

  pub length-take : (n : ℕ) (xs : List A) → length (take n xs) ≡ min n (length xs)
  length-take zero xs = omega arith
  length-take (suc n) [] = omega arith
  length-take (suc n) (x ∷ xs) = omega (arith, length-take n xs)

  pub length-drop : (n : ℕ) (xs : List A) → length (drop n xs) ≡ length xs - n
  length-drop zero xs = omega arith
  length-drop (suc n) [] = omega arith
  length-drop (suc n) (x ∷ xs) = omega (arith, length-drop n xs)

  pub length-replicate : (n : ℕ) (a : A) → length (replicate n a) ≡ n
  length-replicate zero a = refl
  length-replicate (suc n) a = ap suc (length-replicate n a)

  pub take-append_length : (xs ys : List A) → take (length xs) (xs ++ ys) ≡ xs
  take-append_length [] ys = refl
  take-append_length (x ∷ xs) ys = ap (λ (t : List A). x ∷ t) (take-append_length xs ys)

  pub drop-append_length : (xs ys : List A) → drop (length xs) (xs ++ ys) ≡ ys
  drop-append_length [] ys = refl
  drop-append_length (x ∷ xs) ys = drop-append_length xs ys

  pub drop-take : (n : ℕ) (xs : List A) → drop n (take n xs) ≡ []
  drop-take zero xs = refl
  drop-take (suc n) [] = refl
  drop-take (suc n) (x ∷ xs) = drop-take n xs

  pub drop-take-suc :
      (k m : ℕ) (xs : List A) (x : A)
      → k < m
      → get_elem? xs k ≡ some x
      → drop k (take m xs) ≡ x ∷ drop (suc k) (take m xs)
  drop-take-suc k zero xs x h g = absurd (omega arith)
  drop-take-suc k (suc m) [] x h g = cc
  drop-take-suc zero (suc m) (y ∷ xs) x h g = cc
  drop-take-suc (suc k) (suc m) (y ∷ xs) x h g = drop-take-suc k m xs x (omega arith) g

  pub drop-append_add : (xs ys : List A) (k : ℕ) → drop (length xs + k) (xs ++ ys) ≡ drop k ys
  drop-append_add [] ys k = let same : 0 + k ≡ k = omega arith in rw same refl
  drop-append_add (x ∷ xs) ys k =
      let same : suc (length xs) + k ≡ suc (length xs + k) = omega arith in
      rw same (drop-append_add xs ys k)

  pub take-all : (n : ℕ) (xs : List A) → length xs ≤ n → take n xs ≡ xs
  take-all zero [] h = refl
  take-all zero (x ∷ xs) h = absurd (omega arith)
  take-all (suc n) [] h = refl
  take-all (suc n) (x ∷ xs) h = ap (λ (t : List A). x ∷ t) (take-all n xs (omega arith))

  pub drop-all : (n : ℕ) (xs : List A) → length xs ≤ n → drop n xs ≡ []
  drop-all zero [] h = refl
  drop-all zero (x ∷ xs) h = absurd (omega arith)
  drop-all (suc n) [] h = refl
  drop-all (suc n) (x ∷ xs) h = drop-all n xs (omega arith)

  pub take-short : (n m : ℕ) (xs : List A) → length xs ≤ n → length xs ≤ m → take n xs ≡ take m xs
  take-short zero zero [] h k = refl
  take-short zero (suc m) [] h k = refl
  take-short (suc n) zero [] h k = refl
  take-short (suc n) (suc m) [] h k = refl
  take-short zero m (x ∷ xs) h k = absurd (omega arith)
  take-short (suc n) zero (x ∷ xs) h k = absurd (omega arith)
  take-short (suc n) (suc m) (x ∷ xs) h k =
      ap (λ (t : List A). x ∷ t) (take-short n m xs (omega arith) (omega arith))

  pub drop-drop : (n m : ℕ) (xs : List A) → drop n (drop m xs) ≡ drop (m + n) xs
  drop-drop n zero xs = let same : 0 + n ≡ n = omega arith in rw same refl
  drop-drop zero (suc m) [] = let same : suc m + 0 ≡ suc m = omega arith in rw same refl
  drop-drop (suc n) (suc m) [] =
      let same : suc m + suc n ≡ suc (m + suc n) = omega arith in rw same refl
  drop-drop n (suc m) (x ∷ xs) =
      let same : suc m + n ≡ suc (m + n) = omega arith in rw same (drop-drop n m xs)

  take-nil : (n : ℕ) → take n [] ≡ []
  take-nil zero = refl
  take-nil (suc n) = refl

  -- What `take` leaves out first does not matter.
  pub drop-take_comm : (n m : ℕ) (xs : List A) → drop n (take m xs) ≡ take (m - n) (drop n xs)
  drop-take_comm zero m xs = let same : m - 0 ≡ m = omega arith in rw same refl
  drop-take_comm (suc n) zero [] = let same : 0 - suc n ≡ 0 = omega arith in rw same refl
  drop-take_comm (suc n) zero (x ∷ xs) = let same : 0 - suc n ≡ 0 = omega arith in rw same refl
  drop-take_comm (suc n) (suc m) [] = sym (take-nil (suc m - suc n))
  drop-take_comm (suc n) (suc m) (x ∷ xs) =
      let same : suc m - suc n ≡ m - n = omega arith in rw same (drop-take_comm n m xs)

  pub take-take : (n m : ℕ) (xs : List A) → n ≤ m → take n (take m xs) ≡ take n xs
  take-take zero m xs h = refl
  take-take (suc n) zero xs h = absurd (omega arith)
  take-take (suc n) (suc m) [] h = refl
  take-take (suc n) (suc m) (x ∷ xs) h = ap (λ (t : List A). x ∷ t) (take-take n m xs (omega arith))

  pub take_length-take : (n : ℕ) (xs : List A) → take (length (take n xs)) xs ≡ take n xs
  take_length-take zero xs = refl
  take_length-take (suc n) [] = refl
  take_length-take (suc n) (x ∷ xs) = ap (λ (t : List A). x ∷ t) (take_length-take n xs)

  pub take_add : (n m : ℕ) (xs : List A) → take (n + m) xs ≡ take n xs ++ take m (drop n xs)
  take_add zero m xs = let same : 0 + m ≡ m = omega arith in rw same refl
  take_add (suc n) m [] =
      let same : suc n + m ≡ suc (n + m) = omega arith in rw (same, take-nil m) refl
  take_add (suc n) m (x ∷ xs) =
      let same : suc n + m ≡ suc (n + m) = omega arith in
      rw same (ap (λ (t : List A). x ∷ t) (take_add n m xs))

  module _ {κ} (P : A → Type κ) where
    pub All-append : (xs ys : List A) → All P xs → All P ys → All P (xs ++ ys)
    All-append [] ys h k = k
    All-append (x ∷ xs) ys (p, h) k = (p, All-append xs ys h k)

    pub get_elem?-All : (xs : List A) (i : ℕ) (x : A) → All P xs → get_elem? xs i ≡ some x → P x
    get_elem?-All [] i x h e = absurd cc
    get_elem?-All (y ∷ xs) zero x (p, h) e = subst P (get_inj e) p
    get_elem?-All (y ∷ xs) (suc i) x (p, h) e = get_elem?-All xs i x h e

    pub All-append_left : (xs ys : List A) → All P (xs ++ ys) → All P xs
    All-append_left [] ys h = tt
    All-append_left (x ∷ xs) ys (p, h) = (p, All-append_left xs ys h)

    pub All-append_right : (xs ys : List A) → All P (xs ++ ys) → All P ys
    All-append_right [] ys h = h
    All-append_right (x ∷ xs) ys (p, h) = All-append_right xs ys h

    pub All-weaken : (Q : A → Type κ) → ((x : A) → P x → Q x) → (xs : List A) → All P xs → All Q xs
    All-weaken Q f [] h = tt
    All-weaken Q f (x ∷ xs) (p, h) = (f x p, All-weaken Q f xs h)

  pub All-trivial : (xs : List A) → All (λ x. Unit {0}) xs
  All-trivial [] = tt
  All-trivial (x ∷ xs) = (tt, All-trivial xs)

  pub map-append :
      {B : Type 0} (f : A → B) (xs ys : List A) → map f (xs ++ ys) ≡ map f xs ++ map f ys
  map-append f [] ys = refl
  map-append f (x ∷ xs) ys = ap (λ (l : List _). f x ∷ l) (map-append f xs ys)

module _ {A : Type 0} (P : A → Type 0) where
  pub concat-All : (xss : List (List A)) → All P (concat xss) → All (λ xs. All P xs) xss
  concat-All [] h = tt
  concat-All (xs ∷ xss) h =
      (All-append_left P xs (concat xss) h, concat-All xss (All-append_right P xs (concat xss) h))

  pub Any-append : (xs ys : List A) → Any P xs ⊎ Any P ys → Any P (xs ++ ys)
  Any-append [] ys (inl h) = absurd h
  Any-append [] ys (inr h) = h
  Any-append (x ∷ xs) ys (inl (inl p)) = inl p
  Any-append (x ∷ xs) ys (inl (inr h)) = inr (Any-append xs ys (inl h))
  Any-append (x ∷ xs) ys (inr h) = inr (Any-append xs ys (inr h))

  pub Any-concat : (xss : List (List A)) → Any (λ xs. Any P xs) xss → Any P (concat xss)
  Any-concat [] h = absurd h
  Any-concat (xs ∷ xss) (inl h) = Any-append xs (concat xss) (inl h)
  Any-concat (xs ∷ xss) (inr h) = Any-append xs (concat xss) (inr (Any-concat xss h))
