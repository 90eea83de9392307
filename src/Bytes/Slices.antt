-- ===== src/Bytes/Slices.antt =====
-- Slices of a buffer, read and written.
use tzip.Prelude.{
  ℕ, zero, suc, ◌+◌, ◌-◌, ◌≤◌, ◌<◌, ◌≡◌, refl, sym, ap, ◌∙◌, ◌⊎◌, inl, inr, some, ◌∷◌, get_elem?,
  arith, [], ◌++◌, length, take, drop, length-append, length-take, length-drop, take-append_length,
  drop-append_length, drop-append_add, append_assoc, append-nil, drop-take_comm, take-take,
  drop-drop,
}
use tzip.Bytes.{Bytes, copy_from_slice, slice}

-- Writing over the middle of three pieces.
pub copy_from_slice-middle :
    (a b c bs : Bytes) (n : ℕ)
    → length a ≡ n
    → length b ≡ length bs
    → copy_from_slice n bs (a ++ (b ++ c)) ≡ a ++ (bs ++ c)
unfolding copy_from_slice
copy_from_slice-middle a b c bs n hn h =
    rw (← hn, ← h, take-append_length a (b ++ c), drop-append_add a (b ++ c) (length b))
      (ap (λ (t : Bytes). a ++ (bs ++ t)) (drop-append_length b c))

pub slice-middle :
    (a b c : Bytes) (n m : ℕ) → length a ≡ n → n + length b ≡ m → slice n m (a ++ (b ++ c)) ≡ b
unfolding slice
slice-middle a b c n m hn hm =
    let width : m - n ≡ length b = omega arith in
    rw (width, ← hn, drop-append_length a (b ++ c)) (take-append_length b c)

pub copy_from_slice-last :
    (a b c bs : Bytes) (n : ℕ)
    → length a + length b ≡ n
    → length c ≡ length bs
    → copy_from_slice n bs (a ++ (b ++ c)) ≡ a ++ (b ++ bs)
copy_from_slice-last a b c bs n hn h =
    let whole = copy_from_slice-middle (a ++ b) c [] bs n (length-append a b ∙ hn) h in
    rw (append_assoc a b (c ++ []), append-nil c, append_assoc a b (bs ++ []), append-nil bs) at
      whole

-- A slice of a slice.
pub slice-slice :
    (a b off len : ℕ) (xs : Bytes)
    → a ≤ off
    → off + len ≤ b
    → slice (off - a) (off - a + len) (slice a b xs) ≡ slice off (off + len) xs
unfolding slice
slice-slice a b off len xs h k =
    let width : off - a + len - (off - a) ≡ len = omega arith in
    let width' : off + len - off ≡ len = omega arith in
    let at_off : a + (off - a) ≡ off = omega arith in
    rw
      (
        width,
        width',
        drop-take_comm (off - a) (b - a) (drop a xs),
        drop-drop (off - a) a xs,
        at_off,
      )
      (take-take len (b - a - (off - a)) (drop off xs) (omega arith))

pub length-slice : (a b : ℕ) (xs : Bytes) → b ≤ length xs → length (slice a b xs) ≡ b - a
unfolding slice
length-slice a b xs h = omega (arith, length-take (b - a) (drop a xs), length-drop a xs)

pub length-copy_from_slice :
    (n : ℕ) (bs xs : Bytes)
    → n + length bs ≤ length xs
    → length (copy_from_slice n bs xs) ≡ length xs
unfolding copy_from_slice
length-copy_from_slice n bs xs h = omega (
  arith,
  length-append (take n xs) (bs ++ drop (n + length bs) xs),
  length-append bs (drop (n + length bs) xs),
  length-take n xs,
  length-drop (n + length bs) xs,
)

get_elem?-take :
    (n k v : ℕ) (xs : Bytes)
    → get_elem? (take n xs) k ≡ some v
    → (k < n) × (get_elem? xs k ≡ some v)
get_elem?-take zero k v xs h = absurd cc
get_elem?-take (suc n) k v [] h = absurd cc
get_elem?-take (suc n) zero v (x ∷ xs) h = (omega arith, h)
get_elem?-take (suc n) (suc k) v (x ∷ xs) h =
    let (less, there) = get_elem?-take n k v xs h in (omega arith, there)

get_elem?-drop : (n k : ℕ) (xs : Bytes) → get_elem? (drop n xs) k ≡ get_elem? xs (n + k)
get_elem?-drop zero k xs = let same : 0 + k ≡ k = omega arith in rw same refl
get_elem?-drop (suc n) k [] = refl
get_elem?-drop (suc n) k (x ∷ xs) =
    let same : suc n + k ≡ suc (n + k) = omega arith in rw same (get_elem?-drop n k xs)

get_elem?-append :
    (k v : ℕ) (xs ys : Bytes)
    → get_elem? (xs ++ ys) k ≡ some v
    → ((k < length xs) × (get_elem? xs k ≡ some v))
      ⊎ ((length xs ≤ k) × (get_elem? ys (k - length xs) ≡ some v))
get_elem?-append k v [] ys h = let same : k - 0 ≡ k = omega arith in inr (omega arith, rw same h)
get_elem?-append zero v (x ∷ xs) ys h = inl (omega arith, h)
get_elem?-append (suc k) v (x ∷ xs) ys h = elim (get_elem?-append k v xs ys h) [
  | inl (less, there) ↦ inl (omega arith, there)
  | inr (behind, there) ↦
      let same : suc k - suc (length xs) ≡ k - length xs = omega arith in
      inr (omega arith, rw same there)
]

-- A byte of a slice is one of the buffer.
pub get_elem?-slice :
    (a b k v : ℕ) (xs : Bytes) → get_elem? (slice a b xs) k ≡ some v → get_elem? xs (a + k) ≡ some v
unfolding slice
get_elem?-slice a b k v xs h =
    sym (get_elem?-drop a k xs) ∙ (get_elem?-take (b - a) k v (drop a xs) h).1

-- A byte of a buffer after a copy is one of what was copied, or it was there before.
pub get_elem?-copy_from_slice :
    (n k v : ℕ) (bs xs : Bytes)
    → n ≤ length xs
    → get_elem? (copy_from_slice n bs xs) k ≡ some v
    → ((n ≤ k) × (k < n + length bs) × (get_elem? bs (k - n) ≡ some v))
      ⊎ (((k < n) ⊎ (n + length bs ≤ k)) × (get_elem? xs k ≡ some v))
unfolding copy_from_slice
get_elem?-copy_from_slice n k v bs xs room h =
    let front : length (take n xs) ≡ n = omega (arith, length-take n xs) in
    elim (get_elem?-append k v (take n xs) (bs ++ drop (n + length bs) xs) h) [
      | inl (less, there) ↦
          let (before, same) = get_elem?-take n k v xs there in inr (inl before, same)
      | inr (behind, there) ↦
          elim (get_elem?-append (k - length (take n xs)) v bs (drop (n + length bs) xs) there) [
            | inl (less, copied) ↦ inl (omega arith, omega arith, rw front at copied)
            | inr (after, rest) ↦
                let place : n + length bs + (k - length (take n xs) - length bs) ≡ k =
                  omega arith in
                inr (
                  inr (omega arith),
                  ap (get_elem? xs) (sym place)
                      ∙ (sym
                            (get_elem?-drop (n + length bs) (k - length (take n xs) - length bs) xs)
                          ∙ rest),
                )
          ]
    ]
