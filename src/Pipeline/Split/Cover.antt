-- ===== src/Pipeline/Split/Cover.antt =====
-- The chunks of the splitter of src/pipeline.rs against the feed.
use tzip.Prelude.{
  ℕ, zero, suc, ◌+◌, ◌-◌, ◌*◌, ◌/◌, ◌≤◌, ◌<◌, ◌≡◌, refl, sym, arith, min, leb, Bool-cases, ◌⊎◌, inl,
  inr, List, length, take, drop, concat, All, take-append-drop, drop-all, take-short, drop-drop,
  length-take, length-drop,
}
use native.Mathlib.Nat.{div-add-mod, mod-lt}
use tzip.Pipeline.Split.{split_from, split}

-- `per` is large enough for `n` chunks.
ceil_enough : (t n : ℕ) → 1 ≤ n → t ≤ n * ((t + n - 1) / n)
ceil_enough t n h =
    omega (arith, div-add-mod (t + n - 1) n, mod-lt (t + n - 1) {m = n} (omega arith))

le-cases : (a b : ℕ) → (a ≤ b) ⊎ (b < a)
le-cases a b = omega arith

per_positive : (t n : ℕ) → 1 ≤ n → 1 ≤ t → 1 ≤ (t + n - 1) / n
per_positive t n h k = elim (le-cases 1 ((t + n - 1) / n)) [
  | inl some_per ↦ some_per
  | inr no_per ↦
      let none : (t + n - 1) / n ≡ 0 = omega arith in
      let enough : t ≤ n * 0 = rw none at (ceil_enough t n h) in absurd (omega arith)
]

module _ {A : Type 0} where
  -- One chunk, however much is left.
  chunk :
      (per start : ℕ) (xs : List A)
      → take (min (start + per) (length xs) - start) (drop start xs) ≡ take per (drop start xs)
  chunk per start xs = elim (le-cases (start + per) (length xs)) [
    | inl full ↦
        let width : min (start + per) (length xs) - start ≡ per = omega arith in rw width refl
    | inr short ↦
        take-short (min (start + per) (length xs) - start) per (drop start xs)
          (omega (arith, length-drop start xs)) (omega (arith, length-drop start xs))
  ]

  split_from-concat :
      (rounds i per : ℕ) (xs : List A)
      → length xs ≤ (i + rounds) * per
      → concat (split_from rounds i per xs) ≡ drop (i * per) xs
  unfolding split_from
  split_from-concat zero i per xs h = sym (drop-all (i * per) xs (omega arith))
  split_from-concat (suc rounds) i per xs h = elim (Bool-cases (leb (length xs) (i * per))) [
    | inl over ↦ rw over (sym (drop-all (i * per) xs (ground arith)))
    | inr more ↦
        let next : (i + 1) * per ≡ i * per + per = omega arith in
        rw
          (
            more,
            next,
            chunk per (i * per) xs,
            split_from-concat rounds (i + 1) per xs (omega arith),
          )
          (rw (next, ← drop-drop per (i * per) xs) (take-append-drop per (drop (i * per) xs)))
  ]

  -- A chunk holds something, and no more than `per`.
  abbrev pub IsChunk : ℕ → List A → Type 0
  IsChunk per c = (1 ≤ length c) × (length c ≤ per)

  split_from-IsChunk :
      (rounds i per : ℕ) (xs : List A) → 1 ≤ per → All (IsChunk per) (split_from rounds i per xs)
  unfolding split_from
  split_from-IsChunk zero i per xs h = tt
  split_from-IsChunk (suc rounds) i per xs h = elim (Bool-cases (leb (length xs) (i * per))) [
    | inl over ↦ rw over tt
    | inr more ↦
        let next : (i + 1) * per ≡ i * per + per = omega arith in
        let rest = drop (i * per) xs in
        let there : 1 ≤ length rest = ground (arith, length-drop (i * per) xs) in
        rw (more, next, chunk per (i * per) xs)
          (
            (omega (arith, length-take per rest), omega (arith, length-take per rest)),
            split_from-IsChunk rounds (i + 1) per xs h,
          )
  ]

  split_from-length :
      (rounds i per : ℕ) (xs : List A) → length (split_from rounds i per xs) ≤ rounds
  unfolding split_from
  split_from-length zero i per xs = omega arith
  split_from-length (suc rounds) i per xs = elim (Bool-cases (leb (length xs) (i * per))) [
    | inl over ↦ rw over (omega arith)
    | inr more ↦ rw more (omega (arith, split_from-length rounds (i + 1) per xs))
  ]

  -- The chunks put together are the feed, in its order; there are at most `n` of them, and none is empty
  -- or longer than the others may be.
  pub split-cover :
      (n : ℕ) (xs : List A)
      → 1 ≤ n
      → 1 ≤ length xs
      → (concat (split n xs) ≡ xs)
        × (length (split n xs) ≤ n)
        × All (IsChunk ((length xs + n - 1) / n)) (split n xs)
  unfolding split
  split-cover n xs h some_item =
      let per = (length xs + n - 1) / n in
      let enough = ceil_enough (length xs) n h in
      let first : 0 * per ≡ 0 = omega arith in
      let whole : concat (split_from n 0 per xs) ≡ xs =
        rw first at (split_from-concat n 0 per xs (omega arith)) in
      (
        whole,
        split_from-length n 0 per xs,
        split_from-IsChunk n 0 per xs (per_positive (length xs) n h some_item),
      )
