-- ===== src/Pipeline/Split.antt =====
-- The splitter thread of `run` in src/pipeline.rs: the feed, in at most `n` chunks of neighbours.
pub mod Cover
use tzip.Prelude.{
  ℕ, zero, suc, ◌+◌, ◌-◌, ◌*◌, ◌/◌, min, leb, List, [], ◌∷◌, if◌then◌else◌, length, take, drop,
}

module _ {A : Type 0} where
  -- `for i in 0..n`, with `rounds` of its rounds left. A chunk is `items[start..end]`.
  unfoldable pub split_from : ℕ → ℕ → ℕ → List A → List (List A)
  split_from zero i per items = []
  split_from (suc rounds) i per items =
      let start = i * per in
      let end = min ((i + 1) * per) (length items) in
      let rest = split_from rounds (i + 1) per items in
      if leb (length items) start then [] else take (end - start) (drop start items) ∷ rest

  unfoldable pub split : ℕ → List A → List (List A)
  split n items = split_from n 0 ((length items + n - 1) / n) items
