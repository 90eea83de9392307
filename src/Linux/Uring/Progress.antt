-- ===== src/Linux/Uring/Progress.antt =====
-- One job of src/io_uring_src.rs.
use tzip.Prelude.{
  ℕ, zero, suc, ◌+◌, ◌≤◌, ◌≡◌, sym, ap, ◌∙◌, arith, some, some-inj, List, [], ◌∷◌, ◌++◌,
  append_assoc, length, get_elem?, take, drop, length-take, length-drop, length-append,
  take-append_length, take_add, take_length-take, map,
}
use tzip.Bytes.{Bytes, copy_from_slice}
use tzip.Linux.Uring.{JobState, start_state}

-- A read goes on where the last one ended.
pub advance :
    (st : JobState) (content got : Bytes) (n : ℕ)
    → length st.buf ≡ st.len
    → st.filled ≤ length content
    → take st.filled st.buf ≡ take st.filled content
    → got ≡ take n (drop st.filled content)
    → st.filled + length got ≤ st.len
    → (take (st.filled + length got) (copy_from_slice st.filled got st.buf)
        ≡ take (st.filled + length got) content)
      × (st.filled + length got ≤ length content)
unfolding copy_from_slice
advance st content got n whole within front e room =
    let rest : Bytes = drop (st.filled + length got) st.buf in
    let len : length (take st.filled st.buf ++ got) ≡ st.filled + length got =
      omega (arith, length-append (take st.filled st.buf) got, length-take st.filled st.buf) in
    let cut : take (st.filled + length got) (take st.filled st.buf ++ (got ++ rest))
        ≡ take st.filled st.buf ++ got =
      let flat = take-append_length (take st.filled st.buf ++ got) rest in
      rw (len, append_assoc (take st.filled st.buf) got rest) at flat in
    let same : got ≡ take (length got) (drop st.filled content) =
      rw e (sym (take_length-take n (drop st.filled content))) in
    let short = length-take n (drop st.filled content) in
    let left = length-drop st.filled content in
    let bytes = ap (λ (l : Bytes). length l) e in
    (
      cut
          ∙ (ap (λ (l : Bytes). l ++ got) front
              ∙ (ap (λ (l : Bytes). take st.filled content ++ l) same
                  ∙ sym (take_add st.filled (length got) content))),
      omega (arith, short, left, bytes),
    )

pub start-jobs :
    (ls : List ℕ) (i : ℕ) (st : JobState)
    → get_elem? (map start_state ls) i ≡ some st
    → (get_elem? ls i ≡ some st.len) × (st.filled ≡ 0) × (length st.buf ≡ 0)
start-jobs [] i st g = absurd cc
start-jobs (len ∷ ls) zero st g =
    let same = some-inj g in
    (
      ap (λ (x : JobState). some x.len) same,
      ap (λ (x : JobState). x.filled) (sym same),
      ap (λ (x : JobState). length x.buf) (sym same),
    )
start-jobs (len ∷ ls) (suc i) st g = start-jobs ls i st g
