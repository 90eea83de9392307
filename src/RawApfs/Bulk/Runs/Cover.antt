-- ===== src/RawApfs/Bulk/Runs/Cover.antt =====
-- Runs of src/raw_apfs.rs against their tasks.
use tzip.Prelude.{
  ℕ, suc, ◌+◌, ◌-◌, ◌*◌, ◌/◌, ◌≤◌, ◌<◌, ◌≡◌, ◌↔◌, refl, ap, arith, max, Bool-cases, inl, inr, List,
  [], ◌∷◌, ◌++◌, All,
}
use native.Mathlib.Nat.{div-mul-le_self, lt-div-mul-add, div-lt_iff_lt-mul, mul-le-mul_right}
use tzip.RawApfs.Bulk.Task.{ExtentTask}
use tzip.RawApfs.Bulk.Runs.{end_of, touches, follows, grow, aligned_start, aligned_end}

-- A run: its tasks and those behind make up the input, its tasks lie within it, and it is no longer
-- than the cap unless its first task is.
pub record IsRun (limit start e : ℕ) (ts : List ExtentTask)
    (r : ℕ × List ExtentTask × List ExtentTask) : Type 0 where
  pub whole : r.1 ++ r.2 ≡ ts
  pub grows : e ≤ r.0
  pub inside : All (λ t. (start ≤ t.disk_offset) × (end_of t ≤ r.0)) r.1
  pub capped : r.0 ≤ max e (start + limit)

longer :
    (limit start e e' : ℕ) (t : ExtentTask) (ts : List ExtentTask)
    (r : ℕ × List ExtentTask × List ExtentTask)
    → start ≤ t.disk_offset
    → end_of t ≤ e'
    → e ≤ e'
    → e' ≤ max e (start + limit)
    → IsRun limit start e' ts r
    → IsRun limit start e (t ∷ ts) (r.0, t ∷ r.1, r.2)
longer limit start e e' t ts r h k l c run = record {
  whole = ap (λ (l : List ExtentTask). t ∷ l) run.whole;
  grows = omega (arith, run.grows);
  inside = ((h, omega (arith, run.grows)), run.inside);
  capped = omega (arith, run.capped);
}

pub grow-IsRun :
    (limit start e : ℕ) (ts : List ExtentTask)
    → All (λ t. start ≤ t.disk_offset) ts
    → IsRun limit start e ts (grow limit start e ts)
unfolding grow
grow-IsRun limit start e [] h = record {
  whole = refl;
  grows = omega arith;
  inside = tt;
  capped = omega arith;
}
grow-IsRun limit start e (t ∷ ts) (low, h) = elim (Bool-cases (touches limit start e t)) [
  | inl near ↦ rw near (
      longer limit start e (max e (end_of t)) t ts (grow limit start (max e (end_of t)) ts) low
        (omega arith) (omega arith) (unfold touches in ground arith)
        (grow-IsRun limit start (max e (end_of t)) ts h))
  | inr far ↦ elim (Bool-cases (follows limit start e t)) [
    | inl small ↦
        rw (far, small)
          (longer limit start e (end_of t) t ts (grow limit start (end_of t) ts) low (omega arith)
            (unfold follows in ground arith) (unfold follows in ground arith)
            (grow-IsRun limit start (end_of t) ts h))
    | inr big ↦
        rw (far, big)
          (record { whole = refl; grows = omega arith; inside = tt; capped = omega arith })
  ]
]

pub grow_below :
    (limit start e n : ℕ) (ts : List ExtentTask)
    → All (λ t. end_of t ≤ n) ts
    → e ≤ n
    → (grow limit start e ts).0 ≤ n
unfolding grow
grow_below limit start e n [] h le = le
grow_below limit start e n (t ∷ ts) (p, h) le = elim (Bool-cases (touches limit start e t)) [
  | inl near ↦ rw near (grow_below limit start (max e (end_of t)) n ts h (omega arith))
  | inr far ↦ elim (Bool-cases (follows limit start e t)) [
    | inl small ↦ rw (far, small) (grow_below limit start (end_of t) n ts h p)
    | inr big ↦ rw (far, big) le
  ]
]

-- The aligned range holds the run, and ends within a disk of whole blocks.
module _ (block_size : ℕ) (pos : 0 < block_size) where
  pub aligned_start_le : (run_start : ℕ) → aligned_start block_size run_start ≤ run_start
  unfolding aligned_start
  aligned_start_le run_start = div-mul-le_self run_start block_size

  pub aligned_end_ge : (run_end : ℕ) → run_end ≤ aligned_end block_size run_end
  unfolding aligned_end
  aligned_end_ge run_end =
      let room : run_end + block_size - 1
          < (run_end + block_size - 1) / block_size * block_size + block_size =
        lt-div-mul-add pos in
      omega arith

  pub aligned_end_le :
      (run_end blocks : ℕ)
      → run_end ≤ blocks * block_size
      → aligned_end block_size run_end ≤ blocks * block_size
  unfolding aligned_end
  aligned_end_le run_end blocks h =
      let below : run_end + block_size - 1 < suc blocks * block_size =
        let grown : suc blocks * block_size ≡ blocks * block_size + block_size = omega arith in
        omega arith in
      let q : (run_end + block_size - 1) / block_size < suc blocks =
        let i : ((run_end + block_size - 1) / block_size < suc blocks)
            ↔ (run_end + block_size - 1 < suc blocks * block_size) =
          div-lt_iff_lt-mul pos in
        i.1 below in
      mul-le-mul_right block_size (omega arith)
