-- ===== src/Prelude/Table.antt =====
-- A test on every number of a range of 2 ^ k, by evaluation. Halving the range keeps the depth small.
use Prim.Native.Nat.{ℕ, zero, suc, ◌+◌, ◌^◌, ◌≤◌, ◌<◌}
use mathlib.Core.Path.{◌≡◌}
use mathlib.Core.Bool.{Bool, true, ◌&&◌}
use native.Mathlib.Nat.{two-pow-succ}
use native.Mathlib.Omega.{arith}

unfoldable pub all_from : ℕ → ℕ → (ℕ → Bool) → Bool
all_from zero lo p = p lo
all_from (suc k) lo p = all_from k lo p && all_from k (lo + 2 ^ k) p

pub all_from_sound :
    (k lo : ℕ) (p : ℕ → Bool) (x : ℕ)
    → all_from k lo p ≡ true
    → lo ≤ x
    → x < lo + 2 ^ k
    → p x ≡ true
unfolding all_from
all_from_sound zero lo p x h a b = ground (arith)
all_from_sound (suc k) lo p x h a b =
    ground (arith, two-pow-succ k, all_from_sound k lo p x, all_from_sound k (lo + 2 ^ k) p x)
