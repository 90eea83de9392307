-- ===== src/Prelude/Bits.antt =====
-- `|` of numbers whose bits do not overlap.
use Prim.Native.Nat.{
  ℕ, zero, suc, ◌+◌, ◌*◌, ◌/◌, ◌%◌, ◌^◌, ◌≤◌, ◌<◌, max, bit_or, digits, bit_or-bitwise,
}
use mathlib.Core.Path.{◌≡◌, refl, ap}
use native.Mathlib.Nat.{two-pow-succ}
use native.Mathlib.Omega.{arith}

-- What the native operation stands for: the digits of `a` and `b`, with `b` alone where `a` ends.
abbrev join : ℕ → ℕ → ℕ → ℕ
join n a b = digits (λ b. b) max n a b

join-fuel : (n m a b : ℕ) → a ≤ n → a ≤ m → join n a b ≡ join m a b
join-fuel zero zero a b p q = refl
join-fuel zero (suc m) zero b p q = refl
join-fuel zero (suc m) (suc a) b p q = absurd (omega arith)
join-fuel (suc n) zero zero b p q = refl
join-fuel (suc n) zero (suc a) b p q = absurd (omega arith)
join-fuel (suc n) (suc m) zero b p q = refl
join-fuel (suc n) (suc m) (suc a) b p q =
    omega (arith, join-fuel n m (suc a / 2) (b / 2) (omega arith) (omega arith))

zero-bit_or : (b : ℕ) → bit_or 0 b ≡ b
zero-bit_or b = bit_or-bitwise 0 b

bit_or_step : (a b : ℕ) → bit_or a b ≡ bit_or (a / 2) (b / 2) * 2 + max (a % 2) (b % 2)
bit_or_step zero b = omega (arith, zero-bit_or b, zero-bit_or (b / 2))
bit_or_step (suc a) b = omega (
  arith,
  bit_or-bitwise (suc a) b,
  bit_or-bitwise (suc a / 2) (b / 2),
  join-fuel a (suc a / 2) (suc a / 2) (b / 2) (omega arith) (omega arith),
)

bit_or-zero_fuel : (n a : ℕ) → a ≤ n → bit_or a 0 ≡ a
bit_or-zero_fuel n zero h = refl
bit_or-zero_fuel zero (suc a) h = absurd (omega arith)
bit_or-zero_fuel (suc n) (suc a) h =
    omega (arith, bit_or_step (suc a) 0, bit_or-zero_fuel n (suc a / 2) (omega arith))

mul-twice : (a t : ℕ) → a * (t + t) ≡ 2 * (a * t)
mul-twice a t = omega arith

shift_suc : (a k : ℕ) → a * 2 ^ suc k ≡ 2 * (a * 2 ^ k)
shift_suc a k = rw (two-pow-succ k) (mul-twice a (2 ^ k))

bit_or_double : (x b : ℕ) → bit_or x (b / 2) ≡ x + b / 2 → bit_or (2 * x) b ≡ 2 * x + b
bit_or_double x b h =
    let half : 2 * x / 2 ≡ x = omega arith in
    let even : 2 * x % 2 ≡ 0 = omega arith in
    omega (arith, bit_or_step (2 * x) b, ap (λ (t : ℕ). bit_or t (b / 2)) half, h, even)

-- A field below the lowest set bit of a number is added to it.
pub bit_or-shift : (k a b : ℕ) → b < 2 ^ k → bit_or (a * 2 ^ k) b ≡ a * 2 ^ k + b
bit_or-shift zero a b h = ground (arith, bit_or-zero_fuel a a)
bit_or-shift (suc k) a b h =
    let twice : a * 2 ^ suc k ≡ 2 * (a * 2 ^ k) = shift_suc a k in
    let low : b / 2 < 2 ^ k = omega (arith, two-pow-succ k) in
    rw twice (bit_or_double (a * 2 ^ k) b (bit_or-shift k a (b / 2) low))
