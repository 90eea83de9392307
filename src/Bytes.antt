-- ===== src/Bytes.antt =====
-- Byte strings as lists of numbers: the little-endian integers that the writers emit
-- (`byteorder::WriteBytesExt` in src/zipwriter.rs), and readers of such strings.
pub mod Slices
use tzip.Prelude.{
  ℕ, zero, suc, ◌+◌, ◌*◌, ◌/◌, ◌%◌, ◌^◌, ◌<◌, ◌≡◌, refl, ap, Bool, true, false, ◌&&◌, ◌==◌, Option,
  none, some, List, [], ◌∷◌, ◌++◌, arith, append-nil, length, take, drop, ◌-◌, All, ◌>>=◌,
}
use native.Mathlib.Nat.{pow-succ'}

abbrev pub Bytes : Type 0
Bytes = List ℕ

abbrev pub IsByte : ℕ → Type 0
IsByte b = b < 256

-- `write_u16`, `write_u32` and `write_u64` are `le 2`, `le 4` and `le 8`. A value that is too large
-- loses its high bytes, as in the casts `as u16` and `as u32`.
unfoldable pub le : ℕ → ℕ → Bytes
le zero v = []
le (suc k) v = v % 256 ∷ le k (v / 256)

-- A reader takes a value off the front of its input.
abbrev pub Reader {ℓ} : Type ℓ → Type ℓ
Reader A = Bytes → Option (A × Bytes)

unfoldable pub read_le : ℕ → Reader ℕ
read_le zero bs = some (0, bs)
read_le (suc k) [] = none
read_le (suc k) (b ∷ bs) = do (v, rest) ← read_le k bs; some (b + 256 * v, rest)

unfoldable pub read_bytes : ℕ → Reader Bytes
read_bytes zero bs = some ([], bs)
read_bytes (suc n) [] = none
read_bytes (suc n) (b ∷ bs) = do (xs, rest) ← read_bytes n bs; some (b ∷ xs, rest)

pub length-le : (k v : ℕ) → length (le k v) ≡ k
unfolding le
length-le zero v = refl
length-le (suc k) v = ap suc (length-le k (v / 256))

pub le-IsByte : (k v : ℕ) → All IsByte (le k v)
unfolding le
le-IsByte zero v = tt
le-IsByte (suc k) v = (omega arith, le-IsByte k (v / 256))

-- The bytes of a value that fits are read back, and what follows is left.
pub read_le-le :
    (k v : ℕ) (rest : Bytes) → v < 256 ^ k → read_le k (le k v ++ rest) ≡ some (v, rest)
unfolding le read_le
read_le-le zero v rest h = ground arith
read_le-le (suc k) v rest h = ground (arith, read_le-le k (v / 256) rest, pow-succ' 256 k)

pub read_le-le_end : (k v : ℕ) → v < 256 ^ k → read_le k (le k v) ≡ some (v, [])
read_le-le_end k v h = rw append-nil at (read_le-le k v [] h)

pub read_bytes-append : (xs rest : Bytes) → read_bytes (length xs) (xs ++ rest) ≡ some (xs, rest)
unfolding read_bytes
read_bytes-append [] rest = refl
read_bytes-append (x ∷ xs) rest = ground (arith, read_bytes-append xs rest)

abbrev pub bytes_eq : Bytes → Bytes → Bool
bytes_eq [] [] = true
bytes_eq [] (y ∷ ys) = false
bytes_eq (x ∷ xs) [] = false
bytes_eq (x ∷ xs) (y ∷ ys) = x == y && bytes_eq xs ys

pub bytes_eq_refl : (xs : Bytes) → bytes_eq xs xs ≡ true
bytes_eq_refl [] = refl
bytes_eq_refl (x ∷ xs) = ground (arith, bytes_eq_refl xs)

pub bytes_eq_sound : (xs ys : Bytes) → bytes_eq xs ys ≡ true → xs ≡ ys
bytes_eq_sound [] [] h = refl
bytes_eq_sound [] (y ∷ ys) h = absurd cc
bytes_eq_sound (x ∷ xs) [] h = absurd cc
bytes_eq_sound (x ∷ xs) (y ∷ ys) h = ground (arith, bytes_eq_sound xs ys)

-- `buf[from..from + bs.len()].copy_from_slice(bs)`
unfoldable pub copy_from_slice : ℕ → Bytes → Bytes → Bytes
copy_from_slice from bs buf = take from buf ++ (bs ++ drop (from + length bs) buf)

-- `&buf[from..to]`
unfoldable pub slice : ℕ → ℕ → Bytes → Bytes
slice from to buf = take (to - from) (drop from buf)
