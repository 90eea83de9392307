-- ===== src/Time/Dos.antt =====
-- `unix_to_dos` of src/walker.rs (`dos_time_from_unix` of src/bulk_walker.rs): seconds of Unix time as
-- the two 16-bit fields of MS-DOS.
pub mod Decode
use Prim.Native.Nat.{bit_or}
use tzip.Prelude.{ℕ, ◌+◌, ◌-◌, ◌*◌, ◌/◌, ◌%◌, ◌^◌, Bool, true, ltb, if◌then◌else◌}
use tzip.Prelude.Int.{ℤ, pos, negsuc}
use tzip.Time.Civil.{civil_from_days}

-- `as i32`, by the bit pattern.
unfoldable pub i32_of_bits : ℕ → ℤ
i32_of_bits w = if ltb w (2 ^ 31) then pos w else negsuc (2 ^ 32 - w - 1)

unfoldable pub as_i32 : ℤ → ℤ
unfolding i32_of_bits
as_i32 (pos n) = i32_of_bits (n % 2 ^ 32)
as_i32 (negsuc n) = i32_of_bits (2 ^ 32 - 1 - n % 2 ^ 32)

-- `x << k` on a `u16` loses the high bits.
unfoldable pub shl16 : ℕ → ℕ → ℕ
shl16 x k = x * 2 ^ k % 2 ^ 16

-- 1980-01-01 00:00:00
abbrev pub dos_epoch : ℕ × ℕ
dos_epoch = (bit_or (2 ^ 9) (2 ^ 5), 0)

unfoldable pub dos_fields : ℤ → ℕ → ℕ → ℕ → ℕ × ℕ
dos_fields (negsuc year) m d sec_of_day = dos_epoch
dos_fields (pos year) m d sec_of_day =
    let hour = sec_of_day / 3600 in
    let minute = sec_of_day / 60 % 60 in
    let sec2 = sec_of_day % 60 / 2 in
    if ltb year 1980 then dos_epoch else (
      bit_or (bit_or (shl16 ((year - 1980) % 2 ^ 16) 9) (shl16 m 5)) d,
      bit_or (bit_or (shl16 hour 11) (shl16 minute 5)) sec2,
    )

unfoldable pub clamp_secs : ℤ → ℕ
clamp_secs (pos n) = n
clamp_secs (negsuc n) = 0

unfoldable pub unix_to_dos : ℤ → ℕ × ℕ
unix_to_dos unix =
    let secs = clamp_secs unix in
    let days = secs / 86_400 in
    let sec_of_day = secs % 86_400 in
    let (y, m, d) = civil_from_days (pos days) in dos_fields (as_i32 y) m d sec_of_day
