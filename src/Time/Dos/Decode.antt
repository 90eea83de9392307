-- ===== src/Time/Dos/Decode.antt =====
-- Reading the MS-DOS fields of src/walker.rs back.
use tzip.Prelude.{ℕ, ◌+◌, ◌-◌, ◌*◌, ◌/◌, ◌%◌, ◌^◌, ◌≤◌, ◌<◌, ◌≡◌, false, arith, ltb}
use mathlib.Core.Path.{subst}
use tzip.Prelude.Int.{pos}
use tzip.Prelude.Bits.{bit_or-shift}
use Prim.Native.Nat.{bit_or}
use tzip.Time.Civil.{month_length}
use tzip.Time.Civil.Step.{calendar, civil_from_days-calendar, calendar-IsDate, IsDate}
use tzip.Time.Dos.{as_i32, i32_of_bits, shl16, dos_fields, unix_to_dos, clamp_secs}

-- The fields of an MS-DOS date and time.
pub record DosTime : Type 0 where
  pub year : ℕ
  pub month : ℕ
  pub day : ℕ
  pub hour : ℕ
  pub minute : ℕ
  pub second : ℕ

unfoldable pub read_dos : ℕ × ℕ → DosTime
read_dos (date, time) = record {
  year = 1980 + date / 512;
  month = date / 32 % 16;
  day = date % 32;
  hour = time / 2048;
  minute = time / 32 % 64;
  second = 2 * (time % 32);
}

-- What the two fields can hold of a date and of a second of the day: seconds in steps of two, and the
-- year modulo the 128 years from 1980 on.
unfoldable pub dos_of : ℕ × ℕ × ℕ → ℕ → DosTime
dos_of (y, m, d) s = record {
  year = 1980 + (y - 1980) % 128;
  month = m;
  day = d;
  hour = s / 3600;
  minute = s % 3600 / 60;
  second = s % 60 / 2 * 2;
}

month_length-le : (y m : ℕ) → month_length y m ≤ 31
unfolding month_length
month_length-le y m = ground arith

date_word :
    (y m d : ℕ)
    → m < 16
    → d < 32
    → bit_or (bit_or (shl16 (y % 2 ^ 16) 9) (shl16 m 5)) d ≡ y % 128 * 512 + m * 32 + d
unfolding shl16
date_word y m d hm hd =
    let x = y % 128 in
    let top : y % 2 ^ 16 * 2 ^ 9 % 2 ^ 16 ≡ x * 2 ^ 9 = omega arith in
    let mid : m * 2 ^ 5 % 2 ^ 16 ≡ m * 2 ^ 5 = omega arith in
    let sum : x * 2 ^ 9 + m * 2 ^ 5 ≡ (x * 16 + m) * 2 ^ 5 = omega arith in
    rw (top, mid, bit_or-shift 9 x (m * 2 ^ 5) (omega arith), sum, bit_or-shift 5 (x * 16 + m) d hd)
      (omega arith)

time_word :
    (h m s : ℕ)
    → h < 32
    → m < 64
    → s < 32
    → bit_or (bit_or (shl16 h 11) (shl16 m 5)) s ≡ h * 2048 + m * 32 + s
unfolding shl16
time_word h m s hh hm hs =
    let top : h * 2 ^ 11 % 2 ^ 16 ≡ h * 2 ^ 11 = omega arith in
    let mid : m * 2 ^ 5 % 2 ^ 16 ≡ m * 2 ^ 5 = omega arith in
    let sum : h * 2 ^ 11 + m * 2 ^ 5 ≡ (h * 64 + m) * 2 ^ 5 = omega arith in
    rw
      (top, mid, bit_or-shift 11 h (m * 2 ^ 5) (omega arith), sum, bit_or-shift 5 (h * 64 + m) s hs)
      (omega arith)

abbrev dos_time : (y m d h n s : ℕ) → DosTime
dos_time y m d h n s = record { year = y; month = m; day = d; hour = h; minute = n; second = s }

dos_time-ext :
    {y m d h n s y' m' d' h' n' s' : ℕ}
    → y ≡ y'
    → m ≡ m'
    → d ≡ d'
    → h ≡ h'
    → n ≡ n'
    → s ≡ s'
    → dos_time y m d h n s ≡ dos_time y' m' d' h' n' s'
dos_time-ext py pm pd ph pn ps = λ i. dos_time (py i) (pm i) (pd i) (ph i) (pn i) (ps i)

read_dos-words :
    (y m d s : ℕ)
    → m < 16
    → d < 32
    → s < 86_400
    → read_dos (y % 128 * 512 + m * 32 + d, s / 3600 * 2048 + s / 60 % 60 * 32 + s % 60 / 2)
      ≡ dos_of (y + 1980, m, d) s
unfolding read_dos dos_of
read_dos-words y m d s hm hd hs =
    dos_time-ext (omega arith) (omega arith) (omega arith) (omega arith) (omega arith) (omega arith)

dos_fields-read :
    (y m d s : ℕ)
    → m < 16
    → d < 32
    → s < 86_400
    → read_dos (dos_fields (pos (y + 1980)) m d s) ≡ dos_of (y + 1980, m, d) s
unfolding dos_fields
dos_fields-read y m d s hm hd hs =
    let late : ltb (y + 1980) 1980 ≡ false = ground arith in
    let years : y + 1980 - 1980 ≡ y = omega arith in
    rw
      (
        late,
        years,
        date_word y m d hm hd,
        time_word (s / 3600) (s / 60 % 60) (s % 60 / 2) (omega arith) (omega arith) (omega arith),
      )
      (read_dos-words y m d s hm hd hs)

as_i32-pos : (y : ℕ) → y < 2 ^ 31 → as_i32 (pos y) ≡ pos y
unfolding as_i32 i32_of_bits
as_i32-pos y h = ground arith

-- From 1980 on, and for years below 2^31, the two fields hold the date of the calendar and the time of day, the seconds rounded
-- down to an even number and the year modulo the 128 years that the seven bits of the field reach.
pub unix_to_dos-dos_of :
    (n y m d : ℕ)
    → calendar (n / 86_400) ≡ (y, m, d)
    → 1980 ≤ y
    → y < 2 ^ 31
    → read_dos (unix_to_dos (pos n)) ≡ dos_of (y, m, d) (n % 86_400)
unfolding unix_to_dos clamp_secs
unix_to_dos-dos_of n y m d h lo hi =
    let date : IsDate (y, m, d) = subst IsDate h (calendar-IsDate (n / 86_400)) in
    let short = month_length-le y m in
    let later : y ≡ y - 1980 + 1980 = omega arith in
    rw (civil_from_days-calendar (n / 86_400), h, as_i32-pos y hi)
      (rw later
        (dos_fields-read (y - 1980) m d (n % 86_400) (omega arith) (omega arith) (omega arith)))
