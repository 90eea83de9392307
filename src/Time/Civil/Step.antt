-- ===== src/Time/Civil/Step.antt =====
-- `civil_from_days` of src/walker.rs against the Gregorian calendar, stepped day by day.
use tzip.Prelude.{
  ℕ, ◌+◌, ◌-◌, ◌*◌, ◌/◌, ◌≤◌, ◌<◌, ◌≡◌, refl, Bool, true, false, not, ◌&&◌, ◌||◌, arith, leb, ltb,
  ◌==◌, if◌then◌else◌, ◌⊎◌, inl, inr, ◌∙◌, sym, ap, zero, suc,
}
use tzip.Prelude.Table.{all_from, all_from_sound}
use native.Mathlib.Decide.{dec_lt}
use tzip.Prelude.Int.{ℤ, pos}
use tzip.Time.Civil.{
  civil_of, civil_from_days, yoe_of, month_day, of_doe, is_leap, month_length, next_day,
}

abbrev start : ℕ → ℕ
start y = 365 * y + y / 4 - y / 100

abbrev days_in : ℕ → ℕ
days_in y = if is_leap (y + 1) then 366 else 365

yoe_low : (doe : ℕ) → doe < 146_097 → start (yoe_of doe) ≤ doe
unfolding yoe_of
yoe_low doe h = omega arith

yoe_high : (doe : ℕ) → doe < 146_097 → doe < start (yoe_of doe) + days_in (yoe_of doe)
unfolding yoe_of is_leap
yoe_high doe h = ground arith

yoe_unique : (y doe : ℕ) → y < 400 → start y ≤ doe → doe < start y + days_in y → yoe_of doe ≡ y
unfolding yoe_of is_leap
yoe_unique y doe hy lo hi = ground arith

-- The months within a year that starts on 1 March; `leap` is of the calendar year that its February
-- belongs to.
month_step : Bool → ℕ → Bool
month_step leap doy =
    let (m, d) = month_day doy in
    let (m', d') = month_day (doy + 1) in
    let len =
      if m == 2
      then (if leap then 29 else 28)
      else if m == 4 || m == 6 || m == 9 || m == 11
      then 30
      else 31 in
    leb (if leap then 366 else 365) (doy + 1)
    || (if ltb d len
        then m' == m && d' == d + 1
        else not (m == 2) && (if ltb m 12 then m' == m + 1 && d' == 1 else m' == 1 && d' == 1))

month_table : (leap : Bool) → all_from 9 0 (month_step leap) ≡ true
unfolding all_from month_step month_day
month_table true = refl
month_table false = refl

abbrev date : ℕ → ℕ → ℕ × ℕ × ℕ
date y doy = let (m, d) = month_day doy in ((if leb m 2 then y + 1 else y), m, d)

date_within : (y doy : ℕ) → doy + 1 < days_in y → date y (doy + 1) ≡ next_day (date y doy)
unfolding month_step next_day month_length
date_within y doy h =
    ground
      (arith, all_from_sound 9 0 (month_step (is_leap (y + 1))) doy (month_table (is_leap (y + 1))))

date_over : (y doy : ℕ) → doy + 1 ≡ days_in y → date (y + 1) 0 ≡ next_day (date y doy)
unfolding month_day next_day month_length
date_over y doy h = ground arith

start_suc : (y : ℕ) → y + 1 < 400 → start (y + 1) ≡ start y + days_in y
unfolding is_leap
start_suc y h = ground arith

not_last : (y doe : ℕ) → doe < 146_096 → y < 400 → doe + 1 ≡ start y + days_in y → y + 1 < 400
unfolding is_leap
not_last y doe h hy e = ground arith

year_start : (y : ℕ) → y < 400 → yoe_of (start y) ≡ y
unfolding is_leap
year_start y h = yoe_unique y (start y) h (omega arith) (ground arith)

yoe_lt : (doe : ℕ) → doe < 146_097 → yoe_of doe < 400
unfolding yoe_of
yoe_lt doe h = omega arith

days_in-cases : (y doy : ℕ) → doy < days_in y → (doy + 1 < days_in y) ⊎ (doy + 1 ≡ days_in y)
days_in-cases y doy h = omega arith

of_doe_date : (doe y doy : ℕ) → yoe_of doe ≡ y → doe ≡ start y + doy → of_doe doe ≡ date y doy
unfolding of_doe
of_doe_date doe y doy hy hd = let same : doe - start y ≡ doy = omega arith in rw (hy, same) refl

-- Within an era a day is followed by the next one.
of_doe_step : (doe : ℕ) → doe < 146_096 → of_doe (doe + 1) ≡ next_day (of_doe doe)
of_doe_step doe h =
    let y = yoe_of doe in
    let doy = doe - start y in
    let lo = yoe_low doe (omega arith) in
    let hi = yoe_high doe (omega arith) in
    let split : doe ≡ start y + doy = omega arith in
    rw (of_doe_date doe y doy refl split) (elim (days_in-cases y doy (omega arith)) [
      | inl within ↦
          of_doe_date (doe + 1) y (doy + 1)
            (yoe_unique y (doe + 1) (yoe_lt doe (omega arith)) (omega arith) (omega arith))
            (omega arith)
          ∙ date_within y doy within
      | inr over ↦
          let next = not_last y doe h (yoe_lt doe (omega arith)) (omega arith) in
          let first : doe + 1 ≡ start (y + 1) = omega (arith, start_suc y next) in
          rw first (of_doe_date (start (y + 1)) (y + 1) 0 (year_start (y + 1) next) (omega arith))
          ∙ date_over y doy over
    ])

-- The calendar repeats after 400 years.
is_leap-add : (y era : ℕ) → is_leap (y + era * 400) ≡ is_leap y
unfolding is_leap
is_leap-add y era = ground arith

abbrev later : ℕ → ℕ × ℕ × ℕ → ℕ × ℕ × ℕ
later era (y, m, d) = (y + era * 400, m, d)

next_day-later : (era : ℕ) (t : ℕ × ℕ × ℕ) → next_day (later era t) ≡ later era (next_day t)
unfolding next_day month_length
next_day-later era (y, m, d) = ground (arith, is_leap-add y era)

-- `z` counts from 1 March of the year 0.
abbrev shifted : ℕ → ℕ × ℕ × ℕ
shifted z = later (z / 146_097) (of_doe (z - z / 146_097 * 146_097))

era_over : (era : ℕ) → later (era + 1) (of_doe 0) ≡ next_day (later era (of_doe 146_096))
unfolding of_doe next_day month_length month_day yoe_of is_leap
era_over era = ground arith

shifted_step : (z : ℕ) → shifted (z + 1) ≡ next_day (shifted z)
shifted_step z =
    let era = z / 146_097 in
    let doe = z - era * 146_097 in
    elim (dec_lt doe 146_096) [
      | yes within ↦
          let same : (z + 1) / 146_097 ≡ era = omega arith in
          let next : z + 1 - era * 146_097 ≡ doe + 1 = omega arith in
          rw (same, next)
            (ap (later era) (of_doe_step doe within) ∙ sym (next_day-later era (of_doe doe)))
      | no last ↦
          let over : (z + 1) / 146_097 ≡ era + 1 = omega arith in
          let zeroth : z + 1 - (era + 1) * 146_097 ≡ 0 = omega arith in
          let end : doe ≡ 146_096 = omega arith in rw (over, zeroth) (rw end (era_over era))
    ]

-- The date `n` days after 1 January 1970.
unfoldable pub calendar : ℕ → ℕ × ℕ × ℕ
calendar zero = (1970, 1, 1)
calendar (suc n) = next_day (calendar n)

shifted-calendar : (n : ℕ) → shifted (n + 719_468) ≡ calendar n
unfolding calendar
shifted-calendar zero = unfold of_doe month_day yoe_of in refl
shifted-calendar (suc n) =
    let same : suc n + 719_468 ≡ n + 719_468 + 1 = omega arith in
    rw same (shifted_step (n + 719_468) ∙ ap next_day (shifted-calendar n))

abbrev pub signed_year : ℕ × ℕ × ℕ → ℤ × ℕ × ℕ
signed_year (y, m, d) = (pos y, m, d)

-- `civil_from_days` gives the date of every day from 1 January 1970 on: the one that is reached by
-- stepping through the Gregorian calendar, with its month lengths and leap years, day by day.
pub civil_from_days-calendar : (n : ℕ) → civil_from_days (pos n) ≡ signed_year (calendar n)
unfolding civil_from_days civil_of
civil_from_days-calendar n = rw (← shifted-calendar n) refl

-- The calendar stays within its months, and the months within the table of lengths.
abbrev pub IsDate : ℕ × ℕ × ℕ → Type 0
IsDate (y, m, d) = (1970 ≤ y) × (1 ≤ m) × (m ≤ 12) × (1 ≤ d) × (d ≤ month_length y m)

next_day-IsDate : (t : ℕ × ℕ × ℕ) → IsDate t → IsDate (next_day t)
unfolding next_day month_length
next_day-IsDate (y, m, d) h = ground arith

pub calendar-IsDate : (n : ℕ) → IsDate (calendar n)
unfolding calendar
calendar-IsDate zero = unfold month_length in omega arith
calendar-IsDate (suc n) = next_day-IsDate (calendar n) (calendar-IsDate n)
