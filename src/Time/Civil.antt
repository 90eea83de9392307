-- ===== src/Time/Civil.antt =====
-- `civil_from_days` of src/walker.rs (and its copy in src/bulk_walker.rs), and the Gregorian calendar.
pub mod Step
use tzip.Prelude.{ℕ, ◌+◌, ◌-◌, ◌*◌, ◌/◌, ◌%◌, Bool, not, ◌&&◌, ◌||◌, leb, ltb, ◌==◌, if◌then◌else◌}
use tzip.Prelude.Int.{ℤ, pos, negsuc, sub_ℕ}

-- The year of the era of 400 years that starts on 1 March, of a day of the era.
unfoldable pub yoe_of : ℕ → ℕ
yoe_of doe = (doe - doe / 1460 + doe / 36_524 - doe / 146_096) / 365

-- The month and the day of a day of the year.
unfoldable pub month_day : ℕ → ℕ × ℕ
month_day doy =
    let mp = (5 * doy + 2) / 153 in
    let d = doy - (153 * mp + 2) / 5 + 1 in let m = if ltb mp 10 then mp + 3 else mp - 9 in (m, d)

-- January and February belong to the next calendar year.
unfoldable pub of_doe : ℕ → ℕ × ℕ × ℕ
of_doe doe =
    let yoe = yoe_of doe in
    let doy = doe - (365 * yoe + yoe / 4 - yoe / 100) in
    let (m, d) = month_day doy in ((if leb m 2 then yoe + 1 else yoe), m, d)

-- Division rounds towards zero, so the source subtracts 146096 from a negative day first.
unfoldable pub civil_of : ℤ → ℤ × ℕ × ℕ
civil_of (pos z) =
    let era = z / 146_097 in
    let (y, m, d) = of_doe (z - era * 146_097) in (pos (y + era * 400), m, d)
civil_of (negsuc n) =
    let back = (n + 1 + 146_096) / 146_097 in
    let (y, m, d) = of_doe (back * 146_097 - (n + 1)) in (sub_ℕ y (back * 400), m, d)

unfoldable pub civil_from_days : ℤ → ℤ × ℕ × ℕ
civil_from_days (pos z) = civil_of (pos (z + 719_468))
civil_from_days (negsuc n) = civil_of (sub_ℕ 719_468 (n + 1))

unfoldable pub is_leap : ℕ → Bool
is_leap y = y % 4 == 0 && (not (y % 100 == 0) || y % 400 == 0)

unfoldable pub month_length : ℕ → ℕ → ℕ
month_length y m =
    if m == 2
    then (if is_leap y then 29 else 28)
    else if m == 4 || m == 6 || m == 9 || m == 11
    then 30
    else 31

unfoldable pub next_day : ℕ × ℕ × ℕ → ℕ × ℕ × ℕ
next_day (y, m, d) =
    if ltb d (month_length y m)
    then (y, m, d + 1)
    else if ltb m 12
    then (y, m + 1, 1)
    else (y + 1, 1, 1)
