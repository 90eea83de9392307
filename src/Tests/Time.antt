-- ===== src/Tests/Time.antt =====
-- Dates of src/walker.rs.
use tzip.Prelude.{◌≡◌, refl, arith}
use tzip.Prelude.Int.{pos}
use tzip.Time.Civil.{civil_from_days, next_day, month_length, is_leap}
use tzip.Time.Civil.Step.{calendar, signed_year, civil_from_days-calendar}
use tzip.Time.Dos.{unix_to_dos}
use tzip.Time.Dos.Decode.{read_dos, dos_of, unix_to_dos-dos_of}

leap_day : calendar 3711 ≡ (1980, 2, 29)
unfolding calendar next_day month_length is_leap
leap_day = refl

civil_from_days-calendar_example : civil_from_days (pos 3711) ≡ signed_year (calendar 3711)
civil_from_days-calendar_example = civil_from_days-calendar 3711

unix_to_dos-dos_of_example : read_dos (unix_to_dos (pos 320_675_696)) ≡ dos_of (1980, 2, 29) 45_296
unix_to_dos-dos_of_example =
    unix_to_dos-dos_of 320_675_696 1980 2 29 leap_day (omega arith) (omega arith)
