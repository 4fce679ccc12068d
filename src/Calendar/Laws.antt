-- ===== src/Calendar/Laws.antt =====
-- Laws of the calendar.
use fenzit_be.Prelude.{ℕ, ◌+◌, ◌≡◌, refl, some, codes, arith, if◌then◌else◌, ◌%◌, [], ◌∷◌}
use fenzit_be.Calendar.{number_of, split_on, is_leap, days_before_year, utc_day, utc_weekday}

calendar_tests :
    (utc_weekday (utc_day 2026 9 27) ≡ 0)
    × (utc_weekday (utc_day 1970 1 1) ≡ 4)
    × (utc_weekday (utc_day 2000 2 29) ≡ 2)
    × (utc_day 2026 12 32 ≡ utc_day 2027 1 1)
    × (utc_day 70 1 1 ≡ 719528)
    × (number_of (codes "2026") ≡ some 2026)
    × (split_on b'-' (codes "2026-09-27") ≡ codes "2026" ∷ codes "09" ∷ codes "27" ∷ [])
unfolding utc_weekday utc_day number_of split_on
calendar_tests = (refl, refl, refl, refl, refl, refl, refl)

-- A year has 366 days when it is a leap year, and 365 otherwise.
pub days_before_year-suc :
    (y : ℕ) → days_before_year (y + 1) ≡ days_before_year y + (if is_leap y then 366 else 365)
unfolding days_before_year is_leap
days_before_year-suc y = ground arith

-- Days follow one another through the week.
pub utc_weekday-suc : (day : ℕ) → utc_weekday (day + 1) ≡ (utc_weekday day + 1) % 7
unfolding utc_weekday
utc_weekday-suc day = omega arith
