-- ===== src/Attendance/Leave/Apply/Examples.antt =====
-- Applications for leave around October 2026, and the theorems at them.

-- 2026-10-05 and 2026-10-07
use fenzit_be.Attendance.Leave.Apply.Facts.{validate_apply_facts_iff, IsApplicable}
use fenzit_be.Attendance.Errors.{leave_invalid_range, leave_checked_in_conflict}
use fenzit_be.Attendance.Enrolments.Tables.{is_date_key}
use fenzit_be.Attendance.Enrolments.Plan.{add_days}
use fenzit_be.DayStatus.Types.{full_day}
use fenzit_be.Attendance.Leave.Apply.{
  working, SpanDayFacts, is_too_long, judge_days, ApplyFactInput, validate_apply_facts, days_back,
  date_parse, enumerate_dates, validate_apply_shape,
}
use fenzit_be.Attendance.Leave.Apply.Laws.{
  validate_apply_shape-enumerate_dates, validate_apply_shape_iff, shape, IsShaped,
}
use fenzit_be.Attendance.Leave.Apply.Span.{days_from, IsDated}
use fenzit_be.Calendar.{days_before_month, days_before_year, is_leap, split_on, number_of, utc_day}
use fenzit_be.Calendar.Print.{
  long_date_text, month_of, year_of, two_digits, four_digits, date_text, day_of_text, day_text,
}
use fenzit_be.Prelude.{◌<◌, ◌-◌, true, suc, ◌↔◌, [], Option, ◌∷◌, none, arith, Text, List, refl}
use fenzit_be.Prelude.{some, codes, ◌≡◌, ℕ}

abbrev first_day : ℕ
first_day = 740259

abbrev last_day : ℕ
last_day = 740261

first-IsDated : IsDated first_day
unfolding year_of days_before_year
first-IsDated = (omega arith, omega arith)

last-IsDated : IsDated last_day
unfolding year_of days_before_year
last-IsDated = (omega arith, omega arith)

three_days : IsShaped first_day last_day full_day
three_days = record {
  in_order = omega arith;
  is_short = omega arith;
  is_one_part = λ e. absurd (ground arith);
}

validate_apply_shape_iff_example :
    (validate_apply_shape (shape first_day last_day full_day) ≡ none)
    ↔ IsShaped first_day last_day full_day
validate_apply_shape_iff_example =
    validate_apply_shape_iff first_day last_day full_day first-IsDated last-IsDated

accepted : validate_apply_shape (shape first_day last_day full_day) ≡ none
accepted =
    (validate_apply_shape_iff first_day last_day full_day first-IsDated last-IsDated).1 three_days

validate_apply_shape-enumerate_dates_example :
    (enumerate_dates 63 (day_text first_day) (day_text last_day)
      ≡ some (days_from first_day (suc (last_day - first_day))))
    × (last_day - first_day < 62)
validate_apply_shape-enumerate_dates_example =
    validate_apply_shape-enumerate_dates first_day last_day full_day first-IsDated last-IsDated
      accepted

listed :
    enumerate_dates 63 (codes "2026-10-30") (codes "2026-11-01")
    ≡ some (codes "2026-10-30" ∷ codes "2026-10-31" ∷ codes "2026-11-01" ∷ [])
unfolding enumerate_dates add_days day_of_text utc_day number_of split_on is_leap days_before_year
    days_before_month day_text date_text four_digits two_digits year_of month_of
listed = refl

-- A month that the calendar does not have is no number of days, and passes the rule on the length.
unparsed : date_parse (codes "2026-13-01") ≡ none
unfolding date_parse day_of_text utc_day number_of split_on is_leap days_before_year
    days_before_month day_text date_text four_digits two_digits year_of month_of
unparsed = refl

too_long :
    validate_apply_shape
      (record { start_date = codes "2026-10-05"; end_date = codes "2026-12-06"; part = full_day })
    ≡ some leave_invalid_range
unfolding validate_apply_shape is_date_key is_too_long date_parse day_of_text utc_day number_of
    split_on is_leap days_before_year days_before_month day_text date_text four_digits two_digits
    year_of month_of
too_long = refl

abbrev dates : List Text
dates = codes "2026-10-05" ∷ codes "2026-10-06" ∷ []

abbrev working_on : Text → Option SpanDayFacts
working_on date = some (record { date = date; is_working_day = true; kind = working })

abbrev facts_with : List Text → ApplyFactInput
facts_with checked_in = record {
  today = codes "2026-10-01";
  enrolment = record { is_there = true; floor = some (codes "2026-09-01"); covers_today = true };
  settings = record { setup_completed = true; enabled = true };
  span_facts = working_on;
  overlapping_dates = [];
  checked_in_dates = checked_in;
  override_dates = [];
}

oldest : days_back (codes "2026-10-01") 7 ≡ some (codes "2026-09-24")
unfolding days_back day_of_text utc_day number_of split_on is_leap days_before_year
    days_before_month day_text date_text four_digits two_digits year_of month_of
oldest = refl

validate_apply_facts_iff_example :
    (validate_apply_facts dates (facts_with []) ≡ some none)
    ↔ IsApplicable dates (codes "2026-09-24") (facts_with [])
validate_apply_facts_iff_example =
    validate_apply_facts_iff dates (facts_with []) (codes "2026-09-24") oldest

checked_in_day :
    validate_apply_facts dates (facts_with (codes "2026-10-06" ∷ []))
    ≡ some (some leave_checked_in_conflict)
unfolding validate_apply_facts judge_days days_back day_of_text utc_day number_of split_on is_leap
    days_before_year days_before_month day_text date_text four_digits two_digits year_of month_of
checked_in_day = refl

-- The last date of four digits: the date after it sorts before it, and the one after that is no date, so
-- the loop throws.
last_date :
    (validate_apply_shape
        (record { start_date = codes "9999-12-31"; end_date = codes "9999-12-31"; part = full_day })
      ≡ none)
    × (enumerate_dates 63 (codes "9999-12-31") (codes "9999-12-31") ≡ none)
    × (enumerate_dates 1 (codes "+010000-01") (codes "9999-12-31") ≡ none)
    × (add_days (codes "+010000-01") 1 ≡ none)
unfolding validate_apply_shape is_date_key is_too_long date_parse enumerate_dates add_days
    day_of_text utc_day number_of split_on is_leap days_before_year days_before_month day_text
    date_text long_date_text four_digits two_digits year_of month_of
last_date = (refl, refl, refl, refl)
