-- ===== src/Attendance/Leave/Apply.antt =====
-- src/attendance/leave-validation.ts: the rules of an application for leave, which apply and its
-- preview share. A rejection is its error code. The outer `none` of an answer is the RangeError of
-- `toISOString` on an invalid date; `enumerate_dates` answers it too when its rounds are used up.
use mathlib.Core.Option
pub mod Span
pub mod Laws
pub mod Facts
mod Examples
-- src/attendance/leave.constants.ts
use fenzit_be.Attendance.Enrolments.Plan.{add_days}
use fenzit_be.Attendance.Enrolments.Tables.{is_date_key}
use fenzit_be.Attendance.Errors.{
  leave_before_start_date, leave_overlap, attendance_not_tracked, leave_already_off,
  leave_invalid_range, leave_too_old, leave_checked_in_conflict, ErrorCode,
}
use fenzit_be.Calendar.Print.{day_text, day_of_text}
use fenzit_be.DayStatus.Types.{full_day, LeavePart}
use fenzit_be.Prelude.{
  zero, ◌-◌, ◌&&◌, ◌||◌, exists, [], not, ◌+◌, text_eq, ◌∷◌, suc, text_ltb, ltb, if◌then◌else◌,
  some, false, none, true, List, Bool, Option, Text, ℕ,
}

abbrev pub leave_max_past_days : ℕ
leave_max_past_days = 7

abbrev pub leave_max_span_days : ℕ
leave_max_span_days = 62

pub record ApplyShapeInput : Type 0 where
  pub start_date : Text
  pub end_date : Text
  pub part : LeavePart

abbrev printed_alike : Text → Option ℕ → Option ℕ
printed_alike date (some day) = if text_eq (day_text day) date then some day else none
printed_alike _ none = none

-- `Date.parse(date) / 86_400_000` of a text `YYYY-MM-DD`: a date that the calendar does not have is
-- NaN (`none`), as ECMA-262 says. The years 0 to 99 are NaN here.
unfoldable pub date_parse : Text → Option ℕ
date_parse date = printed_alike date (day_of_text date)

-- `spanDays > LEAVE_MAX_SPAN_DAYS`, which is false for NaN.
unfoldable pub is_too_long : Option ℕ → Option ℕ → Bool
is_too_long (some start) (some end) = ltb (start + leave_max_span_days) (end + 1)
is_too_long _ _ = false

abbrev pub is_full_day : LeavePart → Bool
is_full_day full_day = true
is_full_day _ = false

unfoldable pub validate_apply_shape : ApplyShapeInput → Option ErrorCode
validate_apply_shape input =
    if not (is_date_key input.start_date) || not (is_date_key input.end_date)
    then some leave_invalid_range
    else if text_ltb input.end_date input.start_date
    then some leave_invalid_range
    else if is_too_long (date_parse input.start_date) (date_parse input.end_date)
    then some leave_invalid_range
    else if not (is_full_day input.part) && not (text_eq input.start_date input.end_date)
    then some leave_invalid_range
    else none

-- The loop over `cursor`, in at most as many rounds as the first argument says.
unfoldable pub enumerate_dates : (rounds : ℕ) (cursor end_date : Text) → Option (List Text)
enumerate_dates zero cursor end_date = none
enumerate_dates (suc rounds) cursor end_date =
    if text_ltb end_date cursor then some [] else elim (add_days cursor 1) [
      | none ↦ none
      | some next ↦ Option.map (cursor ∷◌) (enumerate_dates rounds next end_date)
    ]

pub data DayKind : Type 0 where
  working weekly_off holiday : DayKind

pub record SpanDayFacts : Type 0 where
  pub date : Text
  pub is_working_day : Bool
  pub kind : DayKind

pub record ApplyEnrolment : Type 0 where
  pub is_there : Bool
  pub floor : Option Text
  pub covers_today : Bool

pub record ApplySettings : Type 0 where
  pub setup_completed : Bool
  pub enabled : Bool

pub record ApplyFactInput : Type 0 where
  pub today : Text
  pub enrolment : ApplyEnrolment
  pub settings : ApplySettings
  pub span_facts : Text → Option SpanDayFacts
  pub overlapping_dates : List Text
  pub checked_in_dates : List Text
  pub override_dates : List Text

-- `addDays(date, -n)`
unfoldable pub days_back : Text → ℕ → Option Text
days_back date n = Option.map (λ day. day_text (day - n)) (day_of_text date)

-- `facts.enrolment.floor !== null && facts.enrolment.floor > facts.today`
abbrev pub starts_later : Option Text → Text → Bool
starts_later none today = false
starts_later (some floor) today = text_ltb today floor

-- `dates[0] < limit`, which is false for no dates.
abbrev pub first_before : List Text → Text → Bool
first_before [] limit = false
first_before (date ∷ dates) limit = text_ltb date limit

abbrev pub first_before_floor : List Text → Option Text → Bool
first_before_floor dates none = false
first_before_floor dates (some floor) = first_before dates floor

-- `facts.spanFacts.get(d)?.isWorkingDay`
abbrev pub works_on : (Text → Option SpanDayFacts) → Text → Bool
works_on span_facts date = elim (span_facts date) [ none ↦ false | some f ↦ f.is_working_day ]

abbrev pub is_some_date : List Text → Bool
is_some_date [] = false
is_some_date (date ∷ dates) = true

-- The rules after the one on the oldest day.
unfoldable pub judge_days : List Text → ApplyFactInput → Option ErrorCode
judge_days dates facts =
    if is_some_date facts.checked_in_dates
    then some leave_checked_in_conflict
    else if not (exists (works_on facts.span_facts) dates)
    then some leave_already_off
    else if is_some_date facts.override_dates
    then some leave_checked_in_conflict
    else if is_some_date facts.overlapping_dates
    then some leave_overlap
    else none

abbrev pub judge_oldest : List Text → ApplyFactInput → Option Text → Option (Option ErrorCode)
judge_oldest dates facts none = none
judge_oldest dates facts (some oldest) =
    if first_before dates oldest then some (some leave_too_old) else some (judge_days dates facts)

unfoldable pub validate_apply_facts : List Text → ApplyFactInput → Option (Option ErrorCode)
validate_apply_facts dates facts =
    let enrolment = facts.enrolment in
    if not facts.settings.setup_completed || not facts.settings.enabled
    then some (some attendance_not_tracked)
    else if not enrolment.is_there
        || (not enrolment.covers_today && not (starts_later enrolment.floor facts.today))
    then some (some attendance_not_tracked)
    else if first_before_floor dates enrolment.floor
    then some (some leave_before_start_date)
    else judge_oldest dates facts (days_back facts.today leave_max_past_days)
