-- ===== src/DayStatus/Summary.antt =====
-- src/common/day-status/monthly-summary.model.ts: the monthly sums over an employee's days. The
-- sums of credits are in half days, like the credits.
pub mod Laws
use fenzit_be.Prelude.{
  ℕ, ◌+◌, ◌*◌, ◌/◌, Bool, true, false, Option, List, [], ◌∷◌, if◌then◌else◌, exists, Text,
}
use fenzit_be.DayStatus.Types.{
  Zone, DayContext, EngineRecordRow, EngineOverrideRow, DayStatusOutcome, DayStatusKey,
  DayMarkerKey, weekly_off, holiday,
}
use fenzit_be.DayStatus.Engine.{compute_day_status}

-- The fields of a grid row that the engine reads (`DayGridRow` in grid-reader.ts).
pub record DayGridRow : Type 0 where
  pub employee_id : Text
  pub work_date : Text
  pub today : Text
  pub ctx : DayContext
  pub day_record : Option EngineRecordRow
  pub override : Option EngineOverrideRow
  pub has_unack_mocked_attempt : Bool

pub record MonthlyEmployeeSummary : Type 0 where
  pub days_worked : ℕ
  pub half_days : ℕ
  pub late_count : ℕ
  pub leave : ℕ
  pub weekly_offs : ℕ
  pub holidays : ℕ
  pub worked_on_holiday : ℕ
  pub absent : ℕ
  pub checkout_missing : ℕ

abbrev pub empty_summary : MonthlyEmployeeSummary
empty_summary = record {
  days_worked = 0;
  half_days = 0;
  late_count = 0;
  leave = 0;
  weekly_offs = 0;
  holidays = 0;
  worked_on_holiday = 0;
  absent = 0;
  checkout_missing = 0;
}

abbrev is_half_day : DayStatusKey → Bool
is_half_day DayStatusKey.half_day = true
is_half_day _ = false

abbrev is_weekly_off : DayStatusKey → Bool
is_weekly_off weekly_off = true
is_weekly_off _ = false

abbrev is_holiday : DayStatusKey → Bool
is_holiday holiday = true
is_holiday _ = false

abbrev is_absent : DayStatusKey → Bool
is_absent DayStatusKey.absent = true
is_absent _ = false

abbrev is_missing : DayMarkerKey → Bool
is_missing DayMarkerKey.checkout_missing = true
is_missing _ = false

-- `if (b) n += 1`
abbrev bump_if : Bool → ℕ → ℕ
bump_if b n = if b then n + 1 else n

abbrev pub outcome_for : Zone → DayGridRow → DayStatusOutcome
outcome_for z row = compute_day_status z (record {
  ctx = row.ctx;
  day_record = row.day_record;
  override = row.override;
  has_unack_mocked_attempt = row.has_unack_mocked_attempt;
  today = row.today;
})

-- One round of the loop, for a tracked row.
unfoldable pub add_outcome : MonthlyEmployeeSummary → DayStatusOutcome → MonthlyEmployeeSummary
add_outcome s o = record {
  days_worked = s.days_worked + o.days_worked;
  half_days = bump_if (is_half_day o.status) s.half_days;
  late_count = bump_if o.is_late s.late_count;
  leave = s.leave + o.leave_credit;
  weekly_offs = bump_if (is_weekly_off o.status) s.weekly_offs;
  holidays = bump_if (is_holiday o.status) s.holidays;
  worked_on_holiday = s.worked_on_holiday + o.worked_on_holiday_credit;
  absent = bump_if (is_absent o.status) s.absent;
  checkout_missing = bump_if (exists is_missing o.markers) s.checkout_missing;
}

-- The body of the loop.
unfoldable pub add_row : Zone → MonthlyEmployeeSummary → DayGridRow → MonthlyEmployeeSummary
add_row z s row = if row.ctx.tracked then add_outcome s (outcome_for z row) else s

unfoldable pub sum_rows : Zone → MonthlyEmployeeSummary → List DayGridRow → MonthlyEmployeeSummary
sum_rows z s [] = s
sum_rows z s (row ∷ rows) = sum_rows z (add_row z s row) rows

-- `Math.round(value * 10) / 10` of a number of halves: `value * 10` is 5 of its halves, a whole
-- number, and the tenths are halves again by `/ 5`.
unfoldable pub round1 : ℕ → ℕ
round1 halves = (2 * (10 * halves) + 2) / 4 / 5

unfoldable pub summarise_employee_month : Zone → List DayGridRow → MonthlyEmployeeSummary
summarise_employee_month z rows =
    let s = sum_rows z empty_summary rows in
    record s {
      days_worked = round1 s.days_worked;
      leave = round1 s.leave;
      worked_on_holiday = round1 s.worked_on_holiday;
    }
