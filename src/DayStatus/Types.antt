-- ===== src/DayStatus/Types.antt =====
-- src/common/day-status/keys.ts and the records of day-context.ts and day-status.model.ts.
-- Instants are milliseconds since the epoch. Credits are counted in half days. `Double` is a
-- floating-point number, held as its 64 bits read as a number; the two hour thresholds, `numeric(4, 2)`
-- in the database, are carried in hundredths of an hour and, times 60, of a minute.
use fenzit_be.Prelude.{ℕ, Bool, Option, List, Text, ◌<◌}
use fenzit_be.DayStatus.OfficeRules.{OfficeRuleRow}

pub data DayStatusKey : Type 0 where
  not_tracked not_checked_in_yet in_progress weekly_off holiday worked_on_holiday : DayStatusKey
  leave half_day_leave present half_day absent checkout_missing : DayStatusKey

pub data DayMarkerKey : Type 0 where
  corrected leave_pending checkout_missing fake_location_attempt : DayMarkerKey

pub data AttendanceSource : Type 0 where
  gps manual : AttendanceSource

pub data LeaveState : Type 0 where
  pending approved : LeaveState

pub data LeavePart : Type 0 where
  full_day first_half second_half : LeavePart

-- The statuses that a correction may set.
pub data FixedStatus : Type 0 where
  present half_day absent : FixedStatus

abbrev pub Double : Type 0
Double = ℕ

-- `Intl` with the time-zone database: the local minute of the day and the local date of an instant, for
-- time zones that it knows. The errors that it and minuteOfDayInTz throw over any other are left out.
pub record Zone : Type 0 where
  pub minute_of_day_in_tz : ℕ → Text → ℕ
  pub date_in_tz : ℕ → Text → Text
  pub minute_of_day-lt :
      (instant : ℕ) (timezone : Text) → minute_of_day_in_tz instant timezone < 1440

pub record DayContext : Type 0 where
  pub tenant_id : Text
  pub employee_id : Text
  pub work_date : Text
  pub timezone : Text
  pub tracked_base : Bool
  pub tracked : Bool
  pub enable_day_grace_blocks : Bool
  pub office_id : Option Text
  pub office_name : Option Text
  pub office_lat : Option Double
  pub office_lng : Option Double
  pub radius_m : Option ℕ
  pub office_rules_id : Option Text
  pub start_minute : Option ℕ
  pub end_minute : Option ℕ
  pub midpoint_minute : Option ℕ
  pub late_cutoff_minutes : Option ℕ
  -- hundredths of a minute
  pub full_day_minutes : Option ℕ
  pub half_day_minutes : Option ℕ
  pub is_weekly_off : Bool
  pub holiday_id : Option Text
  pub holiday_name : Option Text
  pub is_working_day : Bool
  pub leave_state : Option LeaveState
  pub leave_part : Option LeavePart
  pub leave_request_id : Option Text

pub record DayFacts : Type 0 where
  pub enrolment_covers : Bool
  pub setup_completed : Bool
  pub enabled : Bool
  pub enabled_at : Option ℕ
  pub enrolment_start : Option Text
  pub rule : Option OfficeRuleRow
  pub weekly_off_days : List ℕ
  pub holiday_id : Option Text
  pub holiday_name : Option Text

pub record OfficeJoinRow : Type 0 where
  pub office_id : Text
  pub office_name : Text
  pub office_lat : Double
  pub office_lng : Double
  pub radius_m : ℕ

pub record LeaveSeam : Type 0 where
  pub state : LeaveState
  pub part : LeavePart
  pub leave_request_id : Text

pub record EngineRecordRow : Type 0 where
  pub checkin_at : ℕ
  pub checkout_at : Option ℕ

pub record EngineOverrideRow : Type 0 where
  pub status : Option FixedStatus
  pub manual_checkin_at : Option ℕ
  pub manual_checkout_at : Option ℕ

pub record DayStatusInput : Type 0 where
  pub ctx : DayContext
  pub day_record : Option EngineRecordRow
  pub override : Option EngineOverrideRow
  pub has_unack_mocked_attempt : Bool
  pub today : Text

pub record DayStatusOutcome : Type 0 where
  pub status : DayStatusKey
  pub late_minutes : Option ℕ
  pub is_late : Bool
  pub early_checkout_minutes : Option ℕ
  pub early_checkout : Bool
  pub worked_minutes : Option ℕ
  -- half days
  pub days_worked : ℕ
  pub leave_credit : ℕ
  pub worked_on_holiday_credit : ℕ
  pub checkin_source : Option AttendanceSource
  pub checkout_source : Option AttendanceSource
  pub markers : List DayMarkerKey
