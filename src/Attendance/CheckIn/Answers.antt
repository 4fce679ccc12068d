-- ===== src/Attendance/CheckIn/Answers.antt =====
-- src/attendance/check-in-out.replay.ts, the responses of check-in-out.model.ts, and the rejections of
-- check-in-out.rejections.ts that no ladder leads to. A rejection is an answer: its rows are committed.
use fenzit_be.DayStatus.Context.{worked_minutes_between}
use fenzit_be.Attendance.DayContextRead.{build_day_context}
use fenzit_be.Attendance.CheckIn.Model.{
  rate_block_minutes, already_checked_out, rate_max_counted, check_out, not_checked_in, ok,
  check_in, no_extras, duplicate_key_rejection, already_checked_in, is_counted,
  outcome_to_exception, rate_limited, metrics_for, AttemptOutcome, ResponseMetrics, AttemptKind,
}
use fenzit_be.Attendance.CheckIn.Tables.{
  count_counted_in_window, find_record_by_attempt_id, find_record_by_employee_date,
  read_active_blocked_until, insert_attempt, to_attempt_location, AttemptLocation, AttemptRow,
  CheckInOutDto, CheckDb, Site, RecordRow,
}
use fenzit_be.DayStatus.Types.{DayContext}
use fenzit_be.Prelude.{
  ◌*◌, leb, ◌&&◌, not, false, none, ◌/◌, true, if◌then◌else◌, ◌+◌, get_or, some, ◌-◌, max, is_some,
  Option, ℕ, Bool, Text,
}
use fenzit_be.Attendance.Errors.{
  returned, thrown, Result, internal_server_error, http_exception, HttpException, ◌>>=◌,
}
use mathlib.Core.Option

pub record Call : Type 0 where
  pub tenant_id : Text
  pub employee_id : Text
  pub request_id : Text
  pub kind : AttemptKind
  pub dto : CheckInOutDto

pub record DayContextFlags : Type 0 where
  pub is_weekly_off : Bool
  pub is_holiday : Bool
  pub holiday_name : Option Text
  pub is_working_day : Bool

-- Instants stand for their texts in the tenant's offset.
pub record CheckInResponse : Type 0 where
  pub work_date : Text
  pub checkin_at : ℕ
  pub late_minutes : Option ℕ
  pub is_late : Bool
  pub day_context : DayContextFlags

pub record CheckOutResponse : Type 0 where
  pub work_date : Text
  pub checkin_at : ℕ
  pub checkout_at : ℕ
  pub worked_minutes : ℕ
  pub early_checkout : Bool
  pub early_checkout_minutes : Option ℕ
  pub day_context : DayContextFlags

pub data Response : Type 0 where
  checked_in : CheckInResponse → Response
  checked_out : CheckOutResponse → Response

pub data Answer : Type 0 where
  response : Response → Answer
  rejection : HttpException → Answer

pub to_flags : DayContext → DayContextFlags
to_flags ctx = record {
  is_weekly_off = ctx.is_weekly_off;
  is_holiday = is_some ctx.holiday_id;
  holiday_name = ctx.holiday_name;
  is_working_day = ctx.is_working_day;
}

-- `new Date(null)` is the epoch.
unfoldable pub record_to_response :
    RecordRow → AttemptKind → DayContextFlags → ResponseMetrics → Response
record_to_response r check_in flags m = checked_in (record {
  work_date = r.work_date;
  checkin_at = r.checkin_at;
  late_minutes = m.late_minutes;
  is_late = m.is_late;
  day_context = flags;
})
record_to_response r check_out flags m = checked_out (record {
  work_date = r.work_date;
  checkin_at = r.checkin_at;
  checkout_at = get_or r.checkout_at 0;
  worked_minutes = worked_minutes_between r.checkin_at (get_or r.checkout_at 0);
  early_checkout = m.early_checkout;
  early_checkout_minutes = m.early_checkout_minutes;
  day_context = flags;
})

abbrev pub internal_error : HttpException
internal_error = http_exception 500 internal_server_error

-- `Math.max(1, Math.ceil(ms / 1000))` of the time that is left
abbrev seconds_left : ℕ → ℕ → ℕ
seconds_left until now = max 1 ((until - now + 999) / 1000)

abbrev pub is_ok : AttemptOutcome → Bool
is_ok ok = true
is_ok _ = false

abbrev pub same_kind : AttemptKind → AttemptKind → Bool
same_kind check_in check_in = true
same_kind check_out check_out = true
same_kind _ _ = false

module _ (site : Site) (db : CheckDb) (call : Call) where
  -- The attempt row of this call.
  abbrev pub recorded : AttemptOutcome → AttemptLocation → Option ℕ → Option (ℕ × CheckDb)
  recorded outcome location blocked_until =
      insert_attempt db site.now call.tenant_id call.employee_id call.request_id call.kind outcome
        location blocked_until

  unfoldable pub reject_committed : AttemptOutcome → AttemptLocation → Answer × CheckDb
  reject_committed outcome location = elim (recorded outcome location none) [
    | none ↦ (rejection duplicate_key_rejection, db)
    | some (id, db') ↦ (rejection (outcome_to_exception outcome no_extras), db')
  ]

  -- The fifth counted rejection of the window arms the block.
  unfoldable pub block_to_arm : AttemptOutcome → Option ℕ
  block_to_arm outcome =
      if is_counted outcome
        && leb rate_max_counted (count_counted_in_window db.attempts call.employee_id site.now + 1)
      then some (site.now + rate_block_minutes * 60000)
      else none

  abbrev pub ctx_of : Text → Result DayContext
  ctx_of work_date =
      build_day_context site.zone (site.day_reads call.tenant_id call.employee_id work_date)
        db.leave call.tenant_id call.employee_id work_date true

  abbrev rebuilt : RecordRow → DayContext → Answer
  rebuilt r ctx = response (
      record_to_response r call.kind (to_flags ctx)
        (metrics_for site.zone ctx call.kind r.checkin_at r.checkout_at))

  abbrev is_closed : RecordRow → Bool
  is_closed r = is_some r.checkout_at

  -- The key of the other button: answered from the current state.
  unfoldable pub replay_other : AttemptKind → Option RecordRow → HttpException
  replay_other check_in (some r) = outcome_to_exception already_checked_in no_extras
  replay_other check_in none = duplicate_key_rejection
  replay_other check_out none = outcome_to_exception not_checked_in no_extras
  replay_other check_out (some r) =
      if is_closed r
      then outcome_to_exception already_checked_out no_extras
      else duplicate_key_rejection

  -- The rejection is answered again with the numbers of the stored row.
  unfoldable pub replay_rejection : AttemptRow → HttpException
  replay_rejection row = outcome_to_exception row.outcome (record {
    distance_m = some (site.rounded (get_or row.location.distance_m 0));
    radius_m = some (get_or row.location.radius_m 0);
    retry_after_seconds =
        Option.map (λ until. seconds_left until site.app_now)
          (read_active_blocked_until db.attempts call.employee_id site.now);
  })

  replay_ok : Option RecordRow → Result Answer
  replay_ok none = thrown internal_error
  replay_ok (some r) = do ctx ← ctx_of r.work_date; returned (rebuilt r ctx)

  unfoldable pub replay_response : AttemptRow → Result Answer
  unfolding replay_ok
  replay_response row =
      if not (same_kind row.kind call.kind)
      then returned (
          rejection (
            replay_other call.kind
              (find_record_by_employee_date db.day_records call.employee_id site.today)))
      else if is_ok row.outcome
      then replay_ok (find_record_by_attempt_id db.day_records row.id)
      else returned (rejection (replay_rejection row))

  -- An active block: recorded, not counted.
  unfoldable pub answer_blocked : ℕ → Answer × CheckDb
  answer_blocked until =
      elim (recorded rate_limited (to_attempt_location call.dto none none) none) [
        | none ↦ (rejection duplicate_key_rejection, db)
        | some (id, db') ↦ (
          rejection (
              outcome_to_exception rate_limited (record no_extras {
                retry_after_seconds = some (seconds_left until site.app_now);
              })),
          db',
        )
      ]
