-- ===== src/Attendance/CheckIn/Model.antt =====
-- src/attendance/check-in-out.model.ts, constants.ts and the metrics of check-in-out.replay.ts.
-- Floating-point numbers are carried as `Double`; `Geo` is the arithmetic that is done on them.
use fenzit_be.Prelude.{ℕ, Bool, true, false, Option, none, some, ltb, is_some, get_or, max}
use fenzit_be.Attendance.Errors.{
  ErrorCode, attendance_too_far, attendance_low_accuracy, attendance_mock_location,
  attendance_stale_fix, attendance_rate_limited, attendance_not_tracked,
  attendance_already_checked_in, attendance_already_checked_out, attendance_not_checked_in,
  attendance_leave_confirmation_required, duplicate_resource, internal_server_error, HttpException,
  http_exception,
}
use fenzit_be.DayStatus.Types.{Zone, DayContext}
use fenzit_be.DayStatus.Context.{
  expected_start_minute, expected_end_minute, compute_late_minutes, compute_early_checkout_minutes,
}

pub data AttemptKind : Type 0 where
  check_in check_out : AttemptKind

pub data AttemptOutcome : Type 0 where
  too_far low_accuracy mocked stale_fix ok rate_limited not_tracked : AttemptOutcome
  already_checked_in already_checked_out not_checked_in leave_confirmation_required : AttemptOutcome

abbrev pub checkin_max_accuracy_m : ℕ
checkin_max_accuracy_m = 100

abbrev pub fix_max_age_ms : ℕ
fix_max_age_ms = 30000

abbrev pub rate_window_minutes : ℕ
rate_window_minutes = 10

abbrev pub rate_max_counted : ℕ
rate_max_counted = 5

abbrev pub rate_block_minutes : ℕ
rate_block_minutes = 10

abbrev pub fake_location_alert_threshold : ℕ
fake_location_alert_threshold = 3

-- `COUNTED_OUTCOMES.includes(outcome)`
abbrev pub is_counted : AttemptOutcome → Bool
is_counted too_far = true
is_counted low_accuracy = true
is_counted mocked = true
is_counted stale_fix = true
is_counted _ = false

unfoldable pub outcome_status : AttemptOutcome → ℕ
outcome_status too_far = 422
outcome_status low_accuracy = 422
outcome_status mocked = 422
outcome_status stale_fix = 422
outcome_status rate_limited = 429
outcome_status not_tracked = 403
outcome_status already_checked_in = 409
outcome_status already_checked_out = 409
outcome_status not_checked_in = 409
outcome_status leave_confirmation_required = 409
outcome_status ok = 201

unfoldable pub outcome_error_code : AttemptOutcome → ErrorCode
outcome_error_code too_far = attendance_too_far
outcome_error_code low_accuracy = attendance_low_accuracy
outcome_error_code mocked = attendance_mock_location
outcome_error_code stale_fix = attendance_stale_fix
outcome_error_code rate_limited = attendance_rate_limited
outcome_error_code not_tracked = attendance_not_tracked
outcome_error_code already_checked_in = attendance_already_checked_in
outcome_error_code already_checked_out = attendance_already_checked_out
outcome_error_code not_checked_in = attendance_not_checked_in
outcome_error_code leave_confirmation_required = attendance_leave_confirmation_required
outcome_error_code ok = internal_server_error

pub record OutcomeExtras : Type 0 where
  -- rounded to the metre
  pub distance_m : Option ℕ
  pub radius_m : Option ℕ
  -- rounded up to the second
  pub retry_after_seconds : Option ℕ

abbrev pub no_extras : OutcomeExtras
no_extras = record { distance_m = none; radius_m = none; retry_after_seconds = none }

abbrev plain : AttemptOutcome → HttpException
plain outcome = http_exception (outcome_status outcome) (outcome_error_code outcome)

unfoldable pub outcome_to_exception : AttemptOutcome → OutcomeExtras → HttpException
unfolding outcome_status outcome_error_code
outcome_to_exception too_far extras = record (plain too_far) {
  distance_m = some (get_or extras.distance_m 0);
  radius_m = some (get_or extras.radius_m 0);
}
outcome_to_exception rate_limited extras = record (plain rate_limited) {
  retry_after_seconds = some (max 1 (get_or extras.retry_after_seconds 1));
}
outcome_to_exception outcome extras = plain outcome

abbrev pub duplicate_key_rejection : HttpException
duplicate_key_rejection = http_exception 409 duplicate_resource

pub record ResponseMetrics : Type 0 where
  pub late_minutes : Option ℕ
  pub is_late : Bool
  pub early_checkout : Bool
  pub early_checkout_minutes : Option ℕ

abbrev pub no_metrics : ResponseMetrics
no_metrics = record {
  late_minutes = none;
  is_late = false;
  early_checkout = false;
  early_checkout_minutes = none;
}

module _ (z : Zone) (ctx : DayContext) where
  late_metrics : ℕ → Option ℕ → Option ℕ → ResponseMetrics
  late_metrics checkin_at (some start) (some cutoff) =
      let late =
        compute_late_minutes (z.minute_of_day_in_tz checkin_at ctx.timezone) start cutoff in
      record {
        late_minutes = some late;
        is_late = ltb 0 late;
        early_checkout = false;
        early_checkout_minutes = none;
      }
  late_metrics checkin_at _ _ = no_metrics

  early_metrics : Option ℕ → Option ℕ → ResponseMetrics
  early_metrics (some end) (some checkout_at) =
      let early =
        compute_early_checkout_minutes (z.minute_of_day_in_tz checkout_at ctx.timezone) end in
      record {
        late_minutes = none;
        is_late = false;
        early_checkout = is_some early;
        early_checkout_minutes = early;
      }
  early_metrics _ _ = no_metrics

  -- The stored record gives its two instants.
  unfoldable pub metrics_for : AttemptKind → (checkin_at : ℕ) → Option ℕ → ResponseMetrics
  unfolding late_metrics early_metrics
  metrics_for check_in checkin_at checkout_at =
      late_metrics checkin_at (expected_start_minute ctx) ctx.late_cutoff_minutes
  metrics_for check_out checkin_at checkout_at = early_metrics (expected_end_minute ctx) checkout_at
