-- ===== src/Attendance/Errors.antt =====
-- The part of src/common/enums/error-code.enum.ts that the models answer with, and the
-- `HttpException` that carries it. Its message is a text for people and is left out; the three
-- options are the fields that some check-in outcomes add. `Result` is a call that may throw.
use fenzit_be.Prelude.{inr, inl, ◌⊎◌, ◌≡◌, refl, ℕ, Option, none}

pub data ErrorCode : Type 0 where
  attendance_too_far attendance_low_accuracy attendance_mock_location : ErrorCode
  attendance_stale_fix attendance_rate_limited attendance_not_tracked : ErrorCode
  attendance_already_checked_in attendance_already_checked_out : ErrorCode
  attendance_not_checked_in attendance_leave_confirmation_required : ErrorCode
  duplicate_resource internal_server_error : ErrorCode
  leave_invalid_range leave_before_start_date leave_too_old leave_checked_in_conflict : ErrorCode
  leave_already_off leave_overlap leave_not_pending leave_not_revokable : ErrorCode
  leave_not_cancellable leave_invalid_transition leave_request_not_found : ErrorCode
  attendance_tenant_not_found attendance_employee_not_found attendance_office_archived : ErrorCode
  attendance_assignment_not_enrolled attendance_assignment_gap validation_error : ErrorCode
  resource_not_found forbidden unauthorized job_not_modifiable invalid_workflow_step : ErrorCode

pub record HttpException : Type 0 where
  pub status : ℕ
  pub error_code : ErrorCode
  pub distance_m : Option ℕ
  pub radius_m : Option ℕ
  pub retry_after_seconds : Option ℕ

abbrev pub http_exception : ℕ → ErrorCode → HttpException
http_exception status code = record {
  status = status;
  error_code = code;
  distance_m = none;
  radius_m = none;
  retry_after_seconds = none;
}

pub data Result (A : Type 0) : Type 0 where
  returned : A → Result A
  thrown : HttpException → Result A

infixl 5 ◌>>=◌
abbrev pub ◌>>=◌ : {A B : Type 0} → Result A → (A → Result B) → Result B
returned a >>= k = k a
thrown e >>= k = thrown e

pub Result-cases :
    {A : Type 0} (r : Result A)
    → ((e : HttpException) × (r ≡ thrown e)) ⊎ ((a : A) × (r ≡ returned a))
Result-cases (thrown e) = inl (e, refl)
Result-cases (returned a) = inr (a, refl)
