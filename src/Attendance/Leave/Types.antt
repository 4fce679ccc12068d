-- ===== src/Attendance/Leave/Types.antt =====
-- src/attendance/leave.constants.ts, the rows of leave.repository.ts, and the derived status of
-- leave.model.ts. `LeaveDb` is the tables that leave reads and writes; `leave_events` grows at its
-- end, which is the order of `seq`.
use fenzit_be.Prelude.{Bool, true, false, Option, List, [], ◌∷◌, if◌then◌else◌, exists, Text}
use fenzit_be.DayStatus.Types.{LeavePart}
use fenzit_be.Attendance.Errors.{
  ErrorCode, attendance_not_tracked, leave_overlap, leave_not_pending, leave_not_revokable,
  leave_not_cancellable, leave_invalid_transition, leave_request_not_found, HttpException,
  http_exception,
}

pub data LeaveDayState : Type 0 where
  pending approved rejected cancelled revoked : LeaveDayState

pub LeaveDayState-discrete : Discrete LeaveDayState
LeaveDayState-discrete = hlevel

abbrev pub same_state : LeaveDayState → LeaveDayState → Bool
same_state pending pending = true
same_state approved approved = true
same_state rejected rejected = true
same_state cancelled cancelled = true
same_state revoked revoked = true
same_state _ _ = false

-- `states.includes(state)`
abbrev pub in_states : List LeaveDayState → LeaveDayState → Bool
in_states states state = exists (same_state state) states

pub data LeaveCause : Type 0 where
  apply apply_on_behalf approve reject employee_cancel owner_revoke : LeaveCause
  checkin_auto_cancel disable removal : LeaveCause

abbrev pub same_cause : LeaveCause → LeaveCause → Bool
same_cause apply apply = true
same_cause apply_on_behalf apply_on_behalf = true
same_cause approve approve = true
same_cause reject reject = true
same_cause employee_cancel employee_cancel = true
same_cause owner_revoke owner_revoke = true
same_cause checkin_auto_cancel checkin_auto_cancel = true
same_cause disable disable = true
same_cause removal removal = true
same_cause _ _ = false

abbrev pub pending_source_states : List LeaveDayState
pending_source_states = pending ∷ []

abbrev pub revoke_source_states : List LeaveDayState
revoke_source_states = approved ∷ []

abbrev pub cancel_source_states : List LeaveDayState
cancel_source_states = pending ∷ approved ∷ []

abbrev pub derived_status_order : List LeaveDayState
derived_status_order = pending ∷ approved ∷ revoked ∷ cancelled ∷ rejected ∷ []

-- The loop of `deriveLeaveStatus` over the candidates that are left.
unfoldable pub first_present : List LeaveDayState → List LeaveDayState → LeaveDayState
first_present states [] = rejected
first_present states (candidate ∷ rest) =
    if in_states states candidate then candidate else first_present states rest

unfoldable pub derive_leave_status : List LeaveDayState → LeaveDayState
unfolding first_present
derive_leave_status states = first_present states derived_status_order

pub record LeaveRequestRow : Type 0 where
  pub id : Text
  pub tenant_id : Text
  pub employee_id : Text
  pub request_id : Text
  pub start_date : Text
  pub end_date : Text
  pub part : LeavePart

pub record LeaveDayRow : Type 0 where
  pub leave_request_id : Text
  pub employee_id : Text
  pub leave_date : Text
  pub state : LeaveDayState

pub record LeaveEvent : Type 0 where
  pub leave_request_id : Text
  pub employee_id : Text
  pub cause : LeaveCause
  pub actor_id : Option Text
  pub reason : Option Text
  pub affected_dates : List Text

-- The payload is left out.
pub record NotificationRow : Type 0 where
  pub tenant_id : Text
  pub user_id : Text
  pub event_type : Text
  pub entity_id : Text
  pub dedupe_key : Text

pub record LeaveDb : Type 0 where
  pub requests : List LeaveRequestRow
  pub days : List LeaveDayRow
  pub events : List LeaveEvent
  pub notifications : List NotificationRow

-- The HTTP status of a rejection.
abbrev pub is_conflict : ErrorCode → Bool
is_conflict leave_overlap = true
is_conflict leave_not_pending = true
is_conflict leave_not_revokable = true
is_conflict leave_not_cancellable = true
is_conflict leave_invalid_transition = true
is_conflict _ = false

abbrev is_untracked : ErrorCode → Bool
is_untracked attendance_not_tracked = true
is_untracked _ = false

unfoldable pub leave_rejection_to_exception : ErrorCode → HttpException
leave_rejection_to_exception code =
    http_exception (if is_conflict code then 409 else if is_untracked code then 403 else 422) code

abbrev pub leave_not_found : HttpException
leave_not_found = http_exception 404 leave_request_not_found

abbrev pub leave_transition_violation : HttpException
leave_transition_violation = http_exception 409 leave_invalid_transition
