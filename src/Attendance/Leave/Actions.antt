-- ===== src/Attendance/Leave/Actions.antt =====
-- src/attendance/leave.service.ts: approve, reject, revoke and cancel, each one transaction under
-- the employee's lock, and the reads of leave.repository.ts that they decide on. `Desk` is what
-- they take from the rest of the module: the tenant's date and minute, the office start of an
-- employee's day context, whose reading may throw, and the active company admins.
pub mod Select
pub mod Effect
pub mod Lifecycle
pub mod Exclusive
use fenzit_be.Prelude.{
  ℕ, Bool, true, false, ◌&&◌, Option, none, some, List, [], ◌∷◌, map, if◌then◌else◌, find, keep,
  Text, text_eq, text_leb,
}
use fenzit_be.Attendance.Errors.{
  ErrorCode, internal_server_error, leave_not_pending, leave_not_revokable, leave_not_cancellable,
  http_exception, Result, returned, thrown, ◌>>=◌,
}
use fenzit_be.Attendance.Leave.Types.{
  LeaveDayState, pending, approved, rejected, cancelled, revoked, in_states, LeaveCause, approve,
  reject, employee_cancel, owner_revoke, same_cause, pending_source_states, revoke_source_states,
  cancel_source_states, derive_leave_status, LeaveRequestRow, LeaveDayRow, LeaveEvent, LeaveDb,
  leave_rejection_to_exception, leave_not_found,
}
use fenzit_be.Attendance.Leave.Split.{SplitInput, SplitOutcome, split_actionable_dates}
use fenzit_be.Attendance.Leave.Transition.{
  NotificationSpec, TransitionCore, date_of, transition_leave_days,
}

pub record Desk : Type 0 where
  pub today : Text
  pub now_minute : ℕ
  pub start_minute_of : Text → Result (Option ℕ)
  pub admin_ids : List Text

pub record LeaveView : Type 0 where
  pub request : LeaveRequestRow
  pub status : LeaveDayState
  pub dates : List LeaveDayRow
  pub revoked_dates : Option (List Text)
  pub cancelled_dates : Option (List Text)

-- `order by leave_date`
unfoldable pub insert_row : LeaveDayRow → List LeaveDayRow → List LeaveDayRow
insert_row r [] = r ∷ []
insert_row r (x ∷ xs) =
    if text_leb r.leave_date x.leave_date then r ∷ x ∷ xs else x ∷ insert_row r xs

unfoldable pub sort_rows : List LeaveDayRow → List LeaveDayRow
unfolding insert_row
sort_rows [] = []
sort_rows (r ∷ rs) = insert_row r (sort_rows rs)

abbrev pub of_request : Text → LeaveDayRow → Bool
of_request id row = text_eq row.leave_request_id id

unfoldable pub find_days_in_states : LeaveDb → Text → List LeaveDayState → List LeaveDayRow
unfolding sort_rows
find_days_in_states db id states =
    sort_rows (keep (λ r. of_request id r && in_states states r.state) db.days)

unfoldable pub find_request : LeaveDb → Text → Text → Option LeaveRequestRow
find_request db tenant_id id =
    find (λ (r : LeaveRequestRow). text_eq r.tenant_id tenant_id && text_eq r.id id) db.requests

unfoldable pub find_own_request : LeaveDb → Text → Text → Text → Option LeaveRequestRow
find_own_request db tenant_id id employee_id =
    find
      (λ (r : LeaveRequestRow).
        text_eq r.tenant_id tenant_id && text_eq r.id id && text_eq r.employee_id employee_id)
      db.requests

abbrev event_for : Text → LeaveEvent → Bool
event_for id e = text_eq e.leave_request_id id

-- `order by seq desc limit 1`
unfoldable pub last_event : Text → List LeaveEvent → Option LeaveEvent
last_event id [] = none
last_event id (e ∷ es) = elim (last_event id es) [
  | some later ↦ some later
  | none ↦ if event_for id e then some e else none
]

abbrev acted_by : Option Text → Text → Bool
acted_by none actor = false
acted_by (some a) actor = text_eq a actor

-- The caller's own retry: the last event of the request has this cause and this actor.
unfoldable pub is_own_retry : Option LeaveEvent → LeaveCause → Text → Bool
is_own_retry none cause actor = false
is_own_retry (some e) cause actor = same_cause e.cause cause && acted_by e.actor_id actor

state_of : LeaveDayRow → LeaveDayState
state_of row = row.state

unfoldable pub build_view : LeaveDb → Text → Text → Result LeaveView
unfolding find_request sort_rows state_of
build_view db tenant_id id = elim (find_request db tenant_id id) [
  | none ↦ thrown (http_exception 500 internal_server_error)
  | some request ↦
      (let days = sort_rows (keep (of_request id) db.days) in
        returned (record {
          request = request;
          status = derive_leave_status (map state_of days);
          dates = days;
          revoked_dates = none;
          cancelled_dates = none;
        }))
]

pub record ActConfig : Type 0 where
  pub source_states : List LeaveDayState
  pub to_state : LeaveDayState
  pub cause : LeaveCause
  pub conflict_code : ErrorCode
  pub reason : Option Text

pub split_for : Desk → Text → List LeaveDayState → List LeaveDayRow → Result SplitOutcome
split_for desk employee_id source_states days = do
  start_minute ← desk.start_minute_of employee_id
  returned (
      split_actionable_dates
        (record {
          today = desk.today;
          now_minute = desk.now_minute;
          start_minute = start_minute;
          source_states = source_states;
        })
        days)

-- A revoke acts on the actionable part of the source days, the other two on all of them.
abbrev is_revoke : LeaveCause → Bool
is_revoke owner_revoke = true
is_revoke _ = false

unfoldable pub action_dates_of : Desk → Text → ActConfig → List LeaveDayRow → Result (List Text)
unfolding split_for
action_dates_of desk employee_id config days =
    if is_revoke config.cause
    then (do
      split ← split_for desk employee_id config.source_states days
      returned split.action_dates)
    else returned (map date_of days)

-- A revoke shows the dates that the write returned, a cancel those that it asked for.
abbrev with_action_dates : LeaveCause → (transitioned asked : List Text) → LeaveView → LeaveView
with_action_dates owner_revoke transitioned asked view = record view {
  revoked_dates = some transitioned;
}
with_action_dates employee_cancel transitioned asked view = record view {
  cancelled_dates = some asked;
}
with_action_dates _ transitioned asked view = view

pub viewed : Text → Text → LeaveDb → Result (LeaveView × LeaveDb)
viewed tenant_id id db = do view ← build_view db tenant_id id; returned (view, db)

pub core_for : Text → LeaveRequestRow → LeaveCause → Text → Option Text → List Text → TransitionCore
core_for tenant_id request cause actor_id reason recipients = record {
  tenant_id = tenant_id;
  employee_id = request.employee_id;
  request_id = request.request_id;
  leave_request_db_id = request.id;
  cause = cause;
  actor_id = some actor_id;
  reason = reason;
  notification = some (record { recipient_ids = recipients; dedupe_suffix = none });
}

-- With no date left to act on: the caller's retry answers the view, any other call a conflict.
unfoldable pub no_dates :
    LeaveDb
    → (tenant_id actor_id : Text) → LeaveRequestRow
    → LeaveCause
    → ErrorCode
    → Result (LeaveView × LeaveDb)
unfolding viewed last_event is_own_retry
no_dates db tenant_id actor_id request cause conflict_code =
    if is_own_retry (last_event request.id db.events) cause actor_id
    then viewed tenant_id request.id db
    else thrown (leave_rejection_to_exception conflict_code)

-- The write and the refreshed view.
unfoldable pub apply_action :
    LeaveDb
    → (tenant_id actor_id : Text) → LeaveRequestRow
    → ActConfig
    → (recipients dates : List Text) → Result (LeaveView × LeaveDb)
unfolding core_for
apply_action db tenant_id actor_id request config recipients dates = do
  written ←
      transition_leave_days db
        (core_for tenant_id request config.cause actor_id config.reason recipients) dates
        config.source_states config.to_state
  view ← build_view written.1 tenant_id request.id
  returned (with_action_dates config.cause written.0 dates view, written.1)

pub act_on :
    LeaveDb
    → (tenant_id actor_id : Text) → LeaveRequestRow
    → ActConfig
    → (recipients dates : List Text) → Result (LeaveView × LeaveDb)
act_on db tenant_id actor_id request config recipients [] =
    no_dates db tenant_id actor_id request config.cause config.conflict_code
act_on db tenant_id actor_id request config recipients (d ∷ ds) =
    apply_action db tenant_id actor_id request config recipients (d ∷ ds)

unfoldable pub act_transact :
    Desk
    → LeaveDb
    → (tenant_id actor_id leave_request_id : Text) → ActConfig
    → Result (LeaveView × LeaveDb)
unfolding act_on
act_transact desk db tenant_id actor_id leave_request_id config =
    elim (find_request db tenant_id leave_request_id) [
      | none ↦ thrown leave_not_found
      | some request ↦ (do
        dates ←
            action_dates_of desk request.employee_id config
              (find_days_in_states db request.id config.source_states)
        act_on db tenant_id actor_id request config (request.employee_id ∷ []) dates)
    ]

abbrev approve_config : ActConfig
approve_config = record {
  source_states = pending_source_states;
  to_state = approved;
  cause = approve;
  conflict_code = leave_not_pending;
  reason = none;
}

abbrev reject_config : Option Text → ActConfig
reject_config reason = record {
  source_states = pending_source_states;
  to_state = rejected;
  cause = reject;
  conflict_code = leave_not_pending;
  reason = reason;
}

abbrev revoke_config : Text → ActConfig
revoke_config reason = record {
  source_states = revoke_source_states;
  to_state = revoked;
  cause = owner_revoke;
  conflict_code = leave_not_revokable;
  reason = some reason;
}

abbrev cancel_config : ActConfig
cancel_config = record {
  source_states = cancel_source_states;
  to_state = cancelled;
  cause = employee_cancel;
  conflict_code = leave_not_cancellable;
  reason = none;
}

-- The employee's own request, the admins as recipients, and the split of all its active days.
unfoldable pub cancel_transact :
    Desk → LeaveDb → (tenant_id employee_id leave_request_id : Text) → Result (LeaveView × LeaveDb)
unfolding act_on split_for
cancel_transact desk db tenant_id employee_id leave_request_id =
    elim (find_own_request db tenant_id leave_request_id employee_id) [
      | none ↦ thrown leave_not_found
      | some request ↦ (do
        split ←
            split_for desk employee_id cancel_source_states
              (find_days_in_states db request.id cancel_source_states)
        act_on db tenant_id employee_id request cancel_config desk.admin_ids split.action_dates)
    ]

unfoldable pub approve_leave :
    Desk → LeaveDb → (tenant_id owner_id id : Text) → Result (LeaveView × LeaveDb)
unfolding act_transact
approve_leave desk db tenant_id owner_id id =
    act_transact desk db tenant_id owner_id id approve_config

unfoldable pub reject_leave :
    Desk → LeaveDb → (tenant_id owner_id id : Text) → Option Text → Result (LeaveView × LeaveDb)
unfolding act_transact
reject_leave desk db tenant_id owner_id id reason =
    act_transact desk db tenant_id owner_id id (reject_config reason)

unfoldable pub revoke_leave :
    Desk → LeaveDb → (tenant_id owner_id id reason : Text) → Result (LeaveView × LeaveDb)
unfolding act_transact
revoke_leave desk db tenant_id owner_id id reason =
    act_transact desk db tenant_id owner_id id (revoke_config reason)
