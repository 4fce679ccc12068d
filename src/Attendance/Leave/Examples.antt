-- ===== src/Attendance/Leave/Examples.antt =====
-- A leave desk and its tables: one request over three days, asked for by `e1` and decided by `w1`.
use fenzit_be.Attendance.Leave.Disable.{
  find_days_for_disable_sweep, cancel_sweep, cancel_sweeps, cancel_leave_on_disable,
}
use fenzit_be.Attendance.Leave.Actions.Exclusive.{perform-IsExclusive, IsExclusive}
use fenzit_be.Attendance.Leave.Actions.Lifecycle.{perform-Evolves, Evolves}
use fenzit_be.Attendance.Leave.Transition.{
  insert_initial_leave_days, TransitionCore, has_active, dedupe_key, sort_dates, cause_event,
  insert_notification, notify, write_event_and_notification, set_state, is_target,
  transition_leave_days,
}
use fenzit_be.Attendance.Leave.Actions.Effect.{perform-days, target, approving, acts_on}
use fenzit_be.DayStatus.Context.{is_past_office_start}
use fenzit_be.Attendance.Leave.Split.{split_day, split_actionable_dates, is_actionable, SplitInput}
use fenzit_be.Attendance.Errors.{leave_not_pending, http_exception, thrown, returned, Result}
use fenzit_be.Attendance.Leave.Actions.{
  is_own_retry, last_event, build_view, find_days_in_states, find_request, no_dates, apply_action,
  action_dates_of, cancel_transact, act_transact, revoke_leave, find_own_request, LeaveView,
  approve_leave, Desk,
}
use fenzit_be.Attendance.Leave.Types.{
  apply, leave_rejection_to_exception, first_present, derive_leave_status, pending, approved,
  cancelled, LeaveDayRow, LeaveDb, LeaveDayState, LeaveRequestRow,
}
use fenzit_be.DayStatus.Types.{full_day}
use fenzit_be.Prelude.{refl, map, none, ◌≡◌, some, [], Option, ◌∷◌, codes, Text}

abbrev tenant : Text
tenant = codes "t1"

abbrev employee : Text
employee = codes "e1"

abbrev owner : Text
owner = codes "w1"

abbrev request_id : Text
request_id = codes "q1"

abbrev request : LeaveRequestRow
request = record {
  id = request_id;
  tenant_id = tenant;
  employee_id = employee;
  request_id = codes "k1";
  start_date = codes "2026-09-28";
  end_date = codes "2026-09-30";
  part = full_day;
}

abbrev on : Text → LeaveDayState → LeaveDayRow
on date state = record {
  leave_request_id = request_id;
  employee_id = employee;
  leave_date = date;
  state = state;
}

abbrev db_in : LeaveDayState → LeaveDb
db_in state = record {
  requests = request ∷ [];
  days =
      on (codes "2026-09-28") state
      ∷ on (codes "2026-09-29") state
      ∷ on (codes "2026-09-30") state
      ∷ [];
  events = [];
  notifications = [];
}

-- It is noon of the second day; the office starts at ten.
abbrev desk : Desk
desk = record {
  today = codes "2026-09-29";
  now_minute = 720;
  start_minute_of = λ e. returned (some 600);
  admin_ids = owner ∷ [];
}

-- The tables that an action leaves.
abbrev after : Result (LeaveView × LeaveDb) → LeaveDb → LeaveDb
after (returned (v, db')) db = db'
after (thrown e) db = db

abbrev view_of : Result (LeaveView × LeaveDb) → Option LeaveDayState
view_of (returned (v, db')) = some v.status
view_of (thrown e) = none

action_tests :
    (view_of (approve_leave desk (db_in pending) tenant owner request_id) ≡ some approved)
    × (view_of (revoke_leave desk (db_in approved) tenant owner request_id (codes "no"))
        ≡ some approved)
    × (view_of (cancel_transact desk (db_in approved) tenant employee request_id) ≡ some approved)
    × (approve_leave desk (db_in approved) tenant owner request_id
        ≡ thrown (http_exception 409 leave_not_pending))
    × ((after
          (cancel_transact desk (db_in approved) tenant employee request_id)
          (db_in approved)).days
        ≡ on (codes "2026-09-28") approved
          ∷ on (codes "2026-09-29") approved
          ∷ on (codes "2026-09-30") cancelled
          ∷ [])
unfolding approve_leave revoke_leave cancel_transact act_transact action_dates_of apply_action
    no_dates find_request find_own_request find_days_in_states split_actionable_dates split_day
    is_actionable transition_leave_days is_target set_state write_event_and_notification notify
    insert_notification dedupe_key cause_event build_view sort_dates derive_leave_status
    first_present is_past_office_start leave_rejection_to_exception last_event is_own_retry
action_tests = (refl, refl, refl, refl, refl)

abbrev input : SplitInput
input = record {
  today = codes "2026-09-29";
  now_minute = 720;
  start_minute = some 600;
  source_states = approved ∷ [];
}

abbrev approved_view : LeaveView
approved_view = record {
  request = request;
  status = approved;
  dates = (db_in approved).days;
  revoked_dates = none;
  cancelled_dates = none;
}

abbrev approved_db : LeaveDb
approved_db = after (approve_leave desk (db_in pending) tenant owner request_id) (db_in pending)

perform-days_example :
    approved_db.days
    ≡ map
        (set_state (acts_on desk request.employee_id request approving) (target approving))
        (db_in pending).days
unfolding approve_leave act_transact action_dates_of apply_action find_request find_days_in_states
    transition_leave_days is_target set_state write_event_and_notification notify
    insert_notification dedupe_key cause_event build_view sort_dates derive_leave_status
    first_present
perform-days_example =
    perform-days desk (db_in pending) tenant owner request_id approving {request = request}
      {v = approved_view} {db' = approved_db} refl refl

perform-Evolves_example : Evolves (db_in pending).days approved_db.days
unfolding approve_leave act_transact action_dates_of apply_action find_request find_days_in_states
    transition_leave_days is_target set_state write_event_and_notification notify
    insert_notification dedupe_key cause_event build_view sort_dates derive_leave_status
    first_present
perform-Evolves_example =
    perform-Evolves desk (db_in pending) tenant owner request_id approving {request = request}
      {v = approved_view} {db' = approved_db} refl refl

perform-IsExclusive_example : IsExclusive approved_db.days
unfolding approve_leave act_transact action_dates_of apply_action find_request find_days_in_states
    transition_leave_days is_target set_state write_event_and_notification notify
    insert_notification dedupe_key cause_event build_view sort_dates derive_leave_status
    first_present has_active
perform-IsExclusive_example =
    perform-IsExclusive desk (db_in pending) tenant owner request_id approving {request = request}
      {v = approved_view} {db' = approved_db} refl refl (refl, (refl, (refl, tt)))

abbrev applied : TransitionCore
applied = record {
  tenant_id = tenant;
  employee_id = employee;
  request_id = codes "k2";
  leave_request_db_id = codes "q2";
  cause = apply;
  actor_id = some employee;
  reason = none;
  notification = some (record { recipient_ids = owner ∷ []; dedupe_suffix = none });
}

abbrev applied_db : LeaveDb
applied_db =
    elim (insert_initial_leave_days (db_in approved) applied (codes "2026-10-01" ∷ []) pending) [
      | returned db' ↦ db'
      | thrown e ↦ db_in approved
    ]

abbrev disabled_db : LeaveDb
disabled_db = elim (cancel_leave_on_disable (db_in approved) tenant employee (codes "2026-09-29")) [
  | returned (n, db') ↦ db'
  | thrown e ↦ db_in approved
]

disable_test :
    disabled_db.days
    ≡ on (codes "2026-09-28") approved
      ∷ on (codes "2026-09-29") cancelled
      ∷ on (codes "2026-09-30") cancelled
      ∷ []
unfolding cancel_leave_on_disable cancel_sweeps cancel_sweep find_days_for_disable_sweep
    transition_leave_days is_target set_state write_event_and_notification notify
    insert_notification dedupe_key cause_event sort_dates
disable_test = refl
