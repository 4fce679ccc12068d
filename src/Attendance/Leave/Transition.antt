-- ===== src/Attendance/Leave/Transition.antt =====
-- src/attendance/leave-transition.ts: the one writer of leave day states. A transaction that throws
-- is rolled back, so a result carries the tables only when the call returns.
use fenzit_be.Prelude.{
  Bool, true, false, ◌&&◌, Option, none, some, List, [], ◌∷◌, ◌++◌, map, ◌==◌, length,
  if◌then◌else◌, exists, keep, get_or, Text, codes, text_eq, text_leb,
}
use fenzit_be.Attendance.Errors.{leave_overlap, Result, returned, thrown}
use fenzit_be.Attendance.Leave.Types.{
  LeaveDayState, pending, approved, in_states, LeaveCause, apply, apply_on_behalf, approve, reject,
  employee_cancel, owner_revoke, checkin_auto_cancel, disable, removal, LeaveDayRow, LeaveEvent,
  NotificationRow, LeaveDb, leave_rejection_to_exception, leave_transition_violation,
}

-- `CAUSE_EVENT`: nothing is sent for a removal.
unfoldable pub cause_event : LeaveCause → Option Text
cause_event apply = some (codes "leave.applied")
cause_event apply_on_behalf = some (codes "leave.applied_on_behalf")
cause_event approve = some (codes "leave.approved")
cause_event reject = some (codes "leave.rejected")
cause_event employee_cancel = some (codes "leave.employee_cancelled")
cause_event owner_revoke = some (codes "leave.owner_revoked")
cause_event checkin_auto_cancel = some (codes "leave.checkin_auto_cancel")
cause_event disable = some (codes "leave.cancelled_by_disable")
cause_event removal = none

pub record NotificationSpec : Type 0 where
  pub recipient_ids : List Text
  pub dedupe_suffix : Option Text

pub record TransitionCore : Type 0 where
  pub tenant_id : Text
  pub employee_id : Text
  -- the idempotency key of the request, and the id of its row
  pub request_id : Text
  pub leave_request_db_id : Text
  pub cause : LeaveCause
  pub actor_id : Option Text
  pub reason : Option Text
  pub notification : Option NotificationSpec

-- `parts.filter((part) => part !== '').join(':')`
join_parts : List Text → Text
join_parts [] = []
join_parts ([] ∷ ps) = join_parts ps
join_parts ((c ∷ p) ∷ ps) = elim (join_parts ps) [
  | [] ↦ c ∷ p
  | d ∷ rest ↦ (c ∷ p) ++ (b':' ∷ d ∷ rest)
]

unfoldable pub dedupe_key : TransitionCore → Text → Text → Option Text → Text
unfolding join_parts
dedupe_key core event recipient suffix =
    join_parts (core.tenant_id ∷ event ∷ recipient ∷ core.request_id ∷ get_or suffix [] ∷ [])

-- `on conflict (dedupe_key) do nothing`
unfoldable pub insert_notification : NotificationRow → List NotificationRow → List NotificationRow
insert_notification n rows =
    if exists (λ (r : NotificationRow). text_eq r.dedupe_key n.dedupe_key) rows
    then rows
    else rows ++ n ∷ []

unfoldable pub notify :
    TransitionCore → Text → Option Text → List Text → List NotificationRow → List NotificationRow
unfolding insert_notification dedupe_key
notify core event suffix [] rows = rows
notify core event suffix (recipient ∷ recipients) rows = notify core event suffix recipients (
    insert_notification
      (record {
        tenant_id = core.tenant_id;
        user_id = recipient;
        event_type = event;
        entity_id = core.leave_request_db_id;
        dedupe_key = dedupe_key core event recipient suffix;
      })
      rows)

event_of : TransitionCore → List Text → LeaveEvent
event_of core dates = record {
  leave_request_id = core.leave_request_db_id;
  employee_id = core.employee_id;
  cause = core.cause;
  actor_id = core.actor_id;
  reason = core.reason;
  affected_dates = dates;
}

notified :
    TransitionCore
    → Option Text
    → Option NotificationSpec
    → List NotificationRow
    → List NotificationRow
notified core (some event) (some spec) rows =
    notify core event spec.dedupe_suffix spec.recipient_ids rows
notified core _ _ rows = rows

unfoldable pub write_event_and_notification : LeaveDb → TransitionCore → List Text → LeaveDb
unfolding event_of notified
write_event_and_notification db core dates = record db {
  events = db.events ++ event_of core dates ∷ [];
  notifications = notified core (cause_event core.cause) core.notification db.notifications;
}

abbrev pub listed : List Text → Text → Bool
listed dates date = exists (text_eq date) dates

-- The rows that the guarded UPDATE matches.
unfoldable pub is_target : Text → List Text → List LeaveDayState → LeaveDayRow → Bool
is_target request dates from_states row =
    text_eq row.leave_request_id request
    && listed dates row.leave_date
    && in_states from_states row.state

unfoldable pub set_state : (LeaveDayRow → Bool) → LeaveDayState → LeaveDayRow → LeaveDayRow
set_state target to row = if target row then record row { state = to } else row

-- `.sort((a, b) => a.localeCompare(b))` on dates
unfoldable pub insert_date : Text → List Text → List Text
insert_date d [] = d ∷ []
insert_date d (x ∷ xs) = if text_leb d x then d ∷ x ∷ xs else x ∷ insert_date d xs

unfoldable pub sort_dates : List Text → List Text
unfolding insert_date
sort_dates [] = []
sort_dates (d ∷ ds) = insert_date d (sort_dates ds)

abbrev pub date_of : LeaveDayRow → Text
date_of row = row.leave_date

-- What the update returns is checked against what was asked for.
unfoldable pub transition_leave_days :
    LeaveDb
    → TransitionCore
    → List Text
    → List LeaveDayState
    → LeaveDayState
    → Result (List Text × LeaveDb)
transition_leave_days db core [] from_states to = returned ([], db)
transition_leave_days db core (d ∷ ds) from_states to =
    let target = is_target core.leave_request_db_id (d ∷ ds) from_states in
    let transitioned = map date_of (keep target db.days) in
    if length transitioned == length (d ∷ ds)
    then returned (
      sort_dates transitioned,
      write_event_and_notification (record db { days = map (set_state target to) db.days }) core
          (d ∷ ds),
    )
    else thrown leave_transition_violation

-- The partial unique index: one active day per employee and date.
abbrev pub is_active : LeaveDayState → Bool
is_active pending = true
is_active approved = true
is_active _ = false

unfoldable pub has_active : List LeaveDayRow → Text → Text → Bool
has_active days employee date =
    exists
      (λ (r : LeaveDayRow).
        is_active r.state && (text_eq r.employee_id employee && text_eq r.leave_date date))
      days

unfoldable pub new_day : TransitionCore → LeaveDayState → Text → LeaveDayRow
new_day core state date = record {
  leave_request_id = core.leave_request_db_id;
  employee_id = core.employee_id;
  leave_date = date;
  state = state;
}

-- The rows are inserted one after another; `none` is the unique violation.
unfoldable pub insert_days :
    TransitionCore → LeaveDayState → List LeaveDayRow → List Text → Option (List LeaveDayRow)
unfolding has_active new_day
insert_days core state days [] = some days
insert_days core state days (d ∷ ds) =
    let rest = insert_days core state (days ++ new_day core state d ∷ []) ds in
    if is_active state && has_active days core.employee_id d then none else rest

unfoldable pub insert_initial_leave_days :
    LeaveDb → TransitionCore → List Text → LeaveDayState → Result LeaveDb
insert_initial_leave_days db core [] state = thrown leave_transition_violation
insert_initial_leave_days db core (d ∷ ds) state = elim (insert_days core state db.days (d ∷ ds)) [
  | none ↦ thrown (leave_rejection_to_exception leave_overlap)
  | some days ↦ returned (write_event_and_notification (record db { days = days }) core (d ∷ ds))
]
