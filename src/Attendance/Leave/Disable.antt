-- ===== src/Attendance/Leave/Disable.antt =====
-- src/attendance/leave-transition.ts (cancelLeaveOnDisable) with the sweep of leave.repository.ts: what
-- the disabling of an employee does to the leave days. Requests stand in the order of their creation.
pub mod Once
pub mod Swept
use fenzit_be.Attendance.Leave.Actions.Effect.{cancelling}
use fenzit_be.Attendance.Leave.Actions.Lifecycle.{
  target-Guard, set_state-Evolves, stay, day, done, Evolves,
}
use fenzit_be.Attendance.Leave.Transition.{
  set_state, date_of, is_target, sort_dates, write_event_and_notification, TransitionCore,
  transition_leave_days,
}
use fenzit_be.Attendance.Leave.Types.{
  cancelled, approved, same_state, pending, disable, LeaveRequestRow, LeaveDayRow, LeaveDb,
}
use fenzit_be.Prelude.{
  sym, inr, ap, arith, text_leb, [], inl, some, ◌∷◌, subst, ◌++◌, none, ◌+◌, ◌&&◌, length, text_eq,
  map, ℕ, ◌≡◌, keep, ltb, Bool, List, Text,
}
use fenzit_be.Attendance.Errors.{Result-cases, returned, Result, ◌>>=◌}

pub record DisableSweep : Type 0 where
  pub request_id : Text
  pub request_key : Text
  pub pending_dates : List Text
  pub approved_dates : List Text

abbrev dates_of : List LeaveDayRow → (LeaveDayRow → Bool) → List Text
dates_of days p = map date_of (keep p days)

abbrev is_pending_of : Text → LeaveDayRow → Bool
is_pending_of id d = text_eq d.leave_request_id id && same_state pending d.state

abbrev is_approved_from : Text → Text → LeaveDayRow → Bool
is_approved_from id from d =
    text_eq d.leave_request_id id && (same_state approved d.state && text_leb from d.leave_date)

sweep_of : LeaveDb → Text → LeaveRequestRow → DisableSweep
sweep_of db effective_from r = record {
  request_id = r.id;
  request_key = r.request_id;
  pending_dates = dates_of db.days (is_pending_of r.id);
  approved_dates = dates_of db.days (is_approved_from r.id effective_from);
}

-- The join drops a request without such a day.
abbrev has_dates : DisableSweep → Bool
has_dates s = ltb 0 (length s.pending_dates + length s.approved_dates)

unfoldable pub find_days_for_disable_sweep :
    LeaveDb → (tenant_id employee_id effective_from : Text) → List DisableSweep
unfolding sweep_of
find_days_for_disable_sweep db tenant_id employee_id effective_from = keep has_dates (
    map (sweep_of db effective_from) (
      keep
        (λ (r : LeaveRequestRow).
          text_eq r.tenant_id tenant_id && text_eq r.employee_id employee_id)
        db.requests))

disable_core : Text → Text → DisableSweep → TransitionCore
disable_core tenant_id employee_id s = record {
  tenant_id = tenant_id;
  employee_id = employee_id;
  request_id = s.request_key;
  leave_request_db_id = s.request_id;
  cause = disable;
  actor_id = none;
  reason = none;
  notification = some (record { recipient_ids = employee_id ∷ []; dedupe_suffix = none });
}

-- One round of the loop; a sweep without a date is passed over by the transition itself.
unfoldable pub cancel_sweep : Text → Text → LeaveDb → DisableSweep → Result LeaveDb
unfolding disable_core
cancel_sweep tenant_id employee_id db s = do
  written ←
      transition_leave_days db (disable_core tenant_id employee_id s)
        (sort_dates (s.pending_dates ++ s.approved_dates)) (pending ∷ approved ∷ []) cancelled
  returned written.1

unfoldable pub cancel_sweeps : Text → Text → LeaveDb → List DisableSweep → Result LeaveDb
cancel_sweeps tenant_id employee_id db [] = returned db
cancel_sweeps tenant_id employee_id db (s ∷ ss) = do
  db' ← cancel_sweep tenant_id employee_id db s
  cancel_sweeps tenant_id employee_id db' ss

unfoldable pub cancel_leave_on_disable :
    LeaveDb → (tenant_id employee_id effective_from : Text) → Result (ℕ × LeaveDb)
cancel_leave_on_disable db tenant_id employee_id effective_from = do
  db' ←
      cancel_sweeps tenant_id employee_id db
        (find_days_for_disable_sweep db tenant_id employee_id effective_from)
  returned (length (find_days_for_disable_sweep db tenant_id employee_id effective_from), db')

-- A sequence of writes, each of which the guard admits.
pub data Steps : List LeaveDayRow → List LeaveDayRow → Type 0 where
  stop : {rows : List LeaveDayRow} → Steps rows rows
  step :
      {rows rows' rows'' : List LeaveDayRow}
      → Evolves rows rows'
      → Steps rows' rows''
      → Steps rows rows''

Evolves-refl : (rows : List LeaveDayRow) → Evolves rows rows
Evolves-refl [] = done
Evolves-refl (r ∷ rows) = day {r = r} {s = r.state} stay (Evolves-refl rows)

-- A write to `cancelled` from the active states is a step of the guard.
pub transition-Evolves :
    (db : LeaveDb) (core : TransitionCore) (dates : List Text) {x : List Text × LeaveDb}
    → transition_leave_days db core dates (pending ∷ approved ∷ []) cancelled ≡ returned x
    → Evolves db.days x.1.days
unfolding transition_leave_days write_event_and_notification is_target
transition-Evolves db core [] {x} h =
    subst (λ (l : LeaveDb). Evolves db.days l.days) (let e : ([], db) ≡ x = cc in ap (λ p. p.1) e)
      (Evolves-refl db.days)
transition-Evolves db core (d ∷ ds) {x} h =
    let moved : x.1.days
        ≡ map
            (set_state (is_target core.leave_request_db_id (d ∷ ds) (pending ∷ approved ∷ []))
              cancelled)
            db.days =
      ground arith in
    subst (Evolves db.days) (sym moved) (
      set_state-Evolves (is_target core.leave_request_db_id (d ∷ ds) (pending ∷ approved ∷ []))
        cancelled db.days (λ r e. target-Guard cancelling r.state (ground arith)))

cancel_sweep-Evolves :
    (tenant_id employee_id : Text) (db : LeaveDb) (s : DisableSweep) {db' : LeaveDb}
    → cancel_sweep tenant_id employee_id db s ≡ returned db'
    → Evolves db.days db'.days
unfolding cancel_sweep
cancel_sweep-Evolves tenant_id employee_id db s {db'} h =
    elim (Result-cases (
      transition_leave_days db (disable_core tenant_id employee_id s)
        (sort_dates (s.pending_dates ++ s.approved_dates)) (pending ∷ approved ∷ []) cancelled)) [
          | inl (x, e) ↦ absurd (ground arith)
          | inr (written, e) ↦
              let same : written.1 ≡ db' = ground arith in
              subst (λ (l : LeaveDb). Evolves db.days l.days) same
                (transition-Evolves db (disable_core tenant_id employee_id s) _ e)
        ]

cancel_sweeps-Steps :
    (tenant_id employee_id : Text) (db : LeaveDb) (ss : List DisableSweep) {db' : LeaveDb}
    → cancel_sweeps tenant_id employee_id db ss ≡ returned db'
    → Steps db.days db'.days
unfolding cancel_sweeps
cancel_sweeps-Steps tenant_id employee_id db [] {db'} h =
    subst (λ (l : LeaveDb). Steps db.days l.days) (let e : db ≡ db' = cc in e) stop
cancel_sweeps-Steps tenant_id employee_id db (s ∷ ss) {db'} h =
    elim (Result-cases (cancel_sweep tenant_id employee_id db s)) [
      | inl (x, e) ↦ absurd (ground arith)
      | inr (next, e) ↦
          step (cancel_sweep-Evolves tenant_id employee_id db s e)
            (cancel_sweeps-Steps tenant_id employee_id next ss {db' = db'} (ground arith))
    ]

-- Disabling an employee, when it returns, has changed the leave days by writes that the guard of the
-- table admits, one for each request that it swept, and answers the number of these requests.
pub cancel_leave_on_disable-Steps :
    (db : LeaveDb) (tenant_id employee_id effective_from : Text) {n : ℕ} {db' : LeaveDb}
    → cancel_leave_on_disable db tenant_id employee_id effective_from ≡ returned (n, db')
    → Steps db.days db'.days
      × (n ≡ length (find_days_for_disable_sweep db tenant_id employee_id effective_from))
unfolding cancel_leave_on_disable
cancel_leave_on_disable-Steps db tenant_id employee_id effective_from {n} {db'} h =
    elim (Result-cases (
      cancel_sweeps tenant_id employee_id db
        (find_days_for_disable_sweep db tenant_id employee_id effective_from))) [
          | inl (x, e) ↦ absurd (ground arith)
          | inr (next, e) ↦
              let same : next ≡ db' = ground arith in
              (
                subst (λ (l : LeaveDb). Steps db.days l.days) same
                    (cancel_sweeps-Steps tenant_id employee_id db _ e),
                ground arith,
              )
        ]
