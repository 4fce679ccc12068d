-- ===== src/Attendance/Leave/Actions/Lifecycle.antt =====
-- The life of a leave day under the four actions, held against the transition guard of the table
-- `leave_request_days` (its trigger in supabase/migrations/20260929000001_attendance_leave_tables.sql).
use fenzit_be.Attendance.Errors.{returned}
use fenzit_be.Attendance.Leave.Actions.{LeaveView, Desk}
use fenzit_be.Attendance.Leave.Actions.Effect.{
  cancelling, approving, acts_on, perform-days, revoking, perform, rejecting, found, target,
  sources, Action,
}
use fenzit_be.Attendance.Leave.Transition.{set_state}
use fenzit_be.Prelude.{arith, inr, inl, some, Bool-cases, map, true, ◌≡◌, ◌∷◌, Text, Bool, [], List}
use fenzit_be.Attendance.Leave.Types.{
  revoked, cancelled, LeaveRequestRow, rejected, approved, LeaveDb, in_states, LeaveDayRow, pending,
  LeaveDayState,
}

pub data Guard : LeaveDayState → LeaveDayState → Type 0 where
  stay : {s : LeaveDayState} → Guard s s
  approve_pending : Guard pending approved
  reject_pending : Guard pending rejected
  cancel_pending : Guard pending cancelled
  revoke_approved : Guard approved revoked
  cancel_approved : Guard approved cancelled

-- Row by row: the same day of the same request, in a state that the guard admits.
pub data Evolves : List LeaveDayRow → List LeaveDayRow → Type 0 where
  done : Evolves [] []
  day :
      {r : LeaveDayRow} {s : LeaveDayState} {rows rows' : List LeaveDayRow}
      → Guard r.state s
      → Evolves rows rows'
      → Evolves (r ∷ rows) (record r { state = s } ∷ rows')

pub set_state-Evolves :
    (p : LeaveDayRow → Bool) (to : LeaveDayState) (rows : List LeaveDayRow)
    → ((r : LeaveDayRow) → p r ≡ true → Guard r.state to)
    → Evolves rows (map (set_state p to) rows)
unfolding set_state
set_state-Evolves p to [] h = done
set_state-Evolves p to (r ∷ rows) h = elim (Bool-cases (p r)) [
  | inl e ↦ rw e (day (h r e) (set_state-Evolves p to rows h))
  | inr e ↦ rw e (day {r = r} {s = r.state} stay (set_state-Evolves p to rows h))
]

pub target-Guard :
    (a : Action) (s : LeaveDayState) → in_states (sources a) s ≡ true → Guard s (target a)
target-Guard approving pending h = approve_pending
target-Guard (rejecting reason) pending h = reject_pending
target-Guard (revoking reason) approved h = revoke_approved
target-Guard cancelling pending h = cancel_pending
target-Guard cancelling approved h = cancel_approved
target-Guard a s h = cc

-- No action that returns meets the guard of the table: every day it changes takes a step that the
-- guard admits, and no day is added, dropped or moved.
pub perform-Evolves :
    (desk : Desk) (db : LeaveDb) (tenant_id actor_id id : Text) (a : Action)
    {request : LeaveRequestRow} {v : LeaveView} {db' : LeaveDb}
    → found db tenant_id actor_id id a ≡ some request
    → perform desk db tenant_id actor_id id a ≡ returned (v, db')
    → Evolves db.days db'.days
perform-Evolves desk db tenant_id actor_id id a {request} f h =
    rw (perform-days desk db tenant_id actor_id id a f h) (
      set_state-Evolves (acts_on desk request.employee_id request a) (target a) db.days
        (λ r e. target-Guard a r.state (ground arith)))
