-- ===== src/Attendance/Leave/Actions/Exclusive.antt =====
-- One active leave day per employee and date: the partial unique index as an invariant of what inserts
-- leave days and of the four actions.
use fenzit_be.Attendance.Errors.{returned}
use fenzit_be.Attendance.Leave.Actions.Effect.{perform, found, Action}
use fenzit_be.Attendance.Leave.Actions.Lifecycle.{
  cancel_approved, revoke_approved, cancel_pending, perform-Evolves, reject_pending,
  approve_pending, done, stay, day, Evolves, Guard,
}
use fenzit_be.Attendance.Leave.Actions.{LeaveView, Desk}
use fenzit_be.Attendance.Leave.Transition.{
  new_day, is_active, write_event_and_notification, TransitionCore, insert_initial_leave_days,
  insert_days, has_active,
}
use fenzit_be.Attendance.Leave.Types.{LeaveRequestRow, LeaveDb, LeaveDayRow, LeaveDayState}
use fenzit_be.Prelude.{
  text_eq_sym, sym, subst, inr, inl, Option-cases, ◌||◌, some, [], arith, false, ◌&&◌, ◌∷◌, ◌++◌,
  ◌≡◌, text_eq, Text, List, refl,
}

abbrev pub IsExclusive : List LeaveDayRow → Type 0
IsExclusive [] = Unit
IsExclusive (r ∷ rows) =
    ((is_active r.state && has_active rows r.employee_id r.leave_date) ≡ false) × IsExclusive rows

Guard-is_active : (s t : LeaveDayState) → Guard s t → is_active s ≡ false → is_active t ≡ false
Guard-is_active s t stay h = h
Guard-is_active s t approve_pending h = cc
Guard-is_active s t reject_pending h = cc
Guard-is_active s t cancel_pending h = cc
Guard-is_active s t revoke_approved h = cc
Guard-is_active s t cancel_approved h = cc

Evolves-has_active :
    {rows rows' : List LeaveDayRow} (employee date : Text)
    → Evolves rows rows'
    → has_active rows employee date ≡ false
    → has_active rows' employee date ≡ false
unfolding has_active
Evolves-has_active employee date done h = refl
Evolves-has_active employee date (day {r} {s} {rows} {rows'} g e) h =
    ground (arith, Guard-is_active r.state s g, Evolves-has_active employee date e)

Evolves-IsExclusive :
    {rows rows' : List LeaveDayRow} → Evolves rows rows' → IsExclusive rows → IsExclusive rows'
Evolves-IsExclusive done x = tt
Evolves-IsExclusive (day {r} {s} {rows} {rows'} g e) x = (
  ground (arith, Guard-is_active r.state s g, Evolves-has_active r.employee_id r.leave_date e, x.0),
  Evolves-IsExclusive e x.1,
)

-- The four actions keep to one active day per employee and date.
pub perform-IsExclusive :
    (desk : Desk) (db : LeaveDb) (tenant_id actor_id id : Text) (a : Action)
    {request : LeaveRequestRow} {v : LeaveView} {db' : LeaveDb}
    → found db tenant_id actor_id id a ≡ some request
    → perform desk db tenant_id actor_id id a ≡ returned (v, db')
    → IsExclusive db.days
    → IsExclusive db'.days
perform-IsExclusive desk db tenant_id actor_id id a f h x =
    Evolves-IsExclusive (perform-Evolves desk db tenant_id actor_id id a f h) x

has_active-append :
    (rows : List LeaveDayRow) (r : LeaveDayRow) (employee date : Text)
    → has_active (rows ++ r ∷ []) employee date ≡ (
        has_active rows employee date
        || (is_active r.state && (text_eq r.employee_id employee && text_eq r.leave_date date)))
unfolding has_active
has_active-append [] r employee date = ground arith
has_active-append (x ∷ rows) r employee date =
    ground (arith, has_active-append rows r employee date)

IsExclusive-append :
    (rows : List LeaveDayRow) (r : LeaveDayRow)
    → IsExclusive rows
    → (is_active r.state && has_active rows r.employee_id r.leave_date) ≡ false
    → IsExclusive (rows ++ r ∷ [])
unfolding has_active
IsExclusive-append [] r x h = (ground arith, tt)
IsExclusive-append (y ∷ rows) r x h = (
  ground (
    arith,
    has_active-append rows r y.employee_id y.leave_date,
    text_eq_sym y.employee_id r.employee_id,
    text_eq_sym y.leave_date r.leave_date,
    x.0,
  ),
  IsExclusive-append rows r x.1 (ground arith),
)

insert_days-IsExclusive :
    (core : TransitionCore) (state : LeaveDayState) (days : List LeaveDayRow) (dates : List Text)
    {days' : List LeaveDayRow}
    → insert_days core state days dates ≡ some days'
    → IsExclusive days
    → IsExclusive days'
unfolding insert_days
insert_days-IsExclusive core state days [] {days'} h x =
    let same : days ≡ days' = cc in subst IsExclusive same x
insert_days-IsExclusive core state days (d ∷ ds) {days'} h x =
    insert_days-IsExclusive core state (days ++ new_day core state d ∷ []) ds {days' = days'}
      (ground arith)
      (IsExclusive-append days (new_day core state d) x (unfold new_day in ground arith))

-- The days of a new request are inserted only when they keep to one active day per employee and date.
pub insert_initial_leave_days-IsExclusive :
    (db : LeaveDb) (core : TransitionCore) (dates : List Text) (state : LeaveDayState)
    {db' : LeaveDb}
    → insert_initial_leave_days db core dates state ≡ returned db'
    → IsExclusive db.days
    → IsExclusive db'.days
unfolding insert_initial_leave_days write_event_and_notification
insert_initial_leave_days-IsExclusive db core [] state h x = cc
insert_initial_leave_days-IsExclusive db core (d ∷ ds) state {db'} h x =
    elim (Option-cases (insert_days core state db.days (d ∷ ds))) [
      | inl e ↦ absurd (ground arith)
      | inr (days, e) ↦
          let same : db'.days ≡ days = ground arith in
          subst IsExclusive (sym same) (insert_days-IsExclusive core state db.days (d ∷ ds) e x)
    ]
