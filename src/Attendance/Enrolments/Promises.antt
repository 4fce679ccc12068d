-- ===== src/Attendance/Enrolments/Promises.antt =====
-- The promises of the enrolment operations of src/attendance/enrolments.service.ts, for tables that the
-- database admits.
use fenzit_be.Attendance.Leave.Transition.{set_state}
use fenzit_be.Attendance.Leave.Types.{cancelled, LeaveDayRow}
use fenzit_be.Attendance.Leave.Disable.Swept.{is_swept, cancel_leave_on_disable-days}
use fenzit_be.Attendance.Leave.Disable.Once.{has_key_once}
use fenzit_be.Attendance.Errors.{Result-cases}
use fenzit_be.Attendance.Leave.Disable.{cancel_leave_on_disable}
use fenzit_be.Attendance.Enrolments.Coverage.{is_covered}
use fenzit_be.Attendance.Enrolments.Outcomes.{
  changed-Covers, disable_enrolment_work-completed, in_transaction-Transacted,
  set_enrolment_work-completed, Covers, Transacted, Admitted, changed,
}
use fenzit_be.Attendance.Enrolments.Service.{
  clamp, change_of, disable_enrolment_work, set_enrolment_work, open_lifecycle, AccessStateResponse,
  RequestUser, disable_enrolment, cancel_leave, set_enrolment,
}
use fenzit_be.Attendance.Enrolments.Tables.{raised, completed, TxResult, EnrolmentDb, Server}
use fenzit_be.Prelude.{
  map, List, ap, inr, false, ◌∙◌, arith, none, inl, sym, subst, true, some, ◌≡◌, Option, Text, refl,
}

-- What the tables say after an enrolment from a date: the employee is tracked, at the office.
abbrev pub Enrolled :
    Server
    → (tenant_id employee_id office_id : Text) → Option Text
    → EnrolmentDb
    → TxResult AccessStateResponse × EnrolmentDb
    → Type 0
Enrolled server t e o start db (completed r, db') =
    (today : Text) × (open_lifecycle server t ≡ completed today)
    × Covers (change_of t e (some o) (clamp start today) true) db db'
Enrolled server t e o start db (raised x, db') = db' ≡ db

Enrolled-of :
    (server : Server) (t e o : Text) (start : Option Text) (db : EnrolmentDb)
    (result : TxResult AccessStateResponse × EnrolmentDb)
    → Admitted db
    → Transacted server e db (set_enrolment_work server db t e o start) result
    → Enrolled server t e o start db result
Enrolled-of server t e o start db (raised x, db') h done = done
Enrolled-of server t e o start db (completed r, db') h done =
    let (today, q, same) = set_enrolment_work-completed server db t e o start h done.0 in
    (
      today,
      q,
      subst (Covers (change_of t e (some o) (clamp start today) true) db) (sym same)
          (changed-Covers server _ db),
    )

-- An enrolment either throws and leaves the tables alone, or it answers; then, from the given date or
-- from today if that is later, the employee is enrolled and assigned to the office and to no other, and
-- nothing else has changed: not the dates before, and not the other employees.
pub set_enrolment-Enrolled :
    (server : Server) (user : RequestUser) (t e o : Text) (start : Option Text) (db : EnrolmentDb)
    → user.tenant_id ≡ some t
    → Admitted db
    → Enrolled server t e o start db (set_enrolment server user e o start db)
unfolding set_enrolment
set_enrolment-Enrolled server user t e o start db is_member h =
    rw (set_enrolment, is_member)
      (Enrolled-of server t e o start db _ h
        (in_transaction-Transacted server e db (set_enrolment_work server db t e o start)))

-- The leave days after the employee's pending days, and the approved ones from a date on, are cancelled.
abbrev pub swept_days : EnrolmentDb → (tenant_id employee_id from : Text) → List LeaveDayRow
swept_days db t e from =
    map (set_state (is_swept db.leave.requests t e from) cancelled) db.leave.days

-- What the tables say after a disabling from a date.
abbrev pub Disabled :
    Server
    → (tenant_id employee_id : Text) → Option Text
    → EnrolmentDb
    → TxResult AccessStateResponse × EnrolmentDb
    → Type 0
Disabled server t e at db (completed r, db') =
    (today : Text) × (open_lifecycle server t ≡ completed today)
    × Covers (change_of t e none (clamp at today) false) db db'
    × (db'.leave.days ≡ swept_days db t e (clamp at today))
Disabled server t e at db (raised x, db') = db' ≡ db

cancel_leave-swept :
    (db : EnrolmentDb) (t e from : Text) {db' : EnrolmentDb}
    → has_key_once db.leave.days ≡ true
    → cancel_leave db t e from ≡ completed db'
    → (db'.leave.days ≡ swept_days db t e from)
      × (db'.enrolments ≡ db.enrolments)
      × (db'.assignments ≡ db.assignments)
unfolding cancel_leave
cancel_leave-swept db t e from {db'} key h =
    elim (Result-cases (cancel_leave_on_disable db.leave t e from)) [
      | inl (x, q) ↦ absurd (ground arith)
      | inr (out, q) ↦
          let same : record db { leave = out.1 } ≡ db' = ground arith in
          subst
            (λ (l : EnrolmentDb).
              (l.leave.days ≡ swept_days db t e from)
              × (l.enrolments ≡ db.enrolments)
              × (l.assignments ≡ db.assignments))
            same (cancel_leave_on_disable-days db.leave t e from key q, refl, refl)
    ]

Disabled-of :
    (server : Server) (t e : Text) (at : Option Text) (db : EnrolmentDb)
    (result : TxResult AccessStateResponse × EnrolmentDb)
    → Admitted db
    → has_key_once db.leave.days ≡ true
    → Transacted server e db (disable_enrolment_work server db t e at) result
    → Disabled server t e at db result
unfolding changed
Disabled-of server t e at db (raised x, db') h key done = done
Disabled-of server t e at db (completed r, db') h key done =
    let (today, q, cancels) = disable_enrolment_work-completed server db t e at h done.0 in
    let (days, en, asg) = cancel_leave-swept _ t e (clamp at today) key cancels in
    (
      today,
      q,
      λ e' office date.
          let both =
            changed-Covers server (change_of t e none (clamp at today) false) db e' office date in
          (
            ap (λ rows. is_covered rows e' office date) en ∙ both.0,
            ap (λ rows. is_covered rows e' office date) asg ∙ both.1,
          ),
      days,
    )

-- On tables that keep their keys, a disabling either throws and leaves the tables alone, or it answers;
-- then, from the given date or from today if that is later, no date of the employee is enrolled or
-- assigned, while the history before it and the other employees are as they were; the employee's pending
-- leave days and the approved ones of that date or later are cancelled, and no other leave day has
-- changed.
pub disable_enrolment-Disabled :
    (server : Server) (user : RequestUser) (t e : Text) (at : Option Text) (db : EnrolmentDb)
    → user.tenant_id ≡ some t
    → Admitted db
    → has_key_once db.leave.days ≡ true
    → Disabled server t e at db (disable_enrolment server user e at db)
unfolding disable_enrolment
disable_enrolment-Disabled server user t e at db is_member h key =
    rw (disable_enrolment, is_member)
      (Disabled-of server t e at db _ h key
        (in_transaction-Transacted server e db (disable_enrolment_work server db t e at)))

-- Every enrolled date has an office, and every assigned date is enrolled.
abbrev pub InStep : EnrolmentDb → Type 0
InStep db =
    (e date : Text)
    → is_covered db.enrolments e (λ office. true) date
      ≡ is_covered db.assignments e (λ office. true) date

Enrolled-InStep :
    (server : Server) (t e o : Text) (start : Option Text) (db : EnrolmentDb)
    (result : TxResult AccessStateResponse × EnrolmentDb)
    → InStep db
    → Enrolled server t e o start db result
    → InStep result.1
Enrolled-InStep server t e o start db (raised x, db') both same e' date =
    subst InStep (sym same) both e' date
Enrolled-InStep server t e o start db (completed r, db') both (today, q, view) e' date =
    let new = view e' (λ office. true) date in new.0 ∙ ground (arith, both e' date) ∙ sym new.1

-- An enrolment that answers keeps every enrolled date assigned and every assigned date enrolled, which
-- the check at commit asks for.
pub set_enrolment-InStep :
    (server : Server) (user : RequestUser) (t e o : Text) (start : Option Text) (db : EnrolmentDb)
    → user.tenant_id ≡ some t
    → Admitted db
    → InStep db
    → InStep (set_enrolment server user e o start db).1
set_enrolment-InStep server user t e o start db is_member h both =
    Enrolled-InStep server t e o start db _ both
      (set_enrolment-Enrolled server user t e o start db is_member h)
