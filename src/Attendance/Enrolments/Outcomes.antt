-- ===== src/Attendance/Enrolments/Outcomes.antt =====
-- What the operations of src/attendance/enrolments.service.ts do to the tables when they answer, and
-- that they leave them alone when they throw.
use fenzit_be.Attendance.Enrolments.Coverage.{cut_and_insert-is_covered, covered_after, is_covered}
use fenzit_be.Attendance.Enrolments.Equivalence.{change_rows-cut_and_insert, cut_and_insert}
use fenzit_be.Attendance.Enrolments.Cut.{is_exclusive}
use fenzit_be.Attendance.Enrolments.Service.{
  require_enrolled, cancel_leave, reassign_from, disable_enrolment_work, reassign_office_work,
  live_office, require_tenant_employee, open_lifecycle, clamp, change_of, AccessStateResponse, Work,
  answered, set_enrolment_work, in_transaction, Change, apply_both, apply_plan,
}
use fenzit_be.Attendance.Enrolments.Tables.{
  read_access_state, TxResult-cases, TxResult, raised, completed, Server, EnrolmentDb,
}
use fenzit_be.Prelude.{
  none, inr, arith, inl, Bool-cases, some, Bool, Option, false, Text, ◌≡◌, true, refl,
}

-- The tables of the database hold what their constraints admit.
abbrev pub Admitted : EnrolmentDb → Type 0
Admitted db = (is_exclusive db.enrolments ≡ true) × (is_exclusive db.assignments ≡ true)

unfoldable pub changed : Server → Change → EnrolmentDb → EnrolmentDb
changed server c db = record db {
  enrolments = cut_and_insert server c false db.enrolments;
  assignments = cut_and_insert server c true db.assignments;
}

pub apply_plan-assignments :
    (server : Server) (c : Change) (db : EnrolmentDb)
    → Admitted db
    → apply_plan server c true db
      ≡ completed (record db { assignments = cut_and_insert server c true db.assignments })
unfolding apply_plan
apply_plan-assignments server c db h =
    rw (apply_plan, change_rows-cut_and_insert server c true db.assignments h.1) refl

apply_plan-enrolments :
    (server : Server) (c : Change) (db : EnrolmentDb)
    → is_exclusive db.enrolments ≡ true
    → apply_plan server c false db
      ≡ completed (record db { enrolments = cut_and_insert server c false db.enrolments })
unfolding apply_plan
apply_plan-enrolments server c db h =
    rw (apply_plan, change_rows-cut_and_insert server c false db.enrolments h) refl

pub apply_both-changed :
    (server : Server) (c : Change) (db : EnrolmentDb)
    → Admitted db
    → apply_both server c db ≡ completed (changed server c db)
unfolding apply_both changed
apply_both-changed server c db h =
    rw (apply_both, apply_plan-assignments server c db h)
      (apply_plan-enrolments server c
        (record db { assignments = cut_and_insert server c true db.assignments }) h.0)

-- What a change of both tables means for every employee and date.
abbrev pub Covers : Change → EnrolmentDb → EnrolmentDb → Type 0
Covers c db db' =
    (e : Text) (office : Option Text → Bool) (date : Text)
    → (is_covered db'.enrolments e office date ≡ covered_after c false db.enrolments e office date)
      × (is_covered db'.assignments e office date
          ≡ covered_after c true db.assignments e office date)

pub changed-Covers :
    (server : Server) (c : Change) (db : EnrolmentDb) → Covers c db (changed server c db)
unfolding changed
changed-Covers server c db e office date = (
  cut_and_insert-is_covered server c false db.enrolments e office date,
  cut_and_insert-is_covered server c true db.assignments e office date,
)

-- A transaction that answers has done its work and passed the check at commit; one that throws leaves the tables as they were.
abbrev pub Transacted :
    Server → Text → EnrolmentDb → Work → TxResult AccessStateResponse × EnrolmentDb → Type 0
Transacted server e db work (completed r, db') =
    (work ≡ completed (r, db')) × (server.has_gap db' e ≡ false)
Transacted server e db work (raised x, db') = db' ≡ db

pub in_transaction-Transacted :
    (server : Server) (e : Text) (db : EnrolmentDb) (work : Work)
    → Transacted server e db work (in_transaction server e db work)
unfolding in_transaction
in_transaction-Transacted server e db (raised x) = refl
in_transaction-Transacted server e db (completed (r, db')) =
    elim (Bool-cases (server.has_gap db' e)) [
      | inl gap ↦ rw (Transacted, in_transaction, gap) refl
      | inr whole ↦ rw (Transacted, in_transaction, whole) (refl, whole)
    ]

pub set_enrolment_work-completed :
    (server : Server) (db : EnrolmentDb) (t e o : Text) (start : Option Text)
    {x : AccessStateResponse × EnrolmentDb}
    → Admitted db
    → set_enrolment_work server db t e o start ≡ completed x
    → (today : Text) × (open_lifecycle server t ≡ completed today)
      × (x.1 ≡ changed server (change_of t e (some o) (clamp start today) true) db)
unfolding set_enrolment_work answered
set_enrolment_work-completed server db t e o start {x} h done =
    elim (TxResult-cases (open_lifecycle server t)) [
      | inl (er, q) ↦ absurd (ground arith)
      | inr (today, q) ↦
          let c = change_of t e (some o) (clamp start today) true in
          (
            today,
            q,
            ground (
              arith,
              apply_both-changed server c db h,
              TxResult-cases (require_tenant_employee db t e),
              TxResult-cases (live_office db t o),
              TxResult-cases (read_access_state server (changed server c db) t e),
            ),
          )
    ]

pub reassign_office_work-completed :
    (server : Server) (db : EnrolmentDb) (t e o : Text) (at : Option Text)
    {x : AccessStateResponse × EnrolmentDb}
    → Admitted db
    → reassign_office_work server db t e o at ≡ completed x
    → (today : Text) × (from : Text) × (open_lifecycle server t ≡ completed today)
      × (reassign_from db e today at ≡ completed from)
      × (x.1 ≡ record db {
        assignments = cut_and_insert server (change_of t e (some o) from true) true db.assignments;
      })
unfolding reassign_office_work answered
reassign_office_work-completed server db t e o at {x} h done =
    elim (TxResult-cases (open_lifecycle server t)) [
      | inl (er, q) ↦ absurd (ground arith)
      | inr (today, q) ↦ elim (TxResult-cases (reassign_from db e today at)) [
        | inl (er, r) ↦ absurd (
            ground (
              arith,
              TxResult-cases (require_tenant_employee db t e),
              TxResult-cases (live_office db t o),
            ))
        | inr (from, r) ↦
            let c = change_of t e (some o) from true in
            (
              today,
              from,
              q,
              r,
              ground (
                arith,
                apply_plan-assignments server c db h,
                TxResult-cases (require_tenant_employee db t e),
                TxResult-cases (live_office db t o),
                TxResult-cases (require_enrolled db e from),
              ),
            )
      ]
    ]

pub disable_enrolment_work-completed :
    (server : Server) (db : EnrolmentDb) (t e : Text) (at : Option Text)
    {x : AccessStateResponse × EnrolmentDb}
    → Admitted db
    → disable_enrolment_work server db t e at ≡ completed x
    → (today : Text) × (open_lifecycle server t ≡ completed today)
      × (cancel_leave
            (changed server (change_of t e none (clamp at today) false) db)
            t
            e
            (clamp at today)
          ≡ completed x.1)
unfolding disable_enrolment_work answered
disable_enrolment_work-completed server db t e at {x} h done =
    elim (TxResult-cases (open_lifecycle server t)) [
      | inl (er, q) ↦ absurd (ground arith)
      | inr (today, q) ↦
          let c = change_of t e none (clamp at today) false in
          (
            today,
            q,
            ground (
              arith,
              apply_both-changed server c db h,
              TxResult-cases (require_tenant_employee db t e),
              TxResult-cases (cancel_leave (changed server c db) t e (clamp at today)),
            ),
          )
    ]
