-- ===== src/Attendance/Enrolments/Reassign.antt =====
-- The change of the office (reassignOffice of src/attendance/enrolments.service.ts): what it does when it
-- answers, and when the check at commit must refuse it.
use fenzit_be.Attendance.Enrolments.Outcomes.{
  reassign_office_work-completed, in_transaction-Transacted, Transacted, Admitted,
}
use fenzit_be.Attendance.Enrolments.Coverage.{cut_and_insert-is_covered, covered_after, is_covered}
use fenzit_be.Attendance.Enrolments.Service.{
  change_of, reassign_office_work, reassign_from, open_lifecycle, AccessStateResponse, RequestUser,
  reassign_office,
}
use fenzit_be.Attendance.Enrolments.Tables.{
  raised, TxError, completed, TxResult, EnrolmentDb, Server,
}
use fenzit_be.Prelude.{
  text_eq_self, subst, arith, ◌∙◌, ap, text_leb, Bool, false, some, true, ◌≡◌, Option, Text,
}

-- What the tables say after a change of the office.
abbrev pub Reassigned :
    Server
    → (tenant_id employee_id office_id : Text) → Option Text
    → EnrolmentDb
    → TxResult AccessStateResponse × EnrolmentDb
    → Type 0
Reassigned server t e o at db (completed r, db') =
    (today : Text) × (from : Text) × (open_lifecycle server t ≡ completed today)
    × (reassign_from db e today at ≡ completed from)
    × (db'.enrolments ≡ db.enrolments)
    × (server.has_gap db' e ≡ false)
    × ((e' : Text) (office : Option Text → Bool) (date : Text)
        → is_covered db'.assignments e' office date
          ≡ covered_after (change_of t e (some o) from true) true db.assignments e' office date)
Reassigned server t e o at db (raised x, db') = db' ≡ db

Reassigned-of :
    (server : Server) (t e o : Text) (at : Option Text) (db : EnrolmentDb)
    (result : TxResult AccessStateResponse × EnrolmentDb)
    → Admitted db
    → Transacted server e db (reassign_office_work server db t e o at) result
    → Reassigned server t e o at db result
Reassigned-of server t e o at db (raised x, db') h done = done
Reassigned-of server t e o at db (completed r, db') h done =
    let (today, from, q, f, same) = reassign_office_work-completed server db t e o at h done.0 in
    (
      today,
      from,
      q,
      f,
      ap (λ (l : EnrolmentDb). l.enrolments) same,
      done.1,
      λ e' office date.
          ap (λ (l : EnrolmentDb). is_covered l.assignments e' office date) same
          ∙ cut_and_insert-is_covered server (change_of t e (some o) from true) true db.assignments
              e' office date,
    )

-- A change of the office either throws and leaves the tables alone, or it answers; then the employee is
-- assigned to the new office and to no other from the date of the change on, which is tomorrow after a
-- check-in of today; the days before it, the other employees and every enrolment are as they were.
pub reassign_office-Reassigned :
    (server : Server) (user : RequestUser) (t e o : Text) (at : Option Text) (db : EnrolmentDb)
    → user.tenant_id ≡ some t
    → Admitted db
    → Reassigned server t e o at db (reassign_office server user e o at db)
unfolding reassign_office
reassign_office-Reassigned server user t e o at db is_member h =
    rw (reassign_office, is_member)
      (Reassigned-of server t e o at db _ h
        (in_transaction-Transacted server e db (reassign_office_work server db t e o at)))

-- What the check at commit is documented to do: an assigned date that is not enrolled is rejected.
abbrev pub RejectsStrays : Server → Type 0
RejectsStrays server =
    (db : EnrolmentDb) (e date : Text)
    → is_covered db.enrolments e (λ office. true) date ≡ false
    → is_covered db.assignments e (λ office. true) date ≡ true
    → server.has_gap db e ≡ true

refused_of :
    (server : Server) (t e o today from date : Text) (at : Option Text) (db : EnrolmentDb)
    (result : TxResult AccessStateResponse × EnrolmentDb)
    → RejectsStrays server
    → open_lifecycle server t ≡ completed today
    → reassign_from db e today at ≡ completed from
    → text_leb from date ≡ true
    → is_covered db.enrolments e (λ office. true) date ≡ false
    → Reassigned server t e o at db result
    → (x : TxError) × (result ≡ (raised x, db))
refused_of server t e o today from date at db (raised x, db') strict q r late off done =
    (x, ap (λ l. (raised x, l)) done)
refused_of server t e o today from date at db (completed a, db') strict q r late off
      (today', from', q', r', en, whole, view) =
    let t_eq : today' ≡ today = ground arith in
    let r2 : reassign_from db e today at ≡ completed from' =
      subst (λ d. reassign_from db e d at ≡ completed from') t_eq r' in
    let f_eq : from' ≡ from = ground arith in
    let late' : text_leb from' date ≡ true = rw f_eq late in
    let gap =
      strict db' e date (ap (λ rows. is_covered rows e (λ office. true) date) en ∙ off)
        (view e (λ office. true) date ∙ ground (arith, text_eq_self e)) in
    absurd (ground arith)

-- A change of the office of an employee whose enrolment has an end, such as one whose disabling is
-- already set for a later date, is always refused, and nothing is written: the new assignment is open,
-- and so it covers a date that is not enrolled.
pub reassign_office-refused :
    (server : Server) (user : RequestUser) (t e o today from date : Text) (at : Option Text)
    (db : EnrolmentDb)
    → user.tenant_id ≡ some t
    → Admitted db
    → RejectsStrays server
    → open_lifecycle server t ≡ completed today
    → reassign_from db e today at ≡ completed from
    → text_leb from date ≡ true
    → is_covered db.enrolments e (λ office. true) date ≡ false
    → (x : TxError) × (reassign_office server user e o at db ≡ (raised x, db))
reassign_office-refused server user t e o today from date at db is_member h strict q r late off =
    refused_of server t e o today from date at db _ strict q r late off
      (reassign_office-Reassigned server user t e o at db is_member h)
