-- ===== src/Attendance/Enrolments/Service.antt =====
-- src/attendance/enrolments.service.ts: the enrolment of an employee, the change of the office, and the
-- disabling, each in one transaction. The employee's tables are the state; a thrown error leaves them
-- as they were. The locks are left out: the operations of one employee run one after another.
use fenzit_be.Attendance.Leave.Disable.{cancel_leave_on_disable}
use fenzit_be.Attendance.Enrolments.Plan.{add_days, plan_ad8_change, EnrolmentRow, Ad8Plan}
use fenzit_be.Attendance.Errors.{
  internal_server_error, attendance_assignment_gap, attendance_office_archived, returned,
  attendance_assignment_not_enrolled, attendance_employee_not_found, attendance_tenant_not_found,
  http_exception, thrown, validation_error, HttpException, ErrorCode,
}
use fenzit_be.DayStatus.OfficeRules.{parse_date_range, before_end, DateRange}
use mathlib.Core.Option
use fenzit_be.Attendance.Enrolments.Tables.{
  has_check_in_on, internal_error, attendance_records_exist, read_rows, insert_enrolment,
  read_enrolments, read_office, read_employee, delete_ranges, insert_assignment, clip_range_end,
  http, pg, completed, read_access_state, OfficeRow, UserRow, tenant_today, raised, RangeRow,
  AccessKey, EnrolmentDb, TxError, TxResult, Server, AccessStateRow, ◌>>=◌,
}
use fenzit_be.Prelude.{
  [], is_some, ◌∷◌, false, text_eq, ◌&&◌, text_ltb, codes, none, if◌then◌else◌, some, true,
  text_leb, List, Option, ℕ, Bool, Text,
}

pub record RequestUser : Type 0 where
  pub user_id : Text
  pub tenant_id : Option Text

pub record AccessStateResponse : Type 0 where
  pub attendance_enabled : Bool
  pub attendance_access : AccessKey
  pub attendance_start_date : Option Text
  pub attendance_ended_on : Option Text
  pub enabled_at : Option Text
  pub onboarded_at : Option Text
  pub office_id : Option Text
  pub office_name : Option Text

unfoldable pub to_access_state_response : AccessStateRow → AccessStateResponse
to_access_state_response row = record {
  attendance_enabled = row.attendance_enabled;
  attendance_access = row.access_state;
  attendance_start_date = row.attendance_start_date;
  attendance_ended_on = row.attendance_ended_on;
  enabled_at = row.enabled_at;
  onboarded_at = row.onboarded_at;
  office_id = row.office_id;
  office_name = row.office_name;
}

abbrev fails : {A : Type 0} → ℕ → ErrorCode → TxResult A
fails status code = raised (http (http_exception status code))

-- `dto.startDate && dto.startDate > today ? dto.startDate : today`
unfoldable pub clamp : Option Text → Text → Text
clamp none today = today
clamp (some date) today = if text_ltb today date then date else today

unfoldable pub range_contains : DateRange → Text → Bool
range_contains range date = text_leb range.start date && before_end date range.end

abbrev pub clip_step : Option Text → Option Text → List RangeRow → List RangeRow
clip_step (some id) (some new_end) rows = clip_range_end id new_end rows
clip_step _ _ rows = rows

-- The row that a plan inserts: an assignment only with an office.
unfoldable pub insert_step :
    Server
    → (tenant_id employee_id : Text) → Option Text
    → Option Text
    → Bool
    → List RangeRow
    → List RangeRow
insert_step server tenant_id employee_id office_id none is_assignment rows = rows
insert_step server tenant_id employee_id (some office) (some start) true rows =
    insert_assignment server tenant_id employee_id office start rows
insert_step server tenant_id employee_id none (some start) true rows = rows
insert_step server tenant_id employee_id office_id (some start) false rows =
    insert_enrolment server tenant_id employee_id start rows

-- The statements of a plan, on the rows of one table.
unfoldable pub run_plan :
    Server
    → (tenant_id employee_id : Text) (office_id : Option Text) (is_assignment : Bool) → Ad8Plan
    → List RangeRow
    → List RangeRow
unfolding insert_step
run_plan server tenant_id employee_id office_id is_assignment plan rows =
    insert_step server tenant_id employee_id office_id plan.insert_start is_assignment
      (clip_step plan.clip_id plan.clip_end (delete_ranges plan.delete_ids rows))

abbrev pub plan_rows : List RangeRow → (employee_id effective_from : Text) → Bool → Option Ad8Plan
plan_rows rows employee_id effective_from insert =
    plan_ad8_change (read_rows rows employee_id) effective_from insert

-- What a call of `applyPlan` is about.
pub record Change : Type 0 where
  pub tenant_id : Text
  pub employee_id : Text
  pub office_id : Option Text
  pub effective_from : Text
  pub insert : Bool

-- `applyPlan` on the rows of one table; `none` is the error of a range that cannot be read.
unfoldable pub change_rows : Server → Change → Bool → List RangeRow → Option (List RangeRow)
change_rows server c is_assignment rows =
    Option.map
      (λ (plan : Ad8Plan).
        run_plan server c.tenant_id c.employee_id c.office_id is_assignment plan rows)
      (plan_rows rows c.employee_id c.effective_from c.insert)

abbrev unreadable : {A : Type 0} → TxResult A
unreadable = raised (pg none)

unfoldable pub apply_plan : Server → Change → Bool → EnrolmentDb → TxResult EnrolmentDb
apply_plan server c true db = elim (change_rows server c true db.assignments) [
  | none ↦ unreadable
  | some rows ↦ completed (record db { assignments = rows })
]
apply_plan server c false db = elim (change_rows server c false db.enrolments) [
  | none ↦ unreadable
  | some rows ↦ completed (record db { enrolments = rows })
]

-- What the failure of `attendance_today` becomes.
abbrev today_failure : TxError → TxResult Text
today_failure (pg (some hint)) =
    if text_eq hint (codes "ATTENDANCE_TENANT_NOT_FOUND")
    then fails 404 attendance_tenant_not_found
    else internal_error
today_failure _ = internal_error

unfoldable pub open_lifecycle : Server → Text → TxResult Text
open_lifecycle server tenant_id = elim (tenant_today server tenant_id) [
  | completed today ↦ completed today
  | raised e ↦ today_failure e
]

unfoldable pub require_tenant_employee :
    EnrolmentDb → (tenant_id employee_id : Text) → TxResult UserRow
require_tenant_employee db tenant_id employee_id = elim (read_employee db tenant_id employee_id) [
  | none ↦ fails 404 attendance_employee_not_found
  | some user ↦ completed user
]

-- The office of the request, which must not be archived.
unfoldable pub live_office : EnrolmentDb → (tenant_id office_id : Text) → TxResult OfficeRow
live_office db tenant_id office_id = do
  office ← read_office db tenant_id office_id
  if is_some office.archived_at then fails 409 attendance_office_archived else completed office

abbrev answer : Server → EnrolmentDb → (tenant_id employee_id : Text) → TxResult AccessStateResponse
answer server db tenant_id employee_id = do
  row ← read_access_state server db tenant_id employee_id
  completed (to_access_state_response row)

abbrev pub Work : Type 0
Work = TxResult (AccessStateResponse × EnrolmentDb)

unfoldable pub answered : Server → (tenant_id employee_id : Text) → EnrolmentDb → Work
answered server tenant_id employee_id db = do
  response ← answer server db tenant_id employee_id
  completed (response, db)

abbrev pub change_of : Text → Text → Option Text → Text → Bool → Change
change_of tenant_id employee_id office_id effective_from insert = record {
  tenant_id = tenant_id;
  employee_id = employee_id;
  office_id = office_id;
  effective_from = effective_from;
  insert = insert;
}

-- The assignments first, then the enrolments.
unfoldable pub apply_both : Server → Change → EnrolmentDb → TxResult EnrolmentDb
apply_both server c db = do db' ← apply_plan server c true db; apply_plan server c false db'

unfoldable pub set_enrolment_work :
    Server → EnrolmentDb → (tenant_id employee_id office_id : Text) → Option Text → Work
unfolding answered
set_enrolment_work server db tenant_id employee_id office_id start_date = do
  today ← open_lifecycle server tenant_id
  employee ← require_tenant_employee db tenant_id employee_id
  office ← live_office db tenant_id office_id
  db' ←
      apply_both server
        (change_of tenant_id employee_id (some office_id) (clamp start_date today) true) db
  answered server tenant_id employee_id db'

-- `enrolments.find((row) => rangeContains(parseDateRange(row.valid), date))`
unfoldable pub find_containing : List EnrolmentRow → Text → Option (Option EnrolmentRow)
find_containing [] date = some none
find_containing (row ∷ rows) date =
    let rest = find_containing rows date in
    elim (parse_date_range row.valid) [
      | none ↦ none
      | some range ↦ if range_contains range date then some (some row) else rest
    ]

abbrev shifted : Option Text → TxResult Text
shifted none = unreadable
shifted (some date) = completed date

-- A change after today's check-in applies from tomorrow.
unfoldable pub reassign_from :
    EnrolmentDb → (employee_id today : Text) → Option Text → TxResult Text
reassign_from db employee_id today effective_from =
    if text_eq (clamp effective_from today) today
      && (attendance_records_exist db && has_check_in_on db employee_id today)
    then shifted (add_days today 1)
    else completed (clamp effective_from today)

unfoldable pub require_enrolled : EnrolmentDb → (employee_id date : Text) → TxResult EnrolmentRow
require_enrolled db employee_id date =
    elim (find_containing (read_enrolments db employee_id) date) [
      | none ↦ unreadable
      | some none ↦ fails 422 attendance_assignment_not_enrolled
      | some (some row) ↦ completed row
    ]

unfoldable pub reassign_office_work :
    Server → EnrolmentDb → (tenant_id employee_id office_id : Text) → Option Text → Work
unfolding answered
reassign_office_work server db tenant_id employee_id office_id effective_from = do
  today ← open_lifecycle server tenant_id
  employee ← require_tenant_employee db tenant_id employee_id
  office ← live_office db tenant_id office_id
  from ← reassign_from db employee_id today effective_from
  covering ← require_enrolled db employee_id from
  db' ← apply_plan server (change_of tenant_id employee_id (some office_id) from true) true db
  answered server tenant_id employee_id db'

-- The leave of the employee from the date on, in the same transaction.
unfoldable pub cancel_leave :
    EnrolmentDb → (tenant_id employee_id from : Text) → TxResult EnrolmentDb
cancel_leave db tenant_id employee_id from =
    elim (cancel_leave_on_disable db.leave tenant_id employee_id from) [
      | thrown e ↦ raised (http e)
      | returned swept ↦ completed (record db { leave = swept.1 })
    ]

unfoldable pub disable_enrolment_work :
    Server → EnrolmentDb → (tenant_id employee_id : Text) → Option Text → Work
unfolding answered
disable_enrolment_work server db tenant_id employee_id effective_from = do
  today ← open_lifecycle server tenant_id
  employee ← require_tenant_employee db tenant_id employee_id
  db' ←
      apply_both server (change_of tenant_id employee_id none (clamp effective_from today) false) db
  db'' ← cancel_leave db' tenant_id employee_id (clamp effective_from today)
  answered server tenant_id employee_id db''

abbrev gap_hint : Text
gap_hint = codes "ATTENDANCE_ASSIGNMENT_GAP"

-- COMMIT fires the deferred trigger of the employee; a failure rolls back.
abbrev commit : Server → Text → AccessStateResponse × EnrolmentDb → Work
commit server employee_id done =
    if server.has_gap done.1 employee_id then raised (pg (some gap_hint)) else completed done

abbrev gap_to_exception : TxError → TxError
gap_to_exception (pg (some hint)) =
    if text_eq hint gap_hint
    then http (http_exception 422 attendance_assignment_gap)
    else pg (some hint)
gap_to_exception e = e

-- `inTransaction`: the answer, and the tables that the transaction leaves.
unfoldable pub in_transaction :
    Server → Text → EnrolmentDb → Work → TxResult AccessStateResponse × EnrolmentDb
in_transaction server employee_id db work = elim (work >>= commit server employee_id) [
  | completed (response, db') ↦ (completed response, db')
  | raised e ↦ (raised (gap_to_exception e), db)
]

-- `requireTenant`: a user without a company is answered before the transaction.
abbrev with_tenant :
    RequestUser
    → EnrolmentDb
    → (Text → TxResult AccessStateResponse × EnrolmentDb)
    → TxResult AccessStateResponse × EnrolmentDb
with_tenant user db k = elim user.tenant_id [
  | none ↦ (fails 400 validation_error, db)
  | some tenant_id ↦ k tenant_id
]

unfoldable pub set_enrolment :
    Server
    → RequestUser
    → (employee_id office_id : Text) → Option Text
    → EnrolmentDb
    → TxResult AccessStateResponse × EnrolmentDb
set_enrolment server user employee_id office_id start_date db = with_tenant user db (λ tenant_id.
    in_transaction server employee_id db
      (set_enrolment_work server db tenant_id employee_id office_id start_date))

unfoldable pub reassign_office :
    Server
    → RequestUser
    → (employee_id office_id : Text) → Option Text
    → EnrolmentDb
    → TxResult AccessStateResponse × EnrolmentDb
reassign_office server user employee_id office_id effective_from db =
    with_tenant user db (λ tenant_id.
      in_transaction server employee_id db
        (reassign_office_work server db tenant_id employee_id office_id effective_from))

unfoldable pub disable_enrolment :
    Server
    → RequestUser
    → (employee_id : Text) → Option Text
    → EnrolmentDb
    → TxResult AccessStateResponse × EnrolmentDb
disable_enrolment server user employee_id effective_from db = with_tenant user db (λ tenant_id.
    in_transaction server employee_id db
      (disable_enrolment_work server db tenant_id employee_id effective_from))

-- What the global exception filter answers.
unfoldable pub exception_answer : TxError → HttpException
exception_answer (http e) = e
exception_answer (pg hint) = http_exception 500 internal_server_error
