-- ===== src/Attendance/Enrolments/Examples.antt =====
-- A company with one office and one employee, who is enrolled from 2026-09-01 on and moves or leaves on
-- 2026-09-29. The check at commit is the first test of the trigger: every assignment of the employee
-- lies inside one enrolment.
use fenzit_be.Attendance.Leave.Transition.{set_state}
use fenzit_be.DayStatus.Types.{full_day}
use fenzit_be.Attendance.Leave.Disable.Swept.{is_swept}
use fenzit_be.Attendance.Leave.Disable.Once.{has_key_once}
use fenzit_be.Attendance.Leave.Types.{
  cancelled, pending, LeaveDayRow, approved, LeaveDayState, LeaveRequestRow,
}
use fenzit_be.Attendance.Leave.Disable.{
  cancel_sweeps, find_days_for_disable_sweep, cancel_leave_on_disable,
}
use fenzit_be.Calendar.{
  is_leap, days_before_month, days_before_year, utc_day, digits_from, number_of, split_on,
}
use fenzit_be.Calendar.Print.{
  two_digits, four_digits, month_of, year_of, date_text, day_text, day_of_text,
}
use fenzit_be.Attendance.Enrolments.Reassign.{
  reassign_office-refused, reassign_office-Reassigned, RejectsStrays, Reassigned,
}
use fenzit_be.Attendance.Enrolments.Promises.{
  swept_days, set_enrolment-InStep, disable_enrolment-Disabled, set_enrolment-Enrolled, InStep,
  Disabled, Enrolled,
}
use fenzit_be.Attendance.Errors.{
  attendance_office_archived, attendance_assignment_gap, http_exception,
}
use fenzit_be.Attendance.Enrolments.Outcomes.{Admitted}
use fenzit_be.Attendance.Enrolments.Coverage.{
  covers_for, change_rows-is_covered, covered_after, is_covered,
}
use fenzit_be.Attendance.Enrolments.Plan.{
  parse_date_range-serialize_date_range, plan_ad8_change, add_days, parse_rows,
  serialize_date_range, is_end_text, is_plain, is_date_text,
}
use fenzit_be.Attendance.Enrolments.Cut.{is_exclusive, ends_by}
use fenzit_be.Attendance.Enrolments.Service.{
  in_transaction, disable_enrolment_work, cancel_leave, reassign_office_work, require_enrolled,
  reassign_from, find_containing, set_enrolment_work, apply_both, answered, live_office,
  require_tenant_employee, open_lifecycle, apply_plan, run_plan, insert_step, range_contains, clamp,
  to_access_state_response, change_of, change_rows, set_enrolment, disable_enrolment,
  AccessStateResponse, reassign_office, RequestUser,
}
use fenzit_be.Attendance.Enrolments.Tables.{
  TxError, read_access_state, insert_assignment, insert_enrolment, clip_range_end, delete_ranges,
  has_check_in_on, read_office, read_employee, is_date_key, tenant_today, http, raised, TxResult,
  is_of, active, OfficeRow, completed, RangeRow, Server, AccessStateRow, EnrolmentDb,
}
use fenzit_be.DayStatus.OfficeRules.{
  take_upper, take_lower, parse_bounds, parse_date_range, before_end, covers, DateRange,
}
use fenzit_be.Prelude.{
  exists-In, all_of-In, exists-witness, refl, inl, ap, inr, Bool-cases, get_or, text_eq,
  text_ltb-leb, text_leb_trans, arith, exists, false, ◌||◌, [], none, all_of, ◌&&◌, ◌∷◌, some, not,
  text_leb, true, ◌≡◌, Bool, codes, Option, List, Text,
}

abbrev tenant : Text
tenant = codes "t"

abbrev employee : Text
employee = codes "e"

abbrev office_a : Text
office_a = codes "a"

abbrev office_b : Text
office_b = codes "b"

abbrev today : Text
today = codes "2026-09-29"

abbrev contains : DateRange → DateRange → Bool
contains outer inner =
    text_leb outer.start inner.start
    && elim outer.end [ none ↦ true | some e ↦ ends_by e inner.end ]

abbrev is_inside : List RangeRow → Text → RangeRow → Bool
is_inside enrolments e a =
    not (is_of e a) || exists (λ r. is_of e r && contains r.valid a.valid) enrolments

abbrev has_stray : EnrolmentDb → Text → Bool
has_stray db e = not (all_of (is_inside db.enrolments e) db.assignments)

covers_of :
    (s : Text) (t : Option Text) (s' : Text) (t' : Option Text) (date : Text)
    → contains (record { start = s; end = t }) (record { start = s'; end = t' }) ≡ true
    → (text_leb s' date && before_end date t') ≡ true
    → (text_leb s date && before_end date t) ≡ true
covers_of s none s' t' date h k = ground (arith, text_leb_trans s s' date)
covers_of s (some e) s' none date h k = ground arith
covers_of s (some e) s' (some e') date h k =
    ground (arith, text_leb_trans s s' date, text_ltb-leb date e' e)

covers-contains :
    (r a : DateRange) (date : Text)
    → contains r a ≡ true
    → covers a date ≡ true
    → covers r date ≡ true
unfolding covers
covers-contains r a date h k = covers_of r.start r.end a.start a.end date h k

row_id : List RangeRow → Text
row_id [] = codes "n"
row_id (r ∷ rows) = b'n' ∷ row_id rows

abbrev access : AccessStateRow
access = record {
  user_id = employee;
  tenant_id = tenant;
  attendance_enabled = true;
  access_state = active;
  attendance_start_date = some today;
  enabled_at = none;
  onboarded_at = none;
  office_id = some office_a;
  office_name = none;
  attendance_ended_on = none;
}

abbrev server : Server
server = record {
  attendance_today = λ t. completed (some today);
  access_state = λ db t e. some access;
  has_gap = has_stray;
  new_id = row_id;
}

abbrev row : Text → Option Text → Option Text → RangeRow
row id office end = record {
  id = id;
  tenant_id = tenant;
  employee_id = employee;
  office_id = office;
  valid = record { start = codes "2026-09-01"; end = end };
}

abbrev office : Text → Option Text → OfficeRow
office id archived_at = record { id = id; tenant_id = tenant; name = id; archived_at = archived_at }

-- The enrolment ends as it is told; the employee has checked in today.
abbrev db_until : Option Text → EnrolmentDb
db_until end = record {
  memberships =
      record {
        user_id = employee;
        tenant_id = tenant;
        role = codes "employee";
        status = codes "active";
      }
      ∷ [];
  users = record { id = employee; name = none; disabled = false } ∷ [];
  offices = office office_a none ∷ office office_b none ∷ office (codes "old") (some today) ∷ [];
  enrolments = row (codes "1") none end ∷ [];
  assignments = row (codes "2") (some office_a) end ∷ [];
  attendance_records = some (record { employee_id = employee; work_date = today } ∷ []);
  leave = record { requests = []; days = []; events = []; notifications = [] };
}

abbrev user : RequestUser
user = record { user_id = codes "w"; tenant_id = some tenant }

admitted : (end : Option Text) → is_end_text end ≡ true → Admitted (db_until end)
unfolding is_exclusive is_date_text is_plain
admitted end h = (ground arith, ground arith)

-- Moves and leaves of the employee, whose dates the tables then show.
abbrev assigned_to : Text → TxResult AccessStateResponse × EnrolmentDb → Text → Bool
assigned_to office result date =
    is_covered result.1.assignments employee (λ o. text_eq (get_or o []) office) date

abbrev enrolled_on : TxResult AccessStateResponse × EnrolmentDb → Text → Bool
enrolled_on result date = is_covered result.1.enrolments employee (λ o. true) date

move_tests :
    (let moved = reassign_office server user employee office_b none (db_until none) in
      (assigned_to office_a moved today ≡ true)
      × (assigned_to office_b moved (codes "2026-09-30") ≡ true)
      × (assigned_to office_a moved (codes "2026-09-30") ≡ false))
    × (let gone =
          disable_enrolment server user employee (some (codes "2026-10-05")) (db_until none) in
        (enrolled_on gone (codes "2026-10-04") ≡ true)
        × (enrolled_on gone (codes "2026-10-05") ≡ false))
    × (reassign_office server user employee office_b none (db_until (some (codes "2026-10-05"))) ≡ (
      raised (http (http_exception 422 attendance_assignment_gap)),
      db_until (some (codes "2026-10-05")),
    ))
    × ((set_enrolment server user employee (codes "old") none (db_until none)).0
        ≡ raised (http (http_exception 409 attendance_office_archived)))
unfolding reassign_office disable_enrolment set_enrolment serialize_date_range parse_rows add_days
    plan_ad8_change tenant_today is_date_key read_employee read_office has_check_in_on delete_ranges
    clip_range_end insert_enrolment insert_assignment read_access_state to_access_state_response
    clamp range_contains insert_step run_plan change_rows apply_plan open_lifecycle
    require_tenant_employee live_office answered apply_both set_enrolment_work find_containing
    reassign_from require_enrolled reassign_office_work cancel_leave disable_enrolment_work
    in_transaction is_covered covers parse_date_range parse_bounds take_lower take_upper day_of_text
    day_text date_text year_of month_of four_digits two_digits split_on number_of digits_from
    utc_day days_before_year days_before_month is_leap cancel_leave_on_disable
    find_days_for_disable_sweep cancel_sweeps
move_tests = ((refl, refl, refl), (refl, refl), refl, refl)

change_rows-is_covered_example :
    (rows : List RangeRow) × (change_rows server
        (change_of tenant employee (some office_b) today true)
        true
        (db_until none).assignments
      ≡ some rows)
    × ((e : Text) (office : Option Text → Bool) (date : Text)
        → is_covered rows e office date
          ≡ covered_after
              (change_of tenant employee (some office_b) today true)
              true
              (db_until none).assignments
              e
              office
              date)
change_rows-is_covered_example =
    change_rows-is_covered server (change_of tenant employee (some office_b) today true) true
      (db_until none).assignments (admitted none refl).1

set_enrolment-Enrolled_example :
    Enrolled server tenant employee office_b none
      (db_until none)
      (set_enrolment server user employee office_b none (db_until none))
set_enrolment-Enrolled_example =
    set_enrolment-Enrolled server user tenant employee office_b none (db_until none) refl
      (admitted none refl)

-- A request of the employee with an approved day before today, one that is pending, and one to come;
-- and one of somebody else.
abbrev leave_request : Text → Text → LeaveRequestRow
leave_request id person = record {
  id = id;
  tenant_id = tenant;
  employee_id = person;
  request_id = id;
  start_date = codes "2026-09-01";
  end_date = codes "2026-10-02";
  part = full_day;
}

abbrev leave_day : Text → Text → Text → LeaveDayState → LeaveDayRow
leave_day id person date state = record {
  leave_request_id = id;
  employee_id = person;
  leave_date = date;
  state = state;
}

abbrev on_leave : EnrolmentDb
on_leave = record (db_until none) {
  leave = record {
    requests = leave_request (codes "q1") employee ∷ leave_request (codes "q2") (codes "e2") ∷ [];
    days =
        leave_day (codes "q1") employee (codes "2026-09-01") approved
        ∷ leave_day (codes "q1") employee (codes "2026-09-02") pending
        ∷ leave_day (codes "q1") employee (codes "2026-10-02") approved
        ∷ leave_day (codes "q2") (codes "e2") (codes "2026-10-02") approved
        ∷ [];
    events = [];
    notifications = [];
  };
}

key_once : has_key_once on_leave.leave.days ≡ true
unfolding has_key_once
key_once = refl

disable_enrolment-Disabled_example :
    Disabled server tenant employee none on_leave
      (disable_enrolment server user employee none on_leave)
disable_enrolment-Disabled_example =
    disable_enrolment-Disabled server user tenant employee none on_leave refl (admitted none refl)
      key_once

swept_test :
    swept_days on_leave tenant employee (codes "2026-09-29")
    ≡ leave_day (codes "q1") employee (codes "2026-09-01") approved
      ∷ leave_day (codes "q1") employee (codes "2026-09-02") cancelled
      ∷ leave_day (codes "q1") employee (codes "2026-10-02") cancelled
      ∷ leave_day (codes "q2") (codes "e2") (codes "2026-10-02") approved
      ∷ []
unfolding is_swept set_state
swept_test = refl

in_step : InStep (db_until none)
unfolding is_covered
in_step e date = refl

set_enrolment-InStep_example :
    InStep (set_enrolment server user employee office_b none (db_until none)).1
set_enrolment-InStep_example =
    set_enrolment-InStep server user tenant employee office_b none (db_until none) refl
      (admitted none refl) in_step

reassign_office-Reassigned_example :
    Reassigned server tenant employee office_b none
      (db_until none)
      (reassign_office server user employee office_b none (db_until none))
reassign_office-Reassigned_example =
    reassign_office-Reassigned server user tenant employee office_b none (db_until none) refl
      (admitted none refl)

-- An assigned date that is not enrolled lies in an assignment outside every enrolment.
strays : RejectsStrays server
unfolding is_covered
strays db e date off on = elim (Bool-cases (all_of (is_inside db.enrolments e) db.assignments)) [
  | inr some_out ↦ ap not some_out
  | inl all_in ↦
      let (a, m, p) = exists-witness (covers_for e (λ office. true) date) db.assignments on in
      let (r, n, q) =
        exists-witness (λ r. is_of e r && contains r.valid a.valid) db.enrolments
          (ground (arith, all_of-In (is_inside db.enrolments e) m all_in)) in
      absurd (
        ground (
          arith,
          exists-In (covers_for e (λ office. true) date) n
              (ground (arith, covers-contains r.valid a.valid date)),
        ))
]

opened : open_lifecycle server tenant ≡ completed today
unfolding open_lifecycle tenant_today is_date_key
opened = refl

is_known :
    (end : Option Text)
    → require_tenant_employee (db_until end) tenant employee
      ≡ completed (record { id = employee; name = none; disabled = false })
unfolding require_tenant_employee read_employee
is_known end = refl

is_live : live_office (db_until none) tenant office_b ≡ completed (office office_b none)
unfolding live_office read_office
is_live = refl

-- The employee, who has checked in today, moves tomorrow.
from_tomorrow :
    (end : Option Text)
    → reassign_from (db_until end) employee today none ≡ completed (codes "2026-09-30")
unfolding reassign_from clamp has_check_in_on add_days day_of_text day_text date_text year_of
    month_of four_digits two_digits split_on number_of digits_from utc_day days_before_year
    days_before_month is_leap
from_tomorrow end = refl

reassign_office-refused_example :
    (x : TxError) × (reassign_office server user employee office_b none
        (db_until (some (codes "2026-10-05")))
      ≡ (raised x, db_until (some (codes "2026-10-05"))))
unfolding is_covered covers is_date_text is_plain
reassign_office-refused_example =
    reassign_office-refused server user tenant employee office_b today (codes "2026-09-30")
      (codes "2026-10-05") none (db_until (some (codes "2026-10-05"))) refl
      (admitted (some (codes "2026-10-05")) refl) strays opened
      (from_tomorrow (some (codes "2026-10-05"))) refl refl

abbrev autumn : DateRange
autumn = record { start = codes "2026-09-01"; end = some (codes "2026-12-01") }

parse_date_range-serialize_date_range_example :
    parse_date_range (serialize_date_range autumn) ≡ some autumn
unfolding is_date_text is_plain
parse_date_range-serialize_date_range_example =
    parse_date_range-serialize_date_range autumn refl refl
