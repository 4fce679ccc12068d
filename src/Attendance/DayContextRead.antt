-- ===== src/Attendance/DayContextRead.antt =====
-- src/attendance/day-context.read.ts: the day context of an employee from the rows that its queries
-- return, and the active leave row of the date (leave.repository.ts). A thrown error is a 500.

use fenzit_be.DayStatus.Context.{assemble_day_context}
use fenzit_be.Attendance.Errors.{◌>>=◌}
use mathlib.Core.Option
use fenzit_be.Attendance.Leave.Transition.{is_active}
use fenzit_be.Attendance.Errors.{returned, internal_server_error, http_exception, thrown, Result}
use fenzit_be.DayStatus.OfficeRules.{
  pick_weekly_off_days, pick_rule_for_date, WeeklyOffRow, OfficeRuleRow, take_lower,
}
use fenzit_be.Attendance.Leave.Types.{LeaveRequestRow, LeaveDayRow, LeaveDb, LeaveDayState}
use fenzit_be.DayStatus.Types.{
  DayContext, DayFacts, LeaveSeam, LeavePart, OfficeJoinRow, Zone, LeaveState,
}
use fenzit_be.Prelude.{
  ◌||◌, [], ◌==◌, ◌&&◌, is_some, if◌then◌else◌, text_eq, none, ◌∷◌, false, find, some, ℕ, List,
  Option, Bool, Text,
}

pub record EnrolmentRow : Type 0 where
  pub valid : Text
  pub enabled_at : ℕ

pub record SettingsRow : Type 0 where
  pub enabled : Bool
  pub setup_completed_at : Option ℕ

pub record HolidayRow : Type 0 where
  pub id : Text
  pub name : Text

-- The rows that the queries return for one employee and date; the rules are those of an office.
pub record DayReads : Type 0 where
  pub timezone : Option Text
  pub settings : Option SettingsRow
  pub enrolment : Option EnrolmentRow
  pub assignment : Option OfficeJoinRow
  pub overrides : List WeeklyOffRow
  pub defaults : List WeeklyOffRow
  pub holiday : Option HolidayRow
  pub rules_of : Text → List OfficeRuleRow

pub record ActiveLeave : Type 0 where
  pub state : LeaveState
  pub part : LeavePart
  pub leave_request_db_id : Text
  pub request_id : Text

abbrev active_state : LeaveDayState → Option LeaveState
active_state LeaveDayState.pending = some LeaveState.pending
active_state LeaveDayState.approved = some LeaveState.approved
active_state _ = none

abbrev is_active_day : Text → Text → LeaveDayRow → Bool
is_active_day employee_id work_date row =
    text_eq row.employee_id employee_id && (text_eq row.leave_date work_date && is_active row.state)

joined : LeaveDb → LeaveDayRow → Option ActiveLeave
joined db row = elim (active_state row.state) [
  | none ↦ none
  | some state ↦
      elim (find (λ (r : LeaveRequestRow). text_eq r.id row.leave_request_id) db.requests) [
        | none ↦ none
        | some r ↦ some (record {
          state = state;
          part = r.part;
          leave_request_db_id = r.id;
          request_id = r.request_id;
        })
      ]
]

-- The first active row of the employee and date, joined with its request.
unfoldable pub find_active_leave_for_date : LeaveDb → Text → Text → Option ActiveLeave
unfolding joined
find_active_leave_for_date db employee_id work_date =
    elim (find (is_active_day employee_id work_date) db.days) [
      | none ↦ none
      | some row ↦ joined db row
    ]

-- `/^[(\[]([^,]*),/`, with '' when the literal does not match
unfoldable pub parse_range_start : Text → Text
unfolding take_lower
parse_range_start [] = []
parse_range_start (c ∷ s) =
    if (c == b'(') || (c == b'[')
    then elim (take_lower s) [ none ↦ [] | some (lower, rest) ↦ lower ]
    else []

abbrev seam_of : Option ActiveLeave → Option LeaveSeam
seam_of none = none
seam_of (some l) =
    some (record { state = l.state; part = l.part; leave_request_id = l.leave_request_db_id })

abbrev rules_for : DayReads → List OfficeRuleRow
rules_for reads = elim reads.assignment [
  | none ↦ []
  | some office ↦ reads.rules_of office.office_id
]

abbrev is_on : Option SettingsRow → Bool
is_on none = false
is_on (some s) = s.enabled

abbrev is_completed : Option SettingsRow → Bool
is_completed none = false
is_completed (some s) = is_some s.setup_completed_at

facts_of : DayReads → Text → Option DayFacts
facts_of reads work_date = elim (pick_rule_for_date (rules_for reads) work_date) [
  | none ↦ none
  | some rule ↦ elim (pick_weekly_off_days reads.overrides reads.defaults work_date) [
    | none ↦ none
    | some weekly_off_days ↦ some (record {
      enrolment_covers = is_some reads.enrolment;
      setup_completed = is_completed reads.settings;
      enabled = is_on reads.settings;
      enabled_at = Option.map (λ e. e.enabled_at) reads.enrolment;
      enrolment_start = Option.map (λ e. parse_range_start e.valid) reads.enrolment;
      rule = rule;
      weekly_off_days = weekly_off_days;
      holiday_id = Option.map (λ h. h.id) reads.holiday;
      holiday_name = Option.map (λ h. h.name) reads.holiday;
    })
  ]
]

abbrev or_internal : {A : Type 0} → Option A → Result A
or_internal none = thrown (http_exception 500 internal_server_error)
or_internal (some a) = returned a

unfoldable pub build_day_context :
    Zone → DayReads → LeaveDb → (tenant_id employee_id work_date : Text) → Bool → Result DayContext
unfolding facts_of
build_day_context z reads db tenant_id employee_id work_date has_check_in = do
  timezone ← or_internal reads.timezone
  facts ← or_internal (facts_of reads work_date)
  or_internal (
      assemble_day_context z tenant_id employee_id work_date timezone facts reads.assignment
        has_check_in (seam_of (find_active_leave_for_date db employee_id work_date)))
