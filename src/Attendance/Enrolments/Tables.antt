-- ===== src/Attendance/Enrolments/Tables.antt =====
-- src/attendance/enrolments.repository.ts: the tables that the enrolment operations read and write, and
-- their statements. What the database computes itself is the record `Server`: `attendance_today`, the
-- view of the access state, the check at commit, and the ids that it gives to new rows. A `daterange`
-- is held as its bounds and printed as PostgreSQL prints one; the locks are left out.
use fenzit_be.Calendar.{is_digit}
use fenzit_be.Attendance.Leave.Types.{LeaveDb}
use fenzit_be.DayStatus.OfficeRules.{DateRange}
use fenzit_be.Attendance.Enrolments.Plan.{includes, serialize_date_range, EnrolmentRow}
use fenzit_be.Attendance.Errors.{internal_server_error, HttpException, http_exception}
use fenzit_be.Prelude.{
  false, ◌==◌, inr, [], keep, get_or, none, ◌&&◌, inl, ◌∷◌, ◌++◌, not, map, exists, is_some, find,
  codes, if◌then◌else◌, text_eq, ◌⊎◌, Bool, some, ◌≡◌, Option, List, Text, refl,
}

-- The two tables of ranges; an enrolment has no office.
pub record RangeRow : Type 0 where
  pub id : Text
  pub tenant_id : Text
  pub employee_id : Text
  pub office_id : Option Text
  pub valid : DateRange

pub record MembershipRow : Type 0 where
  pub user_id : Text
  pub tenant_id : Text
  pub role : Text
  pub status : Text

pub record UserRow : Type 0 where
  pub id : Text
  pub name : Option Text
  pub disabled : Bool

pub record OfficeRow : Type 0 where
  pub id : Text
  pub tenant_id : Text
  pub name : Text
  pub archived_at : Option Text

pub record RecordDay : Type 0 where
  pub employee_id : Text
  pub work_date : Text

-- `attendance_records` is `none` while the table does not exist.
pub record EnrolmentDb : Type 0 where
  pub memberships : List MembershipRow
  pub users : List UserRow
  pub offices : List OfficeRow
  pub enrolments : List RangeRow
  pub assignments : List RangeRow
  pub attendance_records : Option (List RecordDay)
  pub leave : LeaveDb

pub data AccessKey : Type 0 where
  not_enrolled upcoming active history_only : AccessKey

pub record AccessStateRow : Type 0 where
  pub user_id : Text
  pub tenant_id : Text
  pub attendance_enabled : Bool
  pub access_state : AccessKey
  pub attendance_start_date : Option Text
  pub enabled_at : Option Text
  pub onboarded_at : Option Text
  pub office_id : Option Text
  pub office_name : Option Text
  pub attendance_ended_on : Option Text

-- What a statement or the service throws: an error of the driver, with its hint, or an answer.
pub data TxError : Type 0 where
  pg : Option Text → TxError
  http : HttpException → TxError

pub data TxResult (A : Type 0) : Type 0 where
  completed : A → TxResult A
  raised : TxError → TxResult A

infixl 5 ◌>>=◌
abbrev pub ◌>>=◌ : {A B : Type 0} → TxResult A → (A → TxResult B) → TxResult B
completed a >>= k = k a
raised e >>= k = raised e

pub TxResult-cases :
    {A : Type 0} (r : TxResult A) → ((e : TxError) × (r ≡ raised e)) ⊎ ((a : A) × (r ≡ completed a))
TxResult-cases (raised e) = inl (e, refl)
TxResult-cases (completed a) = inr (a, refl)

-- A chain that completes has completed its first part.
pub bind-completed :
    {A B : Type 0} (r : TxResult A) (k : A → TxResult B) {b : B}
    → (r >>= k) ≡ completed b
    → (a : A) × (r ≡ completed a) × (k a ≡ completed b)
bind-completed (raised e) k h = cc
bind-completed (completed a) k h = (a, refl, h)

pub record Server : Type 0 where
  pub attendance_today : Text → TxResult (Option Text)
  pub access_state : EnrolmentDb → Text → Text → Option AccessStateRow
  -- the trigger at commit rejects the tables of the employee
  pub has_gap : EnrolmentDb → Text → Bool
  pub new_id : List RangeRow → Text

abbrev pub internal_error : {A : Type 0} → TxResult A
internal_error = raised (http (http_exception 500 internal_server_error))

-- `/^\d{4}-\d{2}-\d{2}$/`
unfoldable pub is_date_key : Text → Bool
is_date_key (a ∷ b ∷ c ∷ d ∷ h ∷ e ∷ f ∷ i ∷ g ∷ j ∷ []) =
    is_digit a
    && (is_digit b
        && (is_digit c
            && (is_digit d
                && ((h == b'-')
                    && (is_digit e
                        && (is_digit f && ((i == b'-') && (is_digit g && is_digit j))))))))
is_date_key _ = false

unfoldable pub tenant_today : Server → Text → TxResult Text
tenant_today server tenant_id = do
  today ← server.attendance_today tenant_id
  elim today [
    | none ↦ internal_error
    | some date ↦ if is_date_key date then completed date else internal_error
  ]

abbrev is_tracked_member : Text → Text → MembershipRow → Bool
is_tracked_member tenant_id employee_id m =
    text_eq m.user_id employee_id
    && (text_eq m.tenant_id tenant_id
        && (text_eq m.role (codes "employee") && not (text_eq m.status (codes "removed"))))

abbrev is_enabled_user : Text → UserRow → Bool
is_enabled_user user_id u = text_eq u.id user_id && not u.disabled

-- The join on the user, whose id is a key.
unfoldable pub read_employee : EnrolmentDb → (tenant_id employee_id : Text) → Option UserRow
read_employee db tenant_id employee_id =
    if exists (is_tracked_member tenant_id employee_id) db.memberships
    then find (is_enabled_user employee_id) db.users
    else none

abbrev is_office : Text → Text → OfficeRow → Bool
is_office tenant_id office_id o = text_eq o.id office_id && text_eq o.tenant_id tenant_id

abbrev pub office_not_found : TxError
office_not_found = pg (some (codes "ATTENDANCE_OFFICE_NOT_FOUND"))

unfoldable pub read_office : EnrolmentDb → (tenant_id office_id : Text) → TxResult OfficeRow
read_office db tenant_id office_id = elim (find (is_office tenant_id office_id) db.offices) [
  | none ↦ raised office_not_found
  | some office ↦ completed office
]

abbrev pub attendance_records_exist : EnrolmentDb → Bool
attendance_records_exist db = is_some db.attendance_records

abbrev is_record_on : Text → Text → RecordDay → Bool
is_record_on employee_id work_date r =
    text_eq r.employee_id employee_id && text_eq r.work_date work_date

unfoldable pub has_check_in_on : EnrolmentDb → (employee_id work_date : Text) → Bool
has_check_in_on db employee_id work_date =
    exists (is_record_on employee_id work_date) (get_or db.attendance_records [])

abbrev pub is_of : Text → RangeRow → Bool
is_of employee_id r = text_eq r.employee_id employee_id

-- `valid::text`
abbrev pub to_enrolment_row : RangeRow → EnrolmentRow
to_enrolment_row r = record { id = r.id; valid = serialize_date_range r.valid }

abbrev pub read_rows : List RangeRow → Text → List EnrolmentRow
read_rows rows employee_id = map to_enrolment_row (keep (is_of employee_id) rows)

abbrev pub read_enrolments : EnrolmentDb → Text → List EnrolmentRow
read_enrolments db employee_id = read_rows db.enrolments employee_id

abbrev pub read_assignments : EnrolmentDb → Text → List EnrolmentRow
read_assignments db employee_id = read_rows db.assignments employee_id

abbrev pub is_kept : List Text → RangeRow → Bool
is_kept ids r = not (includes ids r.id)

unfoldable pub delete_ranges : List Text → List RangeRow → List RangeRow
delete_ranges [] rows = rows
delete_ranges (id ∷ ids) rows = keep (is_kept (id ∷ ids)) rows

-- `daterange(lower(valid), newEnd, '[)')`
abbrev pub clipped : Text → DateRange → DateRange
clipped new_end range = record range { end = some new_end }

unfoldable pub clip_range_end : (id new_end : Text) → List RangeRow → List RangeRow
clip_range_end id new_end rows =
    map
      (λ (r : RangeRow).
        if text_eq r.id id then record r { valid = clipped new_end r.valid } else r)
      rows

abbrev pub range_from : Text → DateRange
range_from start = record { start = start; end = none }

unfoldable pub insert_enrolment :
    Server → (tenant_id employee_id start : Text) → List RangeRow → List RangeRow
insert_enrolment server tenant_id employee_id start rows =
    rows
    ++ (record {
      id = server.new_id rows;
      tenant_id = tenant_id;
      employee_id = employee_id;
      office_id = none;
      valid = range_from start;
    }
        ∷ [])

unfoldable pub insert_assignment :
    Server → (tenant_id employee_id office_id start : Text) → List RangeRow → List RangeRow
insert_assignment server tenant_id employee_id office_id start rows =
    rows
    ++ (record {
      id = server.new_id rows;
      tenant_id = tenant_id;
      employee_id = employee_id;
      office_id = some office_id;
      valid = range_from start;
    }
        ∷ [])

unfoldable pub read_access_state :
    Server → EnrolmentDb → (tenant_id user_id : Text) → TxResult AccessStateRow
read_access_state server db tenant_id user_id = elim (server.access_state db tenant_id user_id) [
  | none ↦ internal_error
  | some row ↦ completed row
]
