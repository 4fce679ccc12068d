-- ===== src/Attendance/CheckIn/Tables.antt =====
-- src/attendance/check-in-out.repository.ts and check-in-out.records.repository.ts: the tables of
-- attempts and records, and the statements on them. A new row's id is the number of rows before it.

use fenzit_be.Attendance.DayContextRead.{DayReads}
use fenzit_be.Attendance.Errors.{internal_server_error, http_exception, returned, thrown, Result}
use fenzit_be.Attendance.Leave.Types.{LeaveDb}
use fenzit_be.Attendance.CheckIn.Model.{
  rate_window_minutes, is_counted, AttemptKind, AttemptOutcome,
}
use fenzit_be.Prelude.Texts.{trim}
use fenzit_be.Prelude.{
  ◌*◌, map, is_some, ◌+◌, not, ◌++◌, text_leb, ltb, ◌||◌, [], ◌==◌, false, exists, true, keep, max,
  ◌&&◌, text_eq, ◌∷◌, some, if◌then◌else◌, length, find, none, Bool, Option, Text, List, ℕ,
}
use fenzit_be.DayStatus.Types.{Zone, Double}

pub record CheckInOutDto : Type 0 where
  pub latitude : Double
  pub longitude : Double
  pub accuracy_m : Double
  pub mocked : Option Bool
  pub provider : Option Text
  pub fix_age_ms : ℕ
  pub confirm_leave_cancel : Bool

pub record AttemptLocation : Type 0 where
  pub latitude : Double
  pub longitude : Double
  pub accuracy_m : Double
  pub distance_m : Option Double
  pub radius_m : Option ℕ
  pub mocked : Option Bool
  pub provider : Option Text
  pub fix_age_ms : ℕ

pub record AttemptRow : Type 0 where
  pub id : ℕ
  pub tenant_id : Text
  pub employee_id : Text
  pub request_id : Text
  pub kind : AttemptKind
  pub outcome : AttemptOutcome
  pub location : AttemptLocation
  pub blocked_until : Option ℕ
  pub attempted_at : ℕ

-- The fix of an accepted attempt, as the record keeps it.
pub record Snapshot : Type 0 where
  pub attempt_id : ℕ
  pub latitude : Double
  pub longitude : Double
  pub accuracy_m : Double
  pub distance_m : Double
  pub mocked : Bool
  pub provider : Option Text

pub record RecordRow : Type 0 where
  pub id : ℕ
  pub tenant_id : Text
  pub employee_id : Text
  pub work_date : Text
  pub office_id : Text
  pub office_rules_id : Option Text
  pub radius_m : ℕ
  pub checkin_at : ℕ
  pub checkin : Snapshot
  pub checkout_at : Option ℕ
  pub checkout : Option Snapshot

pub record CheckDb : Type 0 where
  pub attempts : List AttemptRow
  pub day_records : List RecordRow
  pub leave : LeaveDb

-- What a transaction takes from outside: floating-point arithmetic (`exceeds` is `>` against a whole
-- number, `rounded` is `Math.round`), the clocks of the database (`now`) and of the process, the
-- month of an instant in a time zone, and the rows of the tables that it only reads.
pub record Site : Type 0 where
  pub zone : Zone
  pub haversine_distance_m : (lat1 lng1 lat2 lng2 : Double) → Double
  pub exceeds : Double → ℕ → Bool
  pub rounded : Double → ℕ
  pub now : ℕ
  pub app_now : ℕ
  pub month_in_tz : ℕ → Text → Text
  pub today : Text
  pub day_reads : (tenant_id employee_id work_date : Text) → DayReads
  pub admin_ids : Text → List Text

abbrev unless_empty : Text → Option Text
unless_empty [] = none
unless_empty (c ∷ s) = some (c ∷ s)

abbrev provider_of : Option Text → Option Text
provider_of none = none
provider_of (some p) = unless_empty (trim p)

unfoldable pub to_attempt_location : CheckInOutDto → Option ℕ → Option Double → AttemptLocation
unfolding trim
to_attempt_location dto radius_m distance_m = record {
  latitude = dto.latitude;
  longitude = dto.longitude;
  accuracy_m = dto.accuracy_m;
  distance_m = distance_m;
  radius_m = radius_m;
  mocked = dto.mocked;
  provider = provider_of dto.provider;
  fix_age_ms = dto.fix_age_ms;
}

abbrev pub has_key : Text → Text → AttemptRow → Bool
has_key tenant_id request_id a = text_eq a.tenant_id tenant_id && text_eq a.request_id request_id

unfoldable pub find_attempt_by_idempotency_key :
    List AttemptRow → (tenant_id employee_id request_id : Text) → Option AttemptRow
find_attempt_by_idempotency_key rows tenant_id employee_id request_id =
    find (λ (a : AttemptRow). has_key tenant_id request_id a && text_eq a.employee_id employee_id)
      rows

abbrev later : Option ℕ → Option ℕ → Option ℕ
later none b = b
later (some a) none = some a
later (some a) (some b) = some (max a b)

-- The block of a row, if it is the employee's and not over.
abbrev block_of : Text → ℕ → AttemptRow → Option ℕ
block_of employee_id now a = elim a.blocked_until [
  | none ↦ none
  | some t ↦ if text_eq a.employee_id employee_id && ltb now t then some t else none
]

-- `max(blocked_until)` over the blocks that are not over
unfoldable pub read_active_blocked_until : List AttemptRow → Text → ℕ → Option ℕ
read_active_blocked_until [] employee_id now = none
read_active_blocked_until (a ∷ rows) employee_id now =
    later (block_of employee_id now a) (read_active_blocked_until rows employee_id now)

abbrev pub in_window : Text → ℕ → AttemptRow → Bool
in_window employee_id now a =
    text_eq a.employee_id employee_id
    && is_counted a.outcome
    && ltb now (a.attempted_at + rate_window_minutes * 60000)

unfoldable pub count_counted_in_window : List AttemptRow → Text → ℕ → ℕ
count_counted_in_window rows employee_id now = length (keep (in_window employee_id now) rows)

abbrev is_mocked : AttemptOutcome → Bool
is_mocked AttemptOutcome.mocked = true
is_mocked _ = false

-- The mocked attempts from the start of the month of `now` on, and that month as `YYYY-MM`.
unfoldable pub count_monthly_mocked : Site → List AttemptRow → Text → Text → ℕ × Text
count_monthly_mocked site rows employee_id timezone =
    let month = site.month_in_tz site.now timezone in
    (
      length (
          keep
            (λ (a : AttemptRow).
              text_eq a.employee_id employee_id
              && is_mocked a.outcome
              && text_leb month (site.month_in_tz a.attempted_at timezone))
            rows),
      month,
    )

-- The id of the new row, or nothing when the key is taken.
unfoldable pub insert_attempt :
    CheckDb
    → ℕ
    → (tenant_id employee_id request_id : Text) → AttemptKind
    → AttemptOutcome
    → AttemptLocation
    → Option ℕ
    → Option (ℕ × CheckDb)
insert_attempt db now tenant_id employee_id request_id kind outcome location blocked_until =
    if exists (has_key tenant_id request_id) db.attempts
    then none
    else (let id = length db.attempts in
        some (
          id,
          record db {
            attempts =
                db.attempts
                ++ record {
                  id = id;
                  tenant_id = tenant_id;
                  employee_id = employee_id;
                  request_id = request_id;
                  kind = kind;
                  outcome = outcome;
                  location = location;
                  blocked_until = blocked_until;
                  attempted_at = now;
                }
                  ∷ [];
          },
        ))

abbrev pub is_day_of : Text → Text → RecordRow → Bool
is_day_of employee_id work_date r =
    text_eq r.employee_id employee_id && text_eq r.work_date work_date

unfoldable pub find_record_by_employee_date : List RecordRow → Text → Text → Option RecordRow
find_record_by_employee_date rows employee_id work_date =
    find (is_day_of employee_id work_date) rows

abbrev is_checkout_attempt : ℕ → Option Snapshot → Bool
is_checkout_attempt id none = false
is_checkout_attempt id (some s) = s.attempt_id == id

unfoldable pub find_record_by_attempt_id : List RecordRow → ℕ → Option RecordRow
find_record_by_attempt_id rows id =
    find (λ (r : RecordRow). (r.checkin.attempt_id == id) || is_checkout_attempt id r.checkout) rows

-- The unique index on employee and date turns a second row into a thrown error.
unfoldable pub insert_record :
    CheckDb
    → ℕ
    → (tenant_id employee_id work_date office_id : Text) → Option Text
    → ℕ
    → Snapshot
    → Result CheckDb
insert_record db now tenant_id employee_id work_date office_id office_rules_id radius_m s =
    if exists (is_day_of employee_id work_date) db.day_records
    then thrown (http_exception 500 internal_server_error)
    else returned (record db {
      day_records =
          db.day_records
          ++ record {
            id = length db.day_records;
            tenant_id = tenant_id;
            employee_id = employee_id;
            work_date = work_date;
            office_id = office_id;
            office_rules_id = office_rules_id;
            radius_m = radius_m;
            checkin_at = now;
            checkin = s;
            checkout_at = none;
            checkout = none;
          }
            ∷ [];
    })

abbrev pub is_open_record : ℕ → RecordRow → Bool
is_open_record id r = (r.id == id) && not (is_some r.checkout_at)

unfoldable pub close_record : ℕ → Snapshot → ℕ → RecordRow → RecordRow
close_record now s id r =
    if is_open_record id r then record r { checkout_at = some now; checkout = some s } else r

-- One guarded update; any other count than one is a thrown error.
unfoldable pub update_record_checkout : CheckDb → ℕ → ℕ → Snapshot → Result CheckDb
unfolding close_record
update_record_checkout db now record_id s =
    if length (keep (is_open_record record_id) db.day_records) == 1
    then returned (record db { day_records = map (close_record now s record_id) db.day_records })
    else thrown (http_exception 500 internal_server_error)
