-- ===== src/Attendance/CheckIn/Service.antt =====
-- src/attendance/check-in-out.service.ts with the location ladder and the alert of
-- check-in-out.rejections.ts and the leave of check-in-out.leave.ts. `transact` is the body of the
-- transaction; a thrown error rolls the tables back, and `run` throws what was rejected after commit.
-- `[...].join(':')`
use fenzit_be.DayStatus.Engine.{is_full_day}
use fenzit_be.Attendance.DayContextRead.{find_active_leave_for_date}
use fenzit_be.Attendance.Leave.Transition.{
  transition_leave_days, insert_notification, NotificationSpec,
}
use fenzit_be.Attendance.CheckIn.Answers.{
  to_flags, record_to_response, ctx_of, response, rejection, replay_response, answer_blocked,
  reject_committed, internal_error, block_to_arm, recorded, Response, Answer, Call,
}
use fenzit_be.Attendance.Leave.Types.{LeaveDayState, checkin_auto_cancel, LeaveDb, NotificationRow}
use fenzit_be.Attendance.CheckIn.Model.{
  metrics_for, too_far, low_accuracy, leave_confirmation_required, no_extras,
  checkin_max_accuracy_m, already_checked_out, outcome_to_exception, stale_fix, not_checked_in,
  duplicate_key_rejection, check_out, ok, fix_max_age_ms, already_checked_in,
  fake_location_alert_threshold, check_in, AttemptOutcome, AttemptKind,
}
use fenzit_be.Prelude.{
  [], get_or, not, is_some, false, some, ltb, codes, ℕ, ◌&&◌, true, none, if◌then◌else◌, ◌∷◌, Bool,
  ◌++◌, Option, Text, List,
}
use fenzit_be.Attendance.CheckIn.Tables.{
  update_record_checkout, find_attempt_by_idempotency_key, read_active_blocked_until,
  to_attempt_location, find_record_by_employee_date, insert_record, Snapshot, AttemptLocation,
  CheckInOutDto, RecordRow, count_monthly_mocked, CheckDb, Site,
}
use fenzit_be.DayStatus.Types.{Double, DayContext}
use fenzit_be.Attendance.Errors.{thrown, returned, Result, ◌>>=◌}

abbrev alert_key : DayContext → Text → Text → Text
alert_key ctx recipient month =
    ctx.tenant_id
    ++ (b':' ∷ codes "attendance.fake_location"
        ++ (b':' ∷ recipient ++ (b':' ∷ ctx.employee_id ++ (b':' ∷ month))))

alert_all : DayContext → Text → List Text → List NotificationRow → List NotificationRow
alert_all ctx month [] rows = rows
alert_all ctx month (recipient ∷ recipients) rows = alert_all ctx month recipients (
    insert_notification
      (record {
        tenant_id = ctx.tenant_id;
        user_id = recipient;
        event_type = codes "attendance.fake_location";
        entity_id = ctx.employee_id;
        dedupe_key = alert_key ctx recipient month;
      })
      rows)

-- From the third mocked attempt of the month on, every admin is told once.
unfoldable pub maybe_alert_fake_location : Site → CheckDb → DayContext → CheckDb
unfolding alert_all
maybe_alert_fake_location site db ctx =
    let counted = count_monthly_mocked site db.attempts ctx.employee_id ctx.timezone in
    if ltb counted.0 fake_location_alert_threshold then db else record db {
      leave = record db.leave {
        notifications =
            alert_all ctx counted.1 (site.admin_ids ctx.tenant_id) db.leave.notifications;
      };
    }

abbrev pub alerted : Site → AttemptOutcome → DayContext → CheckDb → CheckDb
alerted site AttemptOutcome.mocked ctx db = maybe_alert_fake_location site db ctx
alerted site _ ctx db = db

unfoldable pub reject_with_ladder :
    Site → CheckDb → Call → AttemptOutcome → DayContext → AttemptLocation → Answer × CheckDb
reject_with_ladder site db call outcome ctx location =
    elim (recorded site db call outcome location (block_to_arm site db call outcome)) [
      | none ↦ (rejection duplicate_key_rejection, db)
      | some (id, db') ↦ (
        rejection (
            outcome_to_exception outcome (record no_extras {
              distance_m = some (site.rounded (get_or location.distance_m 0));
              radius_m = some (get_or ctx.radius_m 0);
            })),
        alerted site outcome ctx db',
      )
    ]

-- With no admin nothing is sent.
abbrev told : List Text → Text → Option NotificationSpec
told [] work_date = none
told (a ∷ rest) work_date =
    some (record { recipient_ids = a ∷ rest; dedupe_suffix = some work_date })

unfoldable pub auto_cancel_leave_for_check_in : Site → LeaveDb → Call → Result LeaveDb
auto_cancel_leave_for_check_in site db call =
    elim (find_active_leave_for_date db call.employee_id site.today) [
      | none ↦ returned db
      | some l ↦ (do
        written ←
            transition_leave_days db
              (record {
                tenant_id = call.tenant_id;
                employee_id = call.employee_id;
                request_id = l.request_id;
                leave_request_db_id = l.leave_request_db_id;
                cause = checkin_auto_cancel;
                actor_id = some call.employee_id;
                reason = none;
                notification = told (site.admin_ids call.tenant_id) site.today;
              })
              (site.today ∷ []) (LeaveDayState.pending ∷ LeaveDayState.approved ∷ [])
              LeaveDayState.cancelled
        returned written.1)
    ]

abbrev is_check_in : AttemptKind → Bool
is_check_in check_in = true
is_check_in check_out = false

unfoldable pub leave_gate_active : DayContext → AttemptKind → Bool
leave_gate_active ctx kind =
    is_check_in kind && is_some ctx.leave_state && is_full_day ctx.leave_part && ctx.is_working_day

-- The first conflict of the call with the day, in the order of the early returns.
unfoldable pub conflict_of :
    DayContext → AttemptKind → Option RecordRow → Bool → Option AttemptOutcome
conflict_of ctx kind row confirmed =
    if not ctx.tracked
    then some AttemptOutcome.not_tracked
    else if is_check_in kind && is_some row
    then some already_checked_in
    else if not (is_check_in kind) && not (is_some row)
    then some not_checked_in
    else if not (is_check_in kind) && (elim row [ none ↦ false | some r ↦ is_some r.checkout_at ])
    then some already_checked_out
    else if leave_gate_active ctx kind && not confirmed
    then some leave_confirmation_required
    else none

-- The ladder of location checks: exactly one outcome wins.
unfoldable pub verdict_of : Site → CheckInOutDto → Double → ℕ → Option AttemptOutcome
verdict_of site dto distance_m radius_m =
    if ltb fix_max_age_ms dto.fix_age_ms
    then some stale_fix
    else if site.exceeds dto.accuracy_m checkin_max_accuracy_m
    then some low_accuracy
    else if site.exceeds distance_m radius_m
    then some too_far
    else if get_or dto.mocked false
    then some AttemptOutcome.mocked
    else none

pub record Pin : Type 0 where
  pub office_id : Text
  pub office_lat : Double
  pub office_lng : Double
  pub radius_m : ℕ

abbrev pin_from : Option Text → Option Double → Option Double → Option ℕ → Option Pin
pin_from (some office_id) (some office_lat) (some office_lng) (some radius_m) = some (record {
  office_id = office_id;
  office_lat = office_lat;
  office_lng = office_lng;
  radius_m = radius_m;
})
pin_from _ _ _ _ = none

unfoldable pub pin_of : DayContext → Option Pin
pin_of ctx = pin_from ctx.office_id ctx.office_lat ctx.office_lng ctx.radius_m

module _ (site : Site) (db : CheckDb) (call : Call) where
  abbrev snapshot : ℕ → Double → AttemptLocation → Snapshot
  snapshot attempt_id distance_m location = record {
    attempt_id = attempt_id;
    latitude = call.dto.latitude;
    longitude = call.dto.longitude;
    accuracy_m = call.dto.accuracy_m;
    distance_m = distance_m;
    mocked = get_or call.dto.mocked false;
    provider = location.provider;
  }

abbrev cancelled_if : Bool → Site → LeaveDb → Call → Result LeaveDb
cancelled_if true site db call = auto_cancel_leave_for_check_in site db call
cancelled_if false site db call = returned db

-- The record is written, and a confirmed leave of today is cancelled.
unfoldable pub write_check_in : Site → CheckDb → Call → DayContext → Pin → Snapshot → Result CheckDb
write_check_in site db call ctx pin s = do
  db' ←
      insert_record db site.now call.tenant_id call.employee_id site.today pin.office_id
        ctx.office_rules_id pin.radius_m s
  leave ← cancelled_if (leave_gate_active ctx call.kind) site db'.leave call
  returned (record db' { leave = leave })

unfoldable pub write_check_out : Site → CheckDb → Option RecordRow → Snapshot → Result CheckDb
write_check_out site db none s = thrown internal_error
write_check_out site db (some r) s = update_record_checkout db site.now r.id s

unfoldable pub write_record :
    Site
    → CheckDb
    → Call
    → DayContext
    → Pin
    → Option RecordRow
    → AttemptKind
    → Snapshot
    → Result CheckDb
write_record site db call ctx pin row check_in s = write_check_in site db call ctx pin s
write_record site db call ctx pin row check_out s = write_check_out site db row s

-- The response is read back from the stored row.
unfoldable pub read_back : Site → CheckDb → Call → DayContext → Result (Answer × CheckDb)
read_back site db call ctx =
    elim (find_record_by_employee_date db.day_records call.employee_id site.today) [
      | none ↦ thrown internal_error
      | some stored ↦ returned (
        response (
            record_to_response stored call.kind (to_flags ctx)
              (metrics_for site.zone ctx call.kind stored.checkin_at stored.checkout_at)),
        db,
      )
    ]

-- The attempt row, then the record, then the read-back.
unfoldable pub accept :
    Site
    → CheckDb
    → Call
    → DayContext
    → Pin
    → Option RecordRow
    → Double
    → AttemptLocation
    → Result (Answer × CheckDb)
accept site db call ctx pin row distance_m location =
    elim (recorded site db call ok location none) [
      | none ↦ returned (rejection duplicate_key_rejection, db)
      | some (id, attempted) ↦ (do
        written ←
            write_record site attempted call ctx pin row call.kind
              (snapshot site db call id distance_m location)
        read_back site written call ctx)
    ]

unfoldable pub locate :
    Site → CheckDb → Call → DayContext → Pin → Option RecordRow → Result (Answer × CheckDb)
locate site db call ctx pin row =
    let distance_m =
      site.haversine_distance_m pin.office_lat pin.office_lng call.dto.latitude
        call.dto.longitude in
    let location = to_attempt_location call.dto (some pin.radius_m) (some distance_m) in
    elim (verdict_of site call.dto distance_m pin.radius_m) [
      | some outcome ↦ returned (reject_with_ladder site db call outcome ctx location)
      | none ↦ accept site db call ctx pin row distance_m location
    ]

unfoldable pub decide : Site → CheckDb → Call → DayContext → Result (Answer × CheckDb)
decide site db call ctx =
    let row = find_record_by_employee_date db.day_records call.employee_id site.today in
    elim (conflict_of ctx call.kind row call.dto.confirm_leave_cancel) [
      | some outcome ↦
          returned
            (reject_committed site db call outcome (to_attempt_location call.dto ctx.radius_m none))
      | none ↦ elim (pin_of ctx) [
        | none ↦ thrown internal_error
        | some pin ↦ locate site db call ctx pin row
      ]
    ]

unfoldable pub first_call : Site → CheckDb → Call → Result (Answer × CheckDb)
first_call site db call = elim (read_active_blocked_until db.attempts call.employee_id site.now) [
  | some until ↦ returned (answer_blocked site db call until)
  | none ↦ (do ctx ← ctx_of site db call site.today; decide site db call ctx)
]

unfoldable pub transact : Site → CheckDb → Call → Result (Answer × CheckDb)
transact site db call =
    elim (find_attempt_by_idempotency_key db.attempts call.tenant_id call.employee_id
      call.request_id) [
        | some row ↦ (do answer ← replay_response site db call row; returned (answer, db))
        | none ↦ first_call site db call
      ]

abbrev pub settled : CheckDb → Result (Answer × CheckDb) → Result Response × CheckDb
settled db (thrown e) = (thrown e, db)
settled db (returned (rejection e, db')) = (thrown e, db')
settled db (returned (response r, db')) = (returned r, db')

-- What the caller sees, and the tables after the transaction.
unfoldable pub run : Site → CheckDb → Call → Result Response × CheckDb
run site db call = settled db (transact site db call)
