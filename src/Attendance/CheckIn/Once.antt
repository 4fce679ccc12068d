-- ===== src/Attendance/CheckIn/Once.antt =====
-- A day has one check-in: what the next check-in of the day is answered.
use fenzit_be.Attendance.CheckIn.Gate.{is_thrown, is_used-find}
use fenzit_be.Attendance.CheckIn.Model.{check_in, outcome_status, outcome_to_exception}
use fenzit_be.DayStatus.Types.{Double, DayContext}
use fenzit_be.Attendance.Errors.{thrown, returned, Result}
use fenzit_be.Attendance.CheckIn.Service.{
  conflict_of, settled, transact, reject_with_ladder, Pin, run, first_call, decide, locate, accept,
  read_back,
}
use fenzit_be.Prelude.{
  inr, inl, none, arith, Option-cases, true, false, exists, Option, ◌≡◌, is_some, Bool,
}
use fenzit_be.Attendance.CheckIn.Answers.{
  ctx_of, rejection, response, Answer, answer_blocked, reject_committed, Response, Call,
}
use fenzit_be.Attendance.CheckIn.Tables.{
  read_active_blocked_until, AttemptLocation, insert_attempt, has_key, RecordRow,
  find_record_by_employee_date, CheckDb, Site,
}

module _ (site : Site) (db : CheckDb) (call : Call) where
  abbrev is_recorded : CheckDb → Bool
  is_recorded db' =
      is_some (find_record_by_employee_date db'.day_records call.employee_id site.today)

  read_back-is_recorded :
      (written : CheckDb) (ctx : DayContext) {r : Response} {db' : CheckDb}
      → read_back site written call ctx ≡ returned (response r, db')
      → is_recorded db' ≡ true
  unfolding read_back
  read_back-is_recorded written ctx h =
      elim (Option-cases
        (find_record_by_employee_date written.day_records call.employee_id site.today)) [
          | inl e ↦ absurd (ground arith)
          | inr (row, e) ↦ ground arith
        ]

  accept-is_recorded :
      (ctx : DayContext) (pin : Pin) (row : Option RecordRow) (distance_m : Double)
      (location : AttemptLocation) {r : Response} {db' : CheckDb}
      → accept site db call ctx pin row distance_m location ≡ returned (response r, db')
      → is_recorded db' ≡ true
  unfolding accept
  accept-is_recorded ctx pin row distance_m location h = grind (arith, read_back-is_recorded)

  locate-is_recorded :
      (ctx : DayContext) (pin : Pin) (row : Option RecordRow) {r : Response} {db' : CheckDb}
      → locate site db call ctx pin row ≡ returned (response r, db')
      → is_recorded db' ≡ true
  unfolding locate reject_with_ladder
  locate-is_recorded ctx pin row h = grind (arith, accept-is_recorded)

  decide-is_recorded :
      (ctx : DayContext) {r : Response} {db' : CheckDb}
      → decide site db call ctx ≡ returned (response r, db')
      → is_recorded db' ≡ true
  unfolding decide reject_committed
  decide-is_recorded ctx h = grind (arith, locate-is_recorded)

  first_call-is_recorded :
      {r : Response} {db' : CheckDb}
      → first_call site db call ≡ returned (response r, db')
      → is_recorded db' ≡ true
  unfolding first_call answer_blocked
  first_call-is_recorded h = grind (arith, decide-is_recorded)

  settled-transact :
      (t : Result (Answer × CheckDb)) {r : Response} {db' : CheckDb}
      → settled db t ≡ (returned r, db')
      → t ≡ returned (response r, db')
  settled-transact (thrown e) h = cc
  settled-transact (returned (rejection e, db'')) h = cc
  settled-transact (returned (response s, db'')) h = ground arith

  run-is_recorded :
      {r : Response} {db' : CheckDb}
      → exists (has_key call.tenant_id call.request_id) db.attempts ≡ false
      → run site db call ≡ (returned r, db')
      → is_recorded db' ≡ true
  unfolding run transact
  run-is_recorded {r} {db'} u h =
      let done = settled-transact (transact site db call) {r = r} {db' = db'} h in
      first_call-is_recorded {r = r} {db' = db'} (
        ground
          (arith, is_used-find db call.tenant_id call.employee_id call.request_id db.attempts u))

  refused_again :
      (ctx : DayContext)
      → call.kind ≡ check_in
      → exists (has_key call.tenant_id call.request_id) db.attempts ≡ false
      → read_active_blocked_until db.attempts call.employee_id site.now ≡ none
      → ctx_of site db call site.today ≡ returned ctx
      → ctx.tracked ≡ true
      → is_recorded db ≡ true
      → is_thrown 409 (run site db call).0 ≡ true
  unfolding run transact first_call decide conflict_of reject_committed insert_attempt
      outcome_to_exception outcome_status
  refused_again ctx k u b c t r =
      ground (arith, is_used-find db call.tenant_id call.employee_id call.request_id db.attempts u)

-- After an accepted call, every further check-in of the employee on the day, with a fresh key, while no
-- block is running and the day is tracked, is refused with 409.
pub check_in-once :
    (site site' : Site) (db : CheckDb) (call call' : Call) (ctx : DayContext) {r : Response}
    {db' : CheckDb}
    → exists (has_key call.tenant_id call.request_id) db.attempts ≡ false
    → run site db call ≡ (returned r, db')
    → call'.kind ≡ check_in
    → call'.employee_id ≡ call.employee_id
    → site'.today ≡ site.today
    → exists (has_key call'.tenant_id call'.request_id) db'.attempts ≡ false
    → read_active_blocked_until db'.attempts call'.employee_id site'.now ≡ none
    → ctx_of site' db' call' site'.today ≡ returned ctx
    → ctx.tracked ≡ true
    → is_thrown 409 (run site' db' call').0 ≡ true
check_in-once site site' db call call' ctx {r} {db'} u h k same day u' b c t =
    let there_is = run-is_recorded site db call {r = r} {db' = db'} u h in
    refused_again site' db' call' ctx k u' b c t (rw (same, day) there_is)
