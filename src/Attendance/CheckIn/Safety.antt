-- ===== src/Attendance/CheckIn/Safety.antt =====
-- What a rejected call may touch.
use fenzit_be.DayStatus.Types.{DayContext}
use fenzit_be.Attendance.CheckIn.Model.{AttemptOutcome}
use fenzit_be.Attendance.Errors.{thrown, returned, HttpException, Result}
use fenzit_be.Attendance.CheckIn.Service.{
  alerted, settled, Pin, reject_with_ladder, read_back, first_call, accept, run, transact, decide,
  locate, maybe_alert_fake_location,
}
use fenzit_be.Attendance.CheckIn.Answers.{
  response, recorded, rejection, answer_blocked, Answer, reject_committed, Call,
}
use fenzit_be.Attendance.CheckIn.Tables.{RecordRow, AttemptLocation, insert_attempt, Site, CheckDb}
use fenzit_be.Prelude.{ap, some, subst, arith, ℕ, Option, ◌≡◌, refl}

-- The records and the leave of the company are as they were.
pub record Untouched (db db' : CheckDb) : Type 0 where
  pub same_records : db'.day_records ≡ db.day_records
  pub same_requests : db'.leave.requests ≡ db.leave.requests
  pub same_days : db'.leave.days ≡ db.leave.days
  pub same_events : db'.leave.events ≡ db.leave.events

Untouched-self : (db : CheckDb) → Untouched db db
Untouched-self db = record {
  same_records = refl;
  same_requests = refl;
  same_days = refl;
  same_events = refl;
}

module _ (site : Site) (db : CheckDb) (call : Call) where
  recorded-Untouched :
      (outcome : AttemptOutcome) (location : AttemptLocation) (blocked_until : Option ℕ)
      {x : ℕ × CheckDb}
      → recorded site db call outcome location blocked_until ≡ some x
      → Untouched db x.1
  unfolding insert_attempt
  recorded-Untouched outcome location blocked_until h = ground arith

  alerted-Untouched :
      (outcome : AttemptOutcome) (ctx : DayContext) (db' : CheckDb)
      → Untouched db db'
      → Untouched db (alerted site outcome ctx db')
  unfolding maybe_alert_fake_location
  alerted-Untouched AttemptOutcome.mocked ctx db' u = ground arith
  alerted-Untouched outcome ctx db' u = ground arith

  locate-Untouched :
      (ctx : DayContext) (pin : Pin) (row : Option RecordRow) {e : HttpException} {db' : CheckDb}
      → locate site db call ctx pin row ≡ returned (rejection e, db')
      → Untouched db db'
  unfolding locate accept read_back reject_with_ladder
  locate-Untouched ctx pin row h =
      grind (arith, recorded-Untouched, alerted-Untouched, Untouched-self)

  decide-Untouched :
      (ctx : DayContext) {e : HttpException} {db' : CheckDb}
      → decide site db call ctx ≡ returned (rejection e, db')
      → Untouched db db'
  unfolding decide reject_committed
  decide-Untouched ctx h = grind (arith, recorded-Untouched, locate-Untouched, Untouched-self)

  transact-Untouched :
      {e : HttpException} {db' : CheckDb}
      → transact site db call ≡ returned (rejection e, db')
      → Untouched db db'
  unfolding transact first_call answer_blocked
  transact-Untouched h = grind (arith, recorded-Untouched, decide-Untouched, Untouched-self)

  settled-Untouched :
      (r : Result (Answer × CheckDb)) {e : HttpException} {db' : CheckDb}
      → ((e' : HttpException) (db'' : CheckDb)
          → r ≡ returned (rejection e', db'')
          → Untouched db db'')
      → settled db r ≡ (thrown e, db')
      → Untouched db db'
  settled-Untouched (thrown e) {db'} h eq =
      subst (Untouched db) (ap (λ p. p.1) eq) (Untouched-self db)
  settled-Untouched (returned (rejection e, db'')) h eq =
      subst (Untouched db) (ap (λ p. p.1) eq) (h _ _ refl)
  settled-Untouched (returned (response r, db'')) h eq = cc

  -- A call that is refused, for whatever reason, has changed no attendance record and no leave.
  pub run-Untouched :
      {e : HttpException} {db' : CheckDb} → run site db call ≡ (thrown e, db') → Untouched db db'
  unfolding run
  run-Untouched h = settled-Untouched (transact site db call) (λ e' db''. transact-Untouched) h
