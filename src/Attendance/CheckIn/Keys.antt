-- ===== src/Attendance/CheckIn/Keys.antt =====
-- One key, one attempt: what a call may write, held against the keys of the attempts.

use fenzit_be.Attendance.Errors.{thrown, Result, returned}
use fenzit_be.DayStatus.Types.{DayContext}
use fenzit_be.Attendance.CheckIn.Model.{AttemptOutcome}
use fenzit_be.Attendance.CheckIn.Service.{
  settled, Pin, reject_with_ladder, first_call, accept, run, transact, decide, locate,
}
use fenzit_be.Prelude.{refl, none, ℕ, arith, Option, true, ◌≡◌, exists, Bool}
use fenzit_be.Attendance.CheckIn.Answers.{
  response, rejection, recorded, Answer, answer_blocked, reject_committed, Call,
}
use fenzit_be.Attendance.CheckIn.Tables.{
  RecordRow, AttemptLocation, has_key, insert_attempt, CheckDb, Site,
}

module _ (site : Site) (db : CheckDb) (call : Call) where
  abbrev pub is_used : Bool
  is_used = exists (has_key call.tenant_id call.request_id) db.attempts

  recorded-used :
      (outcome : AttemptOutcome) (location : AttemptLocation) (blocked_until : Option ℕ)
      → is_used ≡ true
      → recorded site db call outcome location blocked_until ≡ none
  unfolding insert_attempt
  recorded-used outcome location blocked_until h = rw h

  locate-used :
      (ctx : DayContext) (pin : Pin) (row : Option RecordRow) {a : Answer} {db' : CheckDb}
      → is_used ≡ true
      → locate site db call ctx pin row ≡ returned (a, db')
      → db' ≡ db
  unfolding locate accept reject_with_ladder
  locate-used ctx pin row u h = grind (arith, recorded-used)

  decide-used :
      (ctx : DayContext) {a : Answer} {db' : CheckDb}
      → is_used ≡ true
      → decide site db call ctx ≡ returned (a, db')
      → db' ≡ db
  unfolding decide reject_committed
  decide-used ctx u h = grind (arith, recorded-used, locate-used)

  transact-used :
      {a : Answer} {db' : CheckDb}
      → is_used ≡ true
      → transact site db call ≡ returned (a, db')
      → db' ≡ db
  unfolding transact first_call answer_blocked
  transact-used u h = grind (arith, recorded-used, decide-used)

  settled-same :
      (r : Result (Answer × CheckDb))
      → ((a : Answer) (db' : CheckDb) → r ≡ returned (a, db') → db' ≡ db)
      → (settled db r).1 ≡ db
  settled-same (thrown e) h = refl
  settled-same (returned (rejection e, db')) h = h _ _ refl
  settled-same (returned (response e, db')) h = h _ _ refl

  -- A call whose key has been used in the company, by this employee or another, writes nothing.
  pub run-used : is_used ≡ true → (run site db call).1 ≡ db
  unfolding run
  run-used u = settled-same (transact site db call) (λ a db'. transact-used u)
