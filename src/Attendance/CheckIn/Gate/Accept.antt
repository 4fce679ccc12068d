-- ===== src/Attendance/CheckIn/Gate/Accept.antt =====
-- A check-in that passes every gate is accepted.
use fenzit_be.Attendance.CheckIn.Gate.{Passed, is_used-find}
use fenzit_be.Attendance.CheckIn.Model.{metrics_for, check_in}
use fenzit_be.Attendance.CheckIn.Service.{
  read_back, write_check_in, write_record, accept, transact, settled, run, first_call,
  leave_gate_active, conflict_of, verdict_of, Pin, decide, locate,
}
use fenzit_be.DayStatus.Types.{Double, DayContext}
use fenzit_be.Attendance.CheckIn.Answers.{
  to_flags, checked_in, CheckInResponse, record_to_response, Call,
}
use fenzit_be.Attendance.Errors.{returned}
use fenzit_be.Attendance.CheckIn.Tables.{
  is_day_of, insert_record, AttemptLocation, insert_attempt, find_record_by_employee_date,
  RecordRow, has_key, CheckDb, Site,
}
use fenzit_be.Prelude.{
  text_eq_self, find, ◌++◌, [], arith, true, ◌∷◌, some, none, Option, ◌≡◌, false, exists, List,
  Bool, refl,
}

find-exists :
    (p : RecordRow → Bool) (rows : List RecordRow) → find p rows ≡ none → exists p rows ≡ false
find-exists p [] h = refl
find-exists p (r ∷ rows) h = ground (arith, find-exists p rows)

find-append :
    (p : RecordRow → Bool) (rows : List RecordRow) (r : RecordRow)
    → find p rows ≡ none
    → p r ≡ true
    → find p (rows ++ r ∷ []) ≡ some r
find-append p [] r h t = ground arith
find-append p (x ∷ rows) r h t = let rest = find-append p rows r in ground arith

module _ (site : Site) (db : CheckDb) (call : Call) where
  abbrev pub answered : DayContext → CheckInResponse
  answered ctx =
      let m = metrics_for site.zone ctx check_in site.now none in
      record {
        work_date = site.today;
        checkin_at = site.now;
        late_minutes = m.late_minutes;
        is_late = m.is_late;
        day_context = to_flags ctx;
      }

  accept-check_in :
      (ctx : DayContext) (pin : Pin) (row : Option RecordRow) (distance_m : Double)
      (location : AttemptLocation)
      → call.kind ≡ check_in
      → leave_gate_active ctx check_in ≡ false
      → exists (has_key call.tenant_id call.request_id) db.attempts ≡ false
      → find_record_by_employee_date db.day_records call.employee_id site.today ≡ none
      → (settled db (accept site db call ctx pin row distance_m location)).0
        ≡ returned (checked_in (answered ctx))
  unfolding accept insert_attempt write_record write_check_in insert_record read_back
      record_to_response find_record_by_employee_date
  accept-check_in ctx pin row distance_m location k g u f =
      let missing = find-exists (is_day_of call.employee_id site.today) db.day_records f in
      grind (arith, find-append, text_eq_self)

  decide-check_in :
      (ctx : DayContext) (pin : Pin)
      → Passed site db call ctx pin
      → call.kind ≡ check_in
      → leave_gate_active ctx check_in ≡ false
      → exists (has_key call.tenant_id call.request_id) db.attempts ≡ false
      → (settled db (decide site db call ctx)).0 ≡ returned (checked_in (answered ctx))
  unfolding decide locate conflict_of verdict_of
  decide-check_in ctx pin p k g u =
      let first = p.first_in k in let office = p.office in grind (arith, accept-check_in)

  -- A check-in with a fresh key that passes every gate, on a day without a full-day leave, is accepted;
  -- the answer carries today's date, the instant of the call, and its lateness in the day's context.
  pub check_in-accepted :
      (ctx : DayContext) (pin : Pin)
      → Passed site db call ctx pin
      → call.kind ≡ check_in
      → leave_gate_active ctx check_in ≡ false
      → exists (has_key call.tenant_id call.request_id) db.attempts ≡ false
      → (run site db call).0 ≡ returned (checked_in (answered ctx))
  unfolding run transact first_call
  check_in-accepted ctx pin p k g u =
      let fresh = is_used-find db call.tenant_id call.employee_id call.request_id db.attempts u in
      let unblocked = p.unblocked in
      let context = p.context in ground (arith, decide-check_in ctx pin p k g u)
