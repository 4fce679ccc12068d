-- ===== src/Attendance/CheckIn/Gate.antt =====
-- Which calls are accepted: the gates that an accepted call has passed, and the running block.
pub mod Block
pub mod Accept
use fenzit_be.Attendance.CheckIn.Model.{
  metrics_for, is_counted, AttemptOutcome, outcome_status, outcome_to_exception, check_out,
  check_in,
}
use fenzit_be.Attendance.CheckIn.Service.{
  read_back, write_check_in, write_record, maybe_alert_fake_location, accept, transact, settled,
  run, first_call, leave_gate_active, pin_of, conflict_of, reject_with_ladder, verdict_of, Pin,
  decide, locate,
}
use fenzit_be.DayStatus.Types.{Double, DayContext}
use fenzit_be.Attendance.CheckIn.Answers.{
  to_flags, checked_in, CheckInResponse, record_to_response, block_to_arm, rejection,
  answer_blocked, Answer, response, Response, ctx_of, reject_committed, Call,
}
use fenzit_be.Attendance.Errors.{Result-cases, HttpException, returned, thrown, Result}
use fenzit_be.Attendance.CheckIn.Tables.{
  is_day_of, insert_record, count_counted_in_window, AttemptLocation, insert_attempt,
  find_record_by_employee_date, read_active_blocked_until, RecordRow, has_key, AttemptRow, CheckDb,
  find_attempt_by_idempotency_key, Site,
}
use fenzit_be.Prelude.{
  length, subst, text_eq_self, ◌+◌, find, ◌++◌, ◌<◌, ◌⊎◌, text_eq, is_some, inr, [], inl, get_or,
  Option-cases, ◌≤◌, arith, true, ◌∷◌, some, none, Option, ◌≡◌, false, exists, ◌==◌, List, Text,
  Bool, ℕ, refl,
}

abbrev pub is_thrown : {A : Type 0} → ℕ → Result A → Bool
is_thrown status (thrown e) = e.status == status
is_thrown status (returned a) = false

-- What an accepted call has passed, in the day context `ctx` at the office `pin`.
pub record Passed (site : Site) (db : CheckDb) (call : Call) (ctx : DayContext) (pin : Pin)
    : Type 0 where
  pub context : ctx_of site db call site.today ≡ returned ctx
  pub office : pin_of ctx ≡ some pin
  pub unblocked : read_active_blocked_until db.attempts call.employee_id site.now ≡ none
  pub tracked : ctx.tracked ≡ true
  pub fresh : call.dto.fix_age_ms ≤ 30000
  pub accurate : site.exceeds call.dto.accuracy_m 100 ≡ false
  pub near :
      site.exceeds
        (site.haversine_distance_m pin.office_lat pin.office_lng call.dto.latitude
          call.dto.longitude)
        pin.radius_m
      ≡ false
  pub genuine : get_or call.dto.mocked false ≡ false
  pub confirmed : leave_gate_active ctx call.kind ≡ true → call.dto.confirm_leave_cancel ≡ true
  pub first_in :
      call.kind ≡ check_in
      → find_record_by_employee_date db.day_records call.employee_id site.today ≡ none
  pub in_before_out :
      call.kind ≡ check_out
      → is_some (find_record_by_employee_date db.day_records call.employee_id site.today) ≡ true
  pub still_open :
      {row : RecordRow}
      → call.kind ≡ check_out
      → find_record_by_employee_date db.day_records call.employee_id site.today ≡ some row
      → row.checkout_at ≡ none

pub is_used-find :
    (db : CheckDb) (tenant_id employee_id request_id : Text) (rows : List AttemptRow)
    → exists (has_key tenant_id request_id) rows ≡ false
    → find_attempt_by_idempotency_key rows tenant_id employee_id request_id ≡ none
unfolding find_attempt_by_idempotency_key
is_used-find db tenant_id employee_id request_id [] h = refl
is_used-find db tenant_id employee_id request_id (a ∷ rows) h =
    ground (arith, is_used-find db tenant_id employee_id request_id rows)

settled-response :
    (db : CheckDb) {db' : CheckDb} {A : Type 0} {r : Response} (t : Result (Answer × CheckDb))
    → settled db t ≡ (returned r, db')
    → ((s : Response) (db'' : CheckDb) → t ≡ returned (response s, db'') → A)
    → A
settled-response db (thrown e) h k = cc
settled-response db (returned (rejection e, db'')) h k = cc
settled-response db (returned (response s, db'')) h k = k s db'' refl

module _ (site : Site) (db : CheckDb) (call : Call) where
  locate-response :
      (ctx : DayContext) (pin : Pin) (row : Option RecordRow) {r : Response} {db' : CheckDb}
      → locate site db call ctx pin row ≡ returned (response r, db')
      → (call.dto.fix_age_ms ≤ 30000)
        × (site.exceeds call.dto.accuracy_m 100 ≡ false)
        × (site.exceeds
              (site.haversine_distance_m pin.office_lat pin.office_lng call.dto.latitude
                call.dto.longitude)
              pin.radius_m
            ≡ false)
        × (get_or call.dto.mocked false ≡ false)
  unfolding locate verdict_of reject_with_ladder
  locate-response ctx pin row h = ground arith

  decide-response :
      (ctx : DayContext) {r : Response} {db' : CheckDb}
      → ctx_of site db call site.today ≡ returned ctx
      → read_active_blocked_until db.attempts call.employee_id site.now ≡ none
      → decide site db call ctx ≡ returned (response r, db')
      → (pin : Pin) × Passed site db call ctx pin
  unfolding decide reject_committed conflict_of
  decide-response ctx c b h = elim (Option-cases (pin_of ctx)) [
    | inl e ↦ absurd (ground arith)
    | inr (pin, e) ↦ (pin, grind (arith, locate-response))
  ]

  first_call-response :
      {r : Response} {db' : CheckDb}
      → first_call site db call ≡ returned (response r, db')
      → (ctx : DayContext) × (pin : Pin) × Passed site db call ctx pin
  unfolding first_call answer_blocked
  first_call-response {r} {db'} h =
      elim (Option-cases (read_active_blocked_until db.attempts call.employee_id site.now)) [
        | inr (t, e) ↦ absurd (ground arith)
        | inl e ↦ elim (Result-cases (ctx_of site db call site.today)) [
          | inl (ex, c) ↦ absurd (ground arith)
          | inr (ctx, c) ↦
              let passed = decide-response ctx {r = r} {db' = db'} c e (ground arith) in
              (ctx, passed.0, passed.1)
        ]
      ]

  -- A call with a fresh key is accepted only when no block is running, the day is tracked, the fix is at
  -- most 30 seconds old, accurate to 100 m, within the radius of the office and not mocked, a full-day
  -- leave is confirmed, and the record of the day is not there yet (check-in) or is there and still open (check-out).
  pub run-Passed :
      {r : Response} {db' : CheckDb}
      → exists (has_key call.tenant_id call.request_id) db.attempts ≡ false
      → run site db call ≡ (returned r, db')
      → (ctx : DayContext) × (pin : Pin) × Passed site db call ctx pin
  unfolding run transact
  run-Passed {r} {db'} u h =
      settled-response db {db' = db'} {r = r} (transact site db call) h (λ s db'' e.
        first_call-response {r = s} {db' = db''} (
          ground
            (arith, is_used-find db call.tenant_id call.employee_id call.request_id db.attempts u)))

  -- While a block is running, a call with a fresh key is refused with 429.
  pub run-blocked :
      {until : ℕ}
      → exists (has_key call.tenant_id call.request_id) db.attempts ≡ false
      → read_active_blocked_until db.attempts call.employee_id site.now ≡ some until
      → is_thrown 429 (run site db call).0 ≡ true
  unfolding run transact first_call answer_blocked insert_attempt outcome_to_exception
      outcome_status
  run-blocked u b =
      ground (arith, is_used-find db call.tenant_id call.employee_id call.request_id db.attempts u)
