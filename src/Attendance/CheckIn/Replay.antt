-- ===== src/Attendance/CheckIn/Replay.antt =====
-- The retry of a refused call.
use fenzit_be.Attendance.CheckIn.Gate.{is_used-find}
use fenzit_be.DayStatus.Types.{Double, DayContext}
use fenzit_be.Attendance.CheckIn.Service.{
  settled, pin_of, transact, run, first_call, decide, Pin, read_back, locate, accept, conflict_of,
  verdict_of, reject_with_ladder,
}
use fenzit_be.Attendance.CheckIn.Gate.Block.{ladder-attempts, own_row}
use fenzit_be.Attendance.Errors.{Result-cases, thrown, Result, returned, HttpException}
use fenzit_be.Attendance.CheckIn.Answers.{
  replay_rejection, ctx_of, replay_response, Response, Answer, block_to_arm, answer_blocked,
  rejection, reject_committed, is_ok, Call, same_kind,
}
use fenzit_be.Attendance.CheckIn.Model.{
  rate_limited, no_extras, check_out, check_in, outcome_error_code, outcome_status, OutcomeExtras,
  AttemptOutcome, outcome_to_exception, AttemptKind,
}
use fenzit_be.Attendance.CheckIn.Tables.{
  read_active_blocked_until, find_record_by_employee_date, RecordRow, to_attempt_location,
  AttemptLocation, insert_attempt, Site, has_key, AttemptRow, CheckDb,
  find_attempt_by_idempotency_key,
}
use fenzit_be.Prelude.{
  subst, inr, ◌∙◌, inl, sym, Option-cases, Bool, ap, Option, get_or, ℕ, text_eq_self, none, some,
  text_eq, [], false, arith, ◌∷◌, ◌++◌, exists, true, ◌≡◌, List, Text, refl,
}

-- A key that nobody has used is not found; the row that is appended under it is.
find-fresh :
    (tenant_id employee_id request_id : Text) (rows : List AttemptRow) (row : AttemptRow)
    → exists (has_key tenant_id request_id) rows ≡ false
    → has_key tenant_id request_id row ≡ true
    → text_eq row.employee_id employee_id ≡ true
    → find_attempt_by_idempotency_key (rows ++ row ∷ []) tenant_id employee_id request_id ≡ some row
unfolding find_attempt_by_idempotency_key
find-fresh tenant_id employee_id request_id [] row u k e = ground arith
find-fresh tenant_id employee_id request_id (a ∷ rows) row u k e =
    ground (arith, find-fresh tenant_id employee_id request_id rows row)

same_kind_self : (k : AttemptKind) → same_kind k k ≡ true
same_kind_self check_in = refl
same_kind_self check_out = refl

module _ (db : CheckDb) (call : Call) where
  -- The attempt that a refusal has left: of this call, not accepted, and with the refusal's answer.
  pub record Left (e : HttpException) (attempts : List AttemptRow) : Type 0 where
    pub row : AttemptRow
    pub appended : attempts ≡ db.attempts ++ row ∷ []
    pub key : has_key call.tenant_id call.request_id row ≡ true
    pub owner : text_eq row.employee_id call.employee_id ≡ true
    pub kind : row.kind ≡ call.kind
    pub refused : is_ok row.outcome ≡ false
    pub status : e.status ≡ outcome_status row.outcome
    pub error_code : e.error_code ≡ outcome_error_code row.outcome

outcome_to_exception-status :
    (o : AttemptOutcome) (x : OutcomeExtras)
    → ((outcome_to_exception o x).status ≡ outcome_status o)
      × ((outcome_to_exception o x).error_code ≡ outcome_error_code o)
unfolding outcome_to_exception
outcome_to_exception-status o x = ground arith

module _ (site : Site) (db : CheckDb) (call : Call) where
  reject_committed-Left :
      (o : AttemptOutcome) (location : AttemptLocation) {e : HttpException} {db' : CheckDb}
      → exists (has_key call.tenant_id call.request_id) db.attempts ≡ false
      → is_ok o ≡ false
      → reject_committed site db call o location ≡ (rejection e, db')
      → Left db call e db'.attempts
  unfolding reject_committed insert_attempt
  reject_committed-Left o location u r h =
      let answer = outcome_to_exception-status o no_extras in
      record {
        row = own_row site db call o location none;
        appended = ground arith;
        key = ground (arith, text_eq_self call.tenant_id, text_eq_self call.request_id);
        owner = text_eq_self call.employee_id;
        kind = refl;
        refused = r;
        status = ground arith;
        error_code = ground arith;
      }

  ladder-Left :
      (o : AttemptOutcome) (ctx : DayContext) (location : AttemptLocation) {e : HttpException}
      {db' : CheckDb}
      → exists (has_key call.tenant_id call.request_id) db.attempts ≡ false
      → is_ok o ≡ false
      → reject_with_ladder site db call o ctx location ≡ (rejection e, db')
      → Left db call e db'.attempts
  unfolding reject_with_ladder insert_attempt
  ladder-Left o ctx location {e} {db'} u r h =
      let answer = outcome_to_exception-status o (record no_extras {
        distance_m = some (site.rounded (get_or location.distance_m 0));
        radius_m = some (get_or ctx.radius_m 0);
      }) in
      record {
        row = own_row site db call o location (block_to_arm site db call o);
        appended =
            ap (λ (p : Answer × CheckDb). p.1.attempts) (sym h)
            ∙ ladder-attempts site db call o ctx location u;
        key = ground (arith, text_eq_self call.tenant_id, text_eq_self call.request_id);
        owner = text_eq_self call.employee_id;
        kind = refl;
        refused = r;
        status = ground arith;
        error_code = ground arith;
      }

  blocked-Left :
      (until : ℕ) {e : HttpException} {db' : CheckDb}
      → exists (has_key call.tenant_id call.request_id) db.attempts ≡ false
      → answer_blocked site db call until ≡ (rejection e, db')
      → Left db call e db'.attempts
  unfolding answer_blocked insert_attempt outcome_to_exception
  blocked-Left until u h = record {
    row = own_row site db call rate_limited (to_attempt_location call.dto none none) none;
    appended = ground arith;
    key = ground (arith, text_eq_self call.tenant_id, text_eq_self call.request_id);
    owner = text_eq_self call.employee_id;
    kind = refl;
    refused = refl;
    status = ground arith;
    error_code = ground arith;
  }

  verdict_of-refused :
      (distance_m : Double) (radius_m : ℕ) {o : AttemptOutcome}
      → verdict_of site call.dto distance_m radius_m ≡ some o
      → is_ok o ≡ false
  unfolding verdict_of
  verdict_of-refused distance_m radius_m h = ground arith

  conflict_of-refused :
      (ctx : DayContext) (row : Option RecordRow) (b : Bool) {o : AttemptOutcome}
      → conflict_of ctx call.kind row b ≡ some o
      → is_ok o ≡ false
  unfolding conflict_of
  conflict_of-refused ctx row b h = ground arith

  accept-answered :
      (ctx : DayContext) (pin : Pin) (row : Option RecordRow) (distance_m : Double)
      (location : AttemptLocation) {e : HttpException} {db' : CheckDb}
      → exists (has_key call.tenant_id call.request_id) db.attempts ≡ false
      → accept site db call ctx pin row distance_m location ≡ returned (rejection e, db')
      → ⊥
  unfolding accept insert_attempt read_back
  accept-answered ctx pin row distance_m location u h = ground arith

  locate-Left :
      (ctx : DayContext) (pin : Pin) (row : Option RecordRow) {e : HttpException} {db' : CheckDb}
      → exists (has_key call.tenant_id call.request_id) db.attempts ≡ false
      → locate site db call ctx pin row ≡ returned (rejection e, db')
      → Left db call e db'.attempts
  unfolding locate
  locate-Left ctx pin row {e} {db'} u h =
      let distance_m =
        site.haversine_distance_m pin.office_lat pin.office_lng call.dto.latitude
          call.dto.longitude in
      elim (Option-cases (verdict_of site call.dto distance_m pin.radius_m)) [
        | inl v ↦
            absurd
              (accept-answered ctx pin row distance_m _ {e = e} {db' = db'} u (rw (v, locate) at h))
        | inr (o, v) ↦
            let location = to_attempt_location call.dto (some pin.radius_m) (some distance_m) in
            ladder-Left o ctx location {e = e} {db' = db'} u
              (verdict_of-refused distance_m pin.radius_m v)
              (let same : returned (reject_with_ladder site db call o ctx location)
                    ≡ returned (rejection e, db') =
                  rw (v, locate) at h in
                cc)
      ]

  decide-Left :
      (ctx : DayContext) {e : HttpException} {db' : CheckDb}
      → exists (has_key call.tenant_id call.request_id) db.attempts ≡ false
      → decide site db call ctx ≡ returned (rejection e, db')
      → Left db call e db'.attempts
  unfolding decide
  decide-Left ctx {e} {db'} u h =
      let row = find_record_by_employee_date db.day_records call.employee_id site.today in
      elim (Option-cases (conflict_of ctx call.kind row call.dto.confirm_leave_cancel)) [
        | inr (o, v) ↦
            reject_committed-Left o (to_attempt_location call.dto ctx.radius_m none) {e = e}
              {db' = db'} u (conflict_of-refused ctx row call.dto.confirm_leave_cancel v)
              (let same : returned (
                      reject_committed site db call o
                        (to_attempt_location call.dto ctx.radius_m none))
                    ≡ returned (rejection e, db') =
                  rw (v, decide) at h in
                cc)
        | inl v ↦ elim (Option-cases (pin_of ctx)) [
          | inl p ↦ absurd (ground arith)
          | inr (pin, p) ↦ locate-Left ctx pin row {e = e} {db' = db'} u (ground arith)
        ]
      ]

  first_call-Left :
      {e : HttpException} {db' : CheckDb}
      → exists (has_key call.tenant_id call.request_id) db.attempts ≡ false
      → first_call site db call ≡ returned (rejection e, db')
      → Left db call e db'.attempts
  unfolding first_call
  first_call-Left {e} {db'} u h =
      elim (Option-cases (read_active_blocked_until db.attempts call.employee_id site.now)) [
        | inr (t, b) ↦ blocked-Left t {e = e} {db' = db'} u (
            let same : returned (answer_blocked site db call t) ≡ returned (rejection e, db') =
              rw (b, first_call) at h in
            cc)
        | inl b ↦ elim (Result-cases (ctx_of site db call site.today)) [
          | inl (x, c) ↦ absurd (ground arith)
          | inr (ctx, c) ↦ decide-Left ctx {e = e} {db' = db'} u (ground arith)
        ]
      ]

-- The same refusal: the status and the error code.
abbrev pub RefusesAs : HttpException → Result Response → Type 0
RefusesAs e (returned r) = ⊥
RefusesAs e (thrown e') = (e'.status ≡ e.status) × (e'.error_code ≡ e.error_code)

replay_rejection-status :
    (site : Site) (db : CheckDb) (call : Call) (row : AttemptRow)
    → ((replay_rejection site db call row).status ≡ outcome_status row.outcome)
      × ((replay_rejection site db call row).error_code ≡ outcome_error_code row.outcome)
unfolding replay_rejection
replay_rejection-status site db call row = outcome_to_exception-status row.outcome _

retry-Left :
    (site : Site) (db db' : CheckDb) (call : Call) (e : HttpException)
    → exists (has_key call.tenant_id call.request_id) db.attempts ≡ false
    → Left db call e db'.attempts
    → RefusesAs e (run site db' call).0
unfolding run
retry-Left site db db' call e u l =
    let row = l.row in
    let found : find_attempt_by_idempotency_key db'.attempts call.tenant_id call.employee_id
          call.request_id
        ≡ some row =
      ap
        (λ rows.
          find_attempt_by_idempotency_key rows call.tenant_id call.employee_id call.request_id)
        l.appended
      ∙ find-fresh call.tenant_id call.employee_id call.request_id db.attempts row u l.key
          l.owner in
    let kinds : same_kind row.kind call.kind ≡ true =
      ap (λ k. same_kind k call.kind) l.kind ∙ same_kind_self call.kind in
    let again = replay_rejection-status site db' call row in
    let refused = l.refused in
    let result : transact site db' call
        ≡ returned (rejection (replay_rejection site db' call row), db') =
      unfold transact in unfold replay_response in ground (arith, found, kinds, refused) in
    subst (λ r. RefusesAs e (settled db' r).0) (sym result)
      (again.0 ∙ sym l.status, again.1 ∙ sym l.error_code)

-- A call with a fresh key that is refused and recorded is refused again when it is retried with the
-- same key, at any later time, with the same status and the same error code.
pub refusal-repeats :
    (site site' : Site) (db : CheckDb) (call : Call) {e : HttpException} {db' : CheckDb}
    → exists (has_key call.tenant_id call.request_id) db.attempts ≡ false
    → transact site db call ≡ returned (rejection e, db')
    → RefusesAs e (run site' db' call).0
unfolding transact
refusal-repeats site site' db call {e} {db'} u h = retry-Left site' db db' call e u (
    first_call-Left site db call {e = e} {db' = db'} u (
      ground
        (arith, is_used-find db call.tenant_id call.employee_id call.request_id db.attempts u)))
