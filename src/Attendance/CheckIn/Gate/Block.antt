-- ===== src/Attendance/CheckIn/Gate/Block.antt =====
-- The block that the fifth counted rejection arms.
use fenzit_be.Attendance.CheckIn.Gate.{is_thrown, run-blocked}
use fenzit_be.Attendance.CheckIn.Model.{is_counted, AttemptOutcome}
use fenzit_be.Attendance.CheckIn.Service.{maybe_alert_fake_location, run, reject_with_ladder}
use fenzit_be.DayStatus.Types.{DayContext}
use fenzit_be.Attendance.CheckIn.Answers.{block_to_arm, Call}
use fenzit_be.Attendance.CheckIn.Tables.{
  count_counted_in_window, AttemptLocation, insert_attempt, read_active_blocked_until, has_key,
  AttemptRow, CheckDb, Site,
}
use fenzit_be.Prelude.{
  length, subst, text_eq_self, ◌+◌, ◌++◌, ◌<◌, text_eq, is_some, inr, [], inl, Option-cases, ◌≤◌,
  arith, true, ◌∷◌, some, none, Option, ◌≡◌, false, exists, List, Text, ℕ,
}

block-append :
    (rows : List AttemptRow) (a : AttemptRow) (employee_id : Text) (now : ℕ) {t : ℕ}
    → text_eq a.employee_id employee_id ≡ true
    → a.blocked_until ≡ some t
    → now < t
    → is_some (read_active_blocked_until (rows ++ a ∷ []) employee_id now) ≡ true
unfolding read_active_blocked_until
block-append [] a employee_id now e b l = ground arith
block-append (x ∷ rows) a employee_id now e b l =
    let rest = block-append rows a employee_id now e b l in ground arith

module _ (site : Site) (db : CheckDb) (call : Call) where
  abbrev pub own_row : AttemptOutcome → AttemptLocation → Option ℕ → AttemptRow
  own_row outcome location blocked_until = record {
    id = length db.attempts;
    tenant_id = call.tenant_id;
    employee_id = call.employee_id;
    request_id = call.request_id;
    kind = call.kind;
    outcome = outcome;
    location = location;
    blocked_until = blocked_until;
    attempted_at = site.now;
  }

  pub ladder-attempts :
      (outcome : AttemptOutcome) (ctx : DayContext) (location : AttemptLocation)
      → exists (has_key call.tenant_id call.request_id) db.attempts ≡ false
      → (reject_with_ladder site db call outcome ctx location).1.attempts
        ≡ db.attempts ++ own_row outcome location (block_to_arm site db call outcome) ∷ []
  unfolding reject_with_ladder insert_attempt maybe_alert_fake_location
  ladder-attempts AttemptOutcome.mocked ctx location u = ground arith
  ladder-attempts outcome ctx location u = ground arith

  block_to_arm-counted :
      (outcome : AttemptOutcome)
      → is_counted outcome ≡ true
      → 5 ≤ count_counted_in_window db.attempts call.employee_id site.now + 1
      → block_to_arm site db call outcome ≡ some (site.now + 600000)
  unfolding block_to_arm
  block_to_arm-counted outcome c n = ground arith

  ladder-block :
      (outcome : AttemptOutcome) (ctx : DayContext) (location : AttemptLocation) (now : ℕ)
      → is_counted outcome ≡ true
      → 5 ≤ count_counted_in_window db.attempts call.employee_id site.now + 1
      → exists (has_key call.tenant_id call.request_id) db.attempts ≡ false
      → now < site.now + 600000
      → is_some (
          read_active_blocked_until
            (reject_with_ladder site db call outcome ctx location).1.attempts
            call.employee_id
            now)
        ≡ true
  ladder-block outcome ctx location now c n u l = rw (ladder-attempts outcome ctx location u) (
      block-append db.attempts (own_row outcome location (block_to_arm site db call outcome))
        call.employee_id now (text_eq_self call.employee_id) (block_to_arm-counted outcome c n) l)

  -- The fifth counted rejection within the window blocks the employee: for the ten minutes after it,
  -- every call of the employee with a fresh key is refused with 429.
  pub ladder-blocks :
      (outcome : AttemptOutcome) (ctx : DayContext) (location : AttemptLocation) (site' : Site)
      (call' : Call)
      → is_counted outcome ≡ true
      → 5 ≤ count_counted_in_window db.attempts call.employee_id site.now + 1
      → exists (has_key call.tenant_id call.request_id) db.attempts ≡ false
      → call'.employee_id ≡ call.employee_id
      → site'.now < site.now + 600000
      → exists
          (has_key call'.tenant_id call'.request_id)
          (reject_with_ladder site db call outcome ctx location).1.attempts
        ≡ false
      → is_thrown 429 (run site' (reject_with_ladder site db call outcome ctx location).1 call').0
        ≡ true
  ladder-blocks outcome ctx location site' call' c n u same l u' =
      let db' = (reject_with_ladder site db call outcome ctx location).1 in
      elim (Option-cases (read_active_blocked_until db'.attempts call'.employee_id site'.now)) [
        | inl e ↦ absurd (
            let armed = ladder-block outcome ctx location site'.now c n u l in
            let none_left : read_active_blocked_until db'.attempts call.employee_id site'.now
                ≡ none =
              subst (λ k. read_active_blocked_until db'.attempts k site'.now ≡ none) same e in
            cc)
        | inr (t, e) ↦ run-blocked site' db' call' u' e
      ]
