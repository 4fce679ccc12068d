-- ===== src/DayStatus/Context.antt =====
-- src/common/day-status/day-context.ts: the facts of one employee's day. `none` as the result of
-- `time_string_to_minutes` and of `assemble_day_context` is a thrown error.
pub mod Laws
use mathlib.Core.Option
use fenzit_be.Prelude.{
  ℕ, zero, suc, ◌+◌, ◌-◌, ◌*◌, ◌/◌, ◌%◌, Bool, true, false, not, ◌&&◌, ◌||◌, Option, none, some,
  List, [], ◌∷◌, ltb, leb, ◌==◌, if◌then◌else◌, is_some, exists, max, Text, text_eq,
}
use fenzit_be.Calendar.{number_of, split_on, utc_day, utc_weekday}
use fenzit_be.DayStatus.OfficeRules.{OfficeRuleRow}
use fenzit_be.DayStatus.Types.{
  Zone, DayContext, DayFacts, OfficeJoinRow, LeaveSeam, LeaveState, LeavePart, first_half,
  second_half,
}

-- A text that is no date gives NaN (`none`).
weekday_of_parts : List Text → Option ℕ
weekday_of_parts (y ∷ m ∷ d ∷ rest) = elim (number_of y) [
  | none ↦ none
  | some year ↦ elim (number_of m) [
    | none ↦ none
    | some month ↦ elim (number_of d) [
      | none ↦ none
      | some day ↦ some ((utc_weekday (utc_day year month day) + 6) % 7 + 1)
    ]
  ]
]
weekday_of_parts _ = none

unfoldable pub iso_weekday_of : Text → Option ℕ
unfolding weekday_of_parts
iso_weekday_of date = weekday_of_parts (split_on b'-' date)

minutes_of_parts : List Text → Option ℕ
minutes_of_parts (h ∷ m ∷ rest) = elim (number_of h) [
  | none ↦ none
  | some hours ↦ elim (number_of m) [ none ↦ none | some minutes ↦ some (hours * 60 + minutes) ]
]
minutes_of_parts _ = none

unfoldable pub time_string_to_minutes : Text → Option ℕ
unfolding minutes_of_parts
time_string_to_minutes value = minutes_of_parts (split_on b':' value)

-- `Math.trunc` goes towards 0 on both sides.
unfoldable pub compute_midpoint_minute : ℕ → ℕ → ℕ
compute_midpoint_minute start end =
    if leb start end then start + (end - start) / 2 else start - (start - end) / 2

-- `Math.max(0, …)` is what `-` on ℕ does.
unfoldable pub compute_late_minutes : ℕ → ℕ → ℕ → ℕ
compute_late_minutes checkin start cutoff = checkin - (start + cutoff)

unfoldable pub compute_early_checkout_minutes : ℕ → ℕ → Option ℕ
compute_early_checkout_minutes checkout end =
    if ltb checkout end then some (end - checkout) else none

unfoldable pub expected_start_minute : DayContext → Option ℕ
expected_start_minute ctx = elim ctx.leave_part [
  | some first_half ↦ ctx.midpoint_minute
  | _ ↦ ctx.start_minute
]

unfoldable pub expected_end_minute : DayContext → Option ℕ
expected_end_minute ctx = elim ctx.leave_part [
  | some second_half ↦ ctx.midpoint_minute
  | _ ↦ ctx.end_minute
]

unfoldable pub is_past_office_start : Option ℕ → ℕ → Bool
is_past_office_start none now = false
is_past_office_start (some start) now = leb start now

unfoldable pub leave_cutoff_passed : Option LeaveState → Option ℕ → ℕ → Bool
unfolding is_past_office_start
leave_cutoff_passed none start now = false
leave_cutoff_passed (some state) start now = is_past_office_start start now

-- `days.includes(n)`
abbrev pub includes : List ℕ → ℕ → Bool
includes days n = exists (λ d. d == n) days

unfoldable pub is_weekly_off_day : List ℕ → Text → Bool
is_weekly_off_day days work_date = elim (iso_weekday_of work_date) [
  | none ↦ false
  | some n ↦ includes days n
]

-- `Math.round` of a quotient by 60 000 goes up from the half.
unfoldable pub worked_minutes_between : ℕ → ℕ → ℕ
worked_minutes_between checkin checkout =
    let elapsed = checkout - checkin in
    if elapsed == 0 then 0 else max 1 ((elapsed + 30000) / 60000)

pub record Grace : Type 0 where
  pub tracked : Bool
  pub grace_blocks : Bool

module _ (z : Zone) where
  grace_of : Bool → OfficeRuleRow → ℕ → Text → Text → Option Grace
  grace_of base rule enabled_at work_date timezone = elim (time_string_to_minutes rule.start_time) [
    | none ↦ none
    | some start ↦
        let blocks =
          text_eq (z.date_in_tz enabled_at timezone) work_date
          && ltb start (z.minute_of_day_in_tz enabled_at timezone) in
        some (record { tracked = base && not blocks; grace_blocks = blocks })
  ]

  unfoldable pub apply_enable_day_grace :
      DayFacts → Option OfficeRuleRow → Text → Text → Bool → Option Grace
  unfolding grace_of
  apply_enable_day_grace facts rule work_date timezone has_check_in =
      let base = facts.enrolment_covers && facts.setup_completed && facts.enabled in
      let free : Option Grace = some (record { tracked = base; grace_blocks = false }) in
      if not base || has_check_in then free else elim rule [
        | none ↦ free
        | some r ↦ elim facts.enabled_at [
          | none ↦ free
          | some enabled_at ↦ grace_of base r enabled_at work_date timezone
        ]
      ]

-- The minutes of a time of the covering rule; the outer `none` is a thrown error.
abbrev rule_minutes : (OfficeRuleRow → Text) → Option OfficeRuleRow → Option (Option ℕ)
rule_minutes time none = some none
rule_minutes time (some r) = elim (time_string_to_minutes (time r)) [
  | none ↦ none
  | some minutes ↦ some (some minutes)
]

abbrev midpoint_of : Option ℕ → Option ℕ → Option ℕ
midpoint_of (some start) (some end) = some (compute_midpoint_minute start end)
midpoint_of _ _ = none

infixl 5 ◌>>=◌
abbrev ◌>>=◌ : {A B : Type 0} → Option A → (A → Option B) → Option B
none >>= k = none
some a >>= k = k a

unfoldable pub assemble_day_context :
    Zone
    → (tenant_id employee_id work_date timezone : Text) → DayFacts
    → Option OfficeJoinRow
    → Bool
    → Option LeaveSeam
    → Option DayContext
unfolding apply_enable_day_grace is_weekly_off_day
assemble_day_context z tenant_id employee_id work_date timezone facts office has_check_in leave = do
  start_minute ← rule_minutes (λ r. r.start_time) facts.rule
  end_minute ← rule_minutes (λ r. r.end_time) facts.rule
  grace ← apply_enable_day_grace z facts facts.rule work_date timezone has_check_in
  some (record {
    tenant_id = tenant_id;
    employee_id = employee_id;
    work_date = work_date;
    timezone = timezone;
    tracked_base = facts.enrolment_covers && facts.setup_completed && facts.enabled;
    tracked = grace.tracked;
    enable_day_grace_blocks = grace.grace_blocks;
    office_id = Option.map (λ o. o.office_id) office;
    office_name = Option.map (λ o. o.office_name) office;
    office_lat = Option.map (λ o. o.office_lat) office;
    office_lng = Option.map (λ o. o.office_lng) office;
    radius_m = Option.map (λ o. o.radius_m) office;
    office_rules_id = Option.map (λ r. r.id) facts.rule;
    start_minute = start_minute;
    end_minute = end_minute;
    midpoint_minute = midpoint_of start_minute end_minute;
    late_cutoff_minutes = Option.map (λ r. r.late_cutoff_minutes) facts.rule;
    full_day_minutes = Option.map (λ r. r.full_day_hours * 60) facts.rule;
    half_day_minutes = Option.map (λ r. r.half_day_hours * 60) facts.rule;
    is_weekly_off = is_weekly_off_day facts.weekly_off_days work_date;
    holiday_id = facts.holiday_id;
    holiday_name = facts.holiday_name;
    is_working_day =
        not (is_weekly_off_day facts.weekly_off_days work_date) && not (is_some facts.holiday_id);
    leave_state = Option.map (λ l. l.state) leave;
    leave_part = Option.map (λ l. l.part) leave;
    leave_request_id = Option.map (λ l. l.leave_request_id) leave;
  })
