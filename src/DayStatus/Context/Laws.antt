-- ===== src/DayStatus/Context/Laws.antt =====
-- Laws of the day's facts: rounding of the worked time, lateness, the midpoint, the enable-day grace.
use fenzit_be.Prelude.{
  ltb, inr, inl, sym, ◌∙◌, Option-cases, Bool-cases, text_eq, ℕ, ◌≤◌, ◌<◌, ◌≡◌, refl, ◌↔◌, Bool,
  true, false, not, ◌&&◌, Option, none, some, List, [], ◌∷◌, arith, is_some, Text, codes,
}
use fenzit_be.Calendar.{split_on, number_of, utc_day, utc_weekday}
use fenzit_be.DayStatus.OfficeRules.{OfficeRuleRow}
use fenzit_be.DayStatus.Types.{Zone, DayContext, DayFacts, OfficeJoinRow, LeaveSeam}
use fenzit_be.DayStatus.Context.{
  iso_weekday_of, weekday_of_parts, compute_midpoint_minute, worked_minutes_between,
  time_string_to_minutes, Grace, grace_of, apply_enable_day_grace, assemble_day_context,
}

worked_tests :
    (worked_minutes_between 0 0 ≡ 0)
    × (worked_minutes_between 0 1 ≡ 1)
    × (worked_minutes_between 0 89999 ≡ 1)
    × (worked_minutes_between 0 90000 ≡ 2)
    × (worked_minutes_between 90000 0 ≡ 0)
unfolding worked_minutes_between
worked_tests = (refl, refl, refl, refl, refl)

text_tests :
    (time_string_to_minutes (codes "10:30:00") ≡ some 630)
    × (time_string_to_minutes (codes "10") ≡ none)
    × (iso_weekday_of (codes "2026-09-27") ≡ some 7)
    × (iso_weekday_of (codes "2026-09-28") ≡ some 1)
unfolding time_string_to_minutes iso_weekday_of utc_weekday utc_day split_on number_of
text_tests = (refl, refl, refl, refl)

-- The midpoint of a shift lies inside it, in either order of its ends.
pub compute_midpoint_minute_bounds :
    (start end : ℕ)
    → (start ≤ end
        → (start ≤ compute_midpoint_minute start end) × (compute_midpoint_minute start end ≤ end))
      × (end ≤ start
          → (end ≤ compute_midpoint_minute start end) × (compute_midpoint_minute start end ≤ start))
unfolding compute_midpoint_minute
compute_midpoint_minute_bounds start end = (λ h. ground arith, λ h. ground arith)

weekday_of_parts-range :
    (parts : List Text) {n : ℕ} → weekday_of_parts parts ≡ some n → (1 ≤ n) × (n ≤ 7)
unfolding weekday_of_parts
weekday_of_parts-range [] h = cc
weekday_of_parts-range (y ∷ []) h = cc
weekday_of_parts-range (y ∷ m ∷ []) h = cc
weekday_of_parts-range (y ∷ m ∷ d ∷ rest) h = ground arith

-- A weekday number, where the text is a date, is 1 to 7.
pub iso_weekday_of_range : (date : Text) {n : ℕ} → iso_weekday_of date ≡ some n → (1 ≤ n) × (n ≤ 7)
unfolding iso_weekday_of
iso_weekday_of_range date h = weekday_of_parts-range (split_on b'-' date) h

-- The enable-day grace only ever takes tracking away, and never from a day with a check-in, from a
-- day without a covering rule, or from an enrolment that was never enabled.
pub grace_narrows :
    (z : Zone) (facts : DayFacts) (rule : Option OfficeRuleRow) (work_date timezone : Text)
    (has_check_in : Bool) {g : Grace}
    → apply_enable_day_grace z facts rule work_date timezone has_check_in ≡ some g
    → (g.tracked
        ≡ (facts.enrolment_covers && facts.setup_completed && facts.enabled && not g.grace_blocks))
      × (g.grace_blocks ≡ true
          → (has_check_in ≡ false) × (is_some rule ≡ true) × (is_some facts.enabled_at ≡ true))
unfolding apply_enable_day_grace grace_of
grace_narrows z facts rule work_date timezone has_check_in h = ground arith

-- The enable-day grace takes the day away: the switch was turned on that day after the office had
-- started, and there is no check-in.
abbrev pub GraceBlocks : Zone → DayFacts → (work_date timezone : Text) → Bool → Type 0
GraceBlocks z facts work_date timezone has_check_in =
    (rule : OfficeRuleRow) × (enabled_at : ℕ) × (start : ℕ) × (has_check_in ≡ false)
    × (facts.rule ≡ some rule)
    × (facts.enabled_at ≡ some enabled_at)
    × (time_string_to_minutes rule.start_time ≡ some start)
    × (text_eq (z.date_in_tz enabled_at timezone) work_date ≡ true)
    × (start < z.minute_of_day_in_tz enabled_at timezone)

-- The enrolment covers the day, and attendance is set up and switched on.
abbrev pub IsAdmitted : DayFacts → Type 0
IsAdmitted facts =
    (facts.enrolment_covers ≡ true) × (facts.setup_completed ≡ true) × (facts.enabled ≡ true)

tracked-free :
    (z : Zone) (facts : DayFacts) (work_date timezone : Text) (has_check_in : Bool) {g : Grace}
    → apply_enable_day_grace z facts facts.rule work_date timezone has_check_in ≡ some g
    → g.tracked ≡ true
    → ¬ (GraceBlocks z facts work_date timezone has_check_in)
unfolding apply_enable_day_grace grace_of
tracked-free z facts work_date timezone has_check_in h on
      (rule, enabled_at, start, no_check, r, e, t, d, lt) =
    ground arith

tracked-IsAdmitted :
    (z : Zone) (facts : DayFacts) (work_date timezone : Text) (has_check_in : Bool) {g : Grace}
    → apply_enable_day_grace z facts facts.rule work_date timezone has_check_in ≡ some g
    → g.tracked ≡ true
    → IsAdmitted facts
unfolding apply_enable_day_grace grace_of
tracked-IsAdmitted z facts work_date timezone has_check_in h on =
    (ground arith, ground arith, ground arith)

free-tracked :
    (z : Zone) (facts : DayFacts) (work_date timezone : Text) (has_check_in : Bool) {g : Grace}
    → apply_enable_day_grace z facts facts.rule work_date timezone has_check_in ≡ some g
    → IsAdmitted facts
    → ¬ (GraceBlocks z facts work_date timezone has_check_in)
    → g.tracked ≡ true
unfolding apply_enable_day_grace grace_of
free-tracked z facts work_date timezone has_check_in {g} h (covers, set_up, enabled) free =
    elim (Bool-cases has_check_in) [
      | inl e ↦ ground arith
      | inr no_check ↦ elim (Option-cases facts.rule) [
        | inl e ↦ ground arith
        | inr (rule, r) ↦ elim (Option-cases facts.enabled_at) [
          | inl e ↦ ground arith
          | inr (at, e) ↦ elim (Option-cases (time_string_to_minutes rule.start_time)) [
            | inl t ↦ absurd (ground arith)
            | inr (start, t) ↦
                elim (Bool-cases (
                  text_eq (z.date_in_tz at timezone) work_date
                  && ltb start (z.minute_of_day_in_tz at timezone))) [
                    | inl b ↦
                        absurd
                          (free (rule, at, start, no_check, r, e, t, ground arith, ground arith))
                    | inr b ↦ ground arith
                  ]
          ]
        ]
      ]
    ]

assembled-grace :
    (z : Zone) (tenant_id employee_id work_date timezone : Text) (facts : DayFacts)
    (office : Option OfficeJoinRow) (has_check_in : Bool) (leave : Option LeaveSeam)
    {ctx : DayContext}
    → assemble_day_context z tenant_id employee_id work_date timezone facts office has_check_in
        leave
      ≡ some ctx
    → (g : Grace) × (apply_enable_day_grace z facts facts.rule work_date timezone has_check_in
        ≡ some g)
      × (g.tracked ≡ ctx.tracked)
unfolding assemble_day_context
assembled-grace z t e work_date timezone facts office has_check_in leave {ctx} h =
    elim (Option-cases
      (apply_enable_day_grace z facts facts.rule work_date timezone has_check_in)) [
        | inl q ↦ absurd (ground arith)
        | inr (g, q) ↦ (g, q, ground arith)
      ]

-- A day whose context is assembled is tracked exactly when the enrolment covers it, attendance is set up
-- and switched on, and the enable-day grace does not take it away: there is a check-in, or no covering
-- rule, or the switch was not turned on that day, or not after the rule's start.
pub assemble_day_context-tracked_iff :
    (z : Zone) (tenant_id employee_id work_date timezone : Text) (facts : DayFacts)
    (office : Option OfficeJoinRow) (has_check_in : Bool) (leave : Option LeaveSeam)
    {ctx : DayContext}
    → assemble_day_context z tenant_id employee_id work_date timezone facts office has_check_in
        leave
      ≡ some ctx
    → (ctx.tracked ≡ true)
      ↔ (IsAdmitted facts × (¬ (GraceBlocks z facts work_date timezone has_check_in)))
assemble_day_context-tracked_iff z t e work_date timezone facts office has_check_in leave {ctx} h =
    let (g, q, same) = assembled-grace z t e work_date timezone facts office has_check_in leave h in
    (
      (λ on.
          let kept = same ∙ on in
          (
            tracked-IsAdmitted z facts work_date timezone has_check_in q kept,
            tracked-free z facts work_date timezone has_check_in q kept,
          )),
      λ (admitted, free).
          sym same ∙ free-tracked z facts work_date timezone has_check_in q admitted free,
    )
