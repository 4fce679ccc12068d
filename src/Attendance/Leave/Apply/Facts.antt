-- ===== src/Attendance/Leave/Apply/Facts.antt =====
-- The facts under which an application for leave is let through.

-- The employee is enrolled with attendance that is set up and switched on, and the enrolment covers
-- today or starts later.
use fenzit_be.Attendance.Errors.{leave_before_start_date, attendance_not_tracked, ErrorCode}
use fenzit_be.Prelude.{◌&&◌, ◌||◌, not, if◌then◌else◌}
use fenzit_be.Prelude.{◌∙◌, inr, sym, Option, inl, ap, Bool, refl}
use fenzit_be.Prelude.{
  ◌∷◌, arith, In, ◌↔◌, exists-witness, exists, [], exists-In, some, false, ◌⊎◌, none, true, Text,
  ◌≡◌, List,
}
use fenzit_be.Attendance.Leave.Apply.{
  works_on, first_before, starts_later, judge_oldest, days_back, is_some_date, first_before_floor,
  validate_apply_facts, judge_days, ApplyFactInput,
}

abbrev pub IsTracked : ApplyFactInput → Type 0
IsTracked facts =
    (facts.settings.setup_completed ≡ true)
    × (facts.settings.enabled ≡ true)
    × (facts.enrolment.is_there ≡ true)
    × ((facts.enrolment.covers_today ≡ true)
        ⊎ (starts_later facts.enrolment.floor facts.today ≡ true))

-- No first day before the enrolment's floor or the oldest day that is allowed, no check-in, no
-- correction and no other leave in the span, and a working day in it.
pub record IsApplicable (dates : List Text) (oldest : Text) (facts : ApplyFactInput) : Type 0 where
  pub is_tracked : IsTracked facts
  pub after_floor : first_before_floor dates facts.enrolment.floor ≡ false
  pub is_recent : first_before dates oldest ≡ false
  pub is_absent : facts.checked_in_dates ≡ []
  pub working_day : Text
  pub is_in_span : In working_day dates
  pub is_working : works_on facts.span_facts working_day ≡ true
  pub is_uncorrected : facts.override_dates ≡ []
  pub is_free : facts.overlapping_dates ≡ []

no_date : (dates : List Text) → is_some_date dates ≡ false → dates ≡ []
no_date [] h = refl
no_date (date ∷ dates) h = cc

judge_days-passed :
    (dates : List Text) (facts : ApplyFactInput)
    → judge_days dates facts ≡ none
    → (is_some_date facts.checked_in_dates ≡ false)
      × (exists (works_on facts.span_facts) dates ≡ true)
      × (is_some_date facts.override_dates ≡ false)
      × (is_some_date facts.overlapping_dates ≡ false)
unfolding judge_days
judge_days-passed dates facts h = (ground arith, ground arith, ground arith, ground arith)

-- The gates before the rule on the oldest day, over their conditions.
abbrev gates :
    (set_up enabled there covers later floor : Bool)
    → Option (Option ErrorCode)
    → Option (Option ErrorCode)
gates set_up enabled there covers later floor rest =
    if not set_up || not enabled
    then some (some attendance_not_tracked)
    else if not there || (not covers && not later)
    then some (some attendance_not_tracked)
    else if floor
    then some (some leave_before_start_date)
    else rest

gates-passed :
    (set_up enabled there covers later floor : Bool) (rest : Option (Option ErrorCode))
    → gates set_up enabled there covers later floor rest ≡ some none
    → ((set_up ≡ true) × (enabled ≡ true) × (there ≡ true) × ((covers ≡ true) ⊎ (later ≡ true)))
      × ((floor ≡ false) × (rest ≡ some none))
gates-passed true true true true later false rest h = ((refl, refl, refl, inl refl), (refl, h))
gates-passed true true true false true false rest h = ((refl, refl, refl, inr refl), (refl, h))
gates-passed true true true true later true rest h = absurd (ground arith)
gates-passed true true true false true true rest h = absurd (ground arith)
gates-passed true true true false false floor rest h = absurd (ground arith)
gates-passed true true false covers later floor rest h = absurd (ground arith)
gates-passed true false there covers later floor rest h = absurd (ground arith)
gates-passed false enabled there covers later floor rest h = absurd (ground arith)

IsTracked-passed :
    (dates : List Text) (facts : ApplyFactInput) (oldest : Text)
    → days_back facts.today 7 ≡ some oldest
    → validate_apply_facts dates facts ≡ some none
    → IsTracked facts
      × ((first_before_floor dates facts.enrolment.floor ≡ false)
          × (judge_oldest dates facts (some oldest) ≡ some none))
unfolding validate_apply_facts
IsTracked-passed dates facts oldest e h =
    gates-passed facts.settings.setup_completed facts.settings.enabled facts.enrolment.is_there
      facts.enrolment.covers_today (starts_later facts.enrolment.floor facts.today)
      (first_before_floor dates facts.enrolment.floor) (judge_oldest dates facts (some oldest))
      (ap
          (gates facts.settings.setup_completed facts.settings.enabled facts.enrolment.is_there
            facts.enrolment.covers_today (starts_later facts.enrolment.floor facts.today)
            (first_before_floor dates facts.enrolment.floor))
          (ap (judge_oldest dates facts) (sym e))
        ∙ h)

oldest-passed :
    (dates : List Text) (facts : ApplyFactInput) (oldest : Text)
    → judge_oldest dates facts (some oldest) ≡ some none
    → (first_before dates oldest ≡ false) × (judge_days dates facts ≡ none)
oldest-passed dates facts oldest h = (ground arith, ground arith)

IsApplicable-passed :
    (dates : List Text) (facts : ApplyFactInput) (oldest : Text)
    → days_back facts.today 7 ≡ some oldest
    → validate_apply_facts dates facts ≡ some none
    → IsApplicable dates oldest facts
IsApplicable-passed dates facts oldest e h =
    let (tracked, (floor, rest)) = IsTracked-passed dates facts oldest e h in
    let (recent, days) = oldest-passed dates facts oldest rest in
    let (absent, working, uncorrected, free) = judge_days-passed dates facts days in
    let (day, member, works) = exists-witness (works_on facts.span_facts) dates working in
    record {
      is_tracked = tracked;
      after_floor = floor;
      is_recent = recent;
      is_absent = no_date facts.checked_in_dates absent;
      working_day = day;
      is_in_span = member;
      is_working = works;
      is_uncorrected = no_date facts.override_dates uncorrected;
      is_free = no_date facts.overlapping_dates free;
    }

judge_days-IsApplicable :
    (dates : List Text) (facts : ApplyFactInput) (oldest : Text)
    → IsApplicable dates oldest facts
    → judge_days dates facts ≡ none
unfolding judge_days
judge_days-IsApplicable dates facts oldest a =
    let works = exists-In (works_on facts.span_facts) a.is_in_span a.is_working in
    rw (a.is_absent, works, a.is_uncorrected, a.is_free) refl

passed-IsApplicable :
    (dates : List Text) (facts : ApplyFactInput) (oldest : Text)
    → days_back facts.today 7 ≡ some oldest
    → IsApplicable dates oldest facts
    → validate_apply_facts dates facts ≡ some none
unfolding validate_apply_facts
passed-IsApplicable dates facts oldest e a =
    let (set_up, enabled, there, covers) = a.is_tracked in
    rw
      (
        e,
        judge_days-IsApplicable dates facts oldest a,
        set_up,
        enabled,
        there,
        a.after_floor,
        a.is_recent,
      )
      (elim covers [ inl c ↦ rw (c) refl | inr l ↦ ground arith ])

-- When today is a date, so that the oldest day allowed is one too, the rules let an application through
-- exactly when attendance is tracked for the employee, the first day is neither before the enrolment's
-- floor nor more than 7 days back, and the span has a working day, no check-in, no correction and no
-- other leave.
pub validate_apply_facts_iff :
    (dates : List Text) (facts : ApplyFactInput) (oldest : Text)
    → days_back facts.today 7 ≡ some oldest
    → (validate_apply_facts dates facts ≡ some none) ↔ IsApplicable dates oldest facts
validate_apply_facts_iff dates facts oldest e =
    (IsApplicable-passed dates facts oldest e, passed-IsApplicable dates facts oldest e)
