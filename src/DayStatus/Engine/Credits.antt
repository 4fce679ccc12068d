-- ===== src/DayStatus/Engine/Credits.antt =====
-- Credits, flags and markers of the outcome of `computeDayStatus`, on every branch.
use fenzit_be.Prelude.{
  ℕ, ◌+◌, ◌≤◌, ◌≡◌, refl, Bool, true, false, ◌&&◌, ◌||◌, not, Option, none, some, List, [], ◌∷◌,
  ◌++◌, arith, is_some, exists, sym, ap, ◌∙◌,
}
use fenzit_be.DayStatus.Types.{
  Zone, DayContext, DayStatusInput, DayStatusOutcome, DayStatusKey, DayMarkerKey, EngineRecordRow,
  EngineOverrideRow, FixedStatus, not_tracked, not_checked_in_yet, weekly_off, holiday,
  worked_on_holiday, leave,
}
use fenzit_be.DayStatus.Engine.{
  Day, grade_worked, days_worked_for_fixed, worked_on_holiday_grade, worked_ladder, leave_ladder,
  tracked_ladder, ladder, fixed_status, day_of, day_markers, compute_day_status, effective_instants,
  substituted, manual_checkin, manual_checkout, record_checkin, record_checkout,
}

abbrev pub total_credit : DayStatusOutcome → ℕ
total_credit o = o.days_worked + o.leave_credit + o.worked_on_holiday_credit

ladder-total_credit :
    (ctx : DayContext) (fixed : Option FixedStatus) (d : Day)
    → total_credit (ladder ctx fixed d) ≤ 2
unfolding ladder tracked_ladder leave_ladder worked_ladder days_worked_for_fixed
    worked_on_holiday_grade
ladder-total_credit ctx (some s) d = ground arith
ladder-total_credit ctx none d = ground arith

-- No day is credited more than once: worked days, leave and worked off days together come to at
-- most one day (two halves), whatever the input.
pub credit-le-one_day : (z : Zone) (i : DayStatusInput) → total_credit (compute_day_status z i) ≤ 2
unfolding compute_day_status
credit-le-one_day z i = ladder-total_credit i.ctx (fixed_status i.override) (day_of z i)

-- The statuses of a day that has no shift to grade.
abbrev pub is_off_status : DayStatusKey → Bool
is_off_status weekly_off = true
is_off_status holiday = true
is_off_status worked_on_holiday = true
is_off_status leave = true
is_off_status not_tracked = true
is_off_status not_checked_in_yet = true
is_off_status _ = false

-- A day that is untracked, off, worked while off, on full leave or still awaited is neither late nor
-- an early check-out, and earns no worked day.
pub off_status_unflagged :
    (z : Zone) (i : DayStatusInput)
    → is_off_status (compute_day_status z i).status ≡ true
    → ((compute_day_status z i).is_late ≡ false)
      × ((compute_day_status z i).early_checkout ≡ false)
      × ((compute_day_status z i).days_worked ≡ 0)
unfolding compute_day_status ladder tracked_ladder leave_ladder worked_ladder
off_status_unflagged z i h = ground arith

abbrev pub is_missing : DayMarkerKey → Bool
is_missing DayMarkerKey.checkout_missing = true
is_missing _ = false

abbrev pub has_missing : DayStatusOutcome → Bool
has_missing o = exists is_missing o.markers

day_markers-unmissing : (i : DayStatusInput) → exists is_missing (day_markers i) ≡ false
unfolding day_markers
day_markers-unmissing i = ground arith

exists-append :
    (p : DayMarkerKey → Bool) (xs ys : List DayMarkerKey)
    → exists p (xs ++ ys) ≡ (exists p xs || exists p ys)
exists-append p [] ys = refl
exists-append p (x ∷ xs) ys = ground (arith, exists-append p xs ys)

ladder-missing :
    (ctx : DayContext) (fixed : Option FixedStatus) (d : Day)
    → exists is_missing d.markers ≡ false
    → has_missing (ladder ctx fixed d) ≡ (
        not (is_some fixed)
        && ctx.tracked
        && d.is_past
        && is_some d.instants.checkin
        && not (is_some d.instants.checkout))
unfolding ladder tracked_ladder leave_ladder worked_ladder
ladder-missing ctx (some s) d h = ground arith
ladder-missing ctx none d h =
    ground (arith, exists-append is_missing d.markers (DayMarkerKey.checkout_missing ∷ []))

-- The marker `checkout_missing` is on exactly the past, tracked days whose status nobody has
-- corrected and whose effective shift has a check-in and no check-out.
pub missing_marker_iff :
    (z : Zone) (i : DayStatusInput)
    → has_missing (compute_day_status z i) ≡ (
        not (is_some (fixed_status i.override))
        && i.ctx.tracked
        && (day_of z i).is_past
        && is_some (day_of z i).instants.checkin
        && not (is_some (day_of z i).instants.checkout))
unfolding compute_day_status
missing_marker_iff z i =
    ladder-missing i.ctx (fixed_status i.override) (day_of z i)
      (unfold day_of in day_markers-unmissing i)

-- More worked time never lowers the grade of a shift.
pub grade_worked_mono :
    (w w' : ℕ) (full half : Option ℕ)
    → w ≤ w'
    → days_worked_for_fixed (grade_worked w full half)
      ≤ days_worked_for_fixed (grade_worked w' full half)
unfolding grade_worked days_worked_for_fixed
grade_worked_mono w w' none half h = ground arith
grade_worked_mono w w' (some full) none h = ground arith
grade_worked_mono w w' (some full) (some half) h = ground arith

-- The record that a times-only correction stands for.
abbrev pub substitute :
    (checkin : ℕ) → Option EngineRecordRow → Option EngineOverrideRow → EngineRecordRow
substitute checkin row override = record {
  checkin_at = checkin;
  checkout_at = substituted (manual_checkout override) (record_checkout row);
}

-- What a day is graded, without the sources of its instants and without its markers.
abbrev pub grading : DayStatusOutcome → DayStatusOutcome
grading o = record o { checkin_source = none; checkout_source = none; markers = [] }

abbrev bare : Day → Day
bare d = record d {
  markers = [];
  instants = record {
    checkin = d.instants.checkin;
    checkout = d.instants.checkout;
    checkin_source = none;
    checkout_source = none;
  };
}

grading-bare :
    (ctx : DayContext) (fixed : Option FixedStatus) (d : Day)
    → grading (ladder ctx fixed d) ≡ grading (ladder ctx fixed (bare d))
unfolding ladder tracked_ladder leave_ladder worked_ladder
grading-bare ctx (some s) d = refl
grading-bare ctx none d = ground arith

bare-day_of :
    (z : Zone) (i : DayStatusInput) (checkin : ℕ)
    → substituted (manual_checkin i.override) (record_checkin i.day_record) ≡ some checkin
    → bare (day_of z i)
      ≡ bare (
          day_of z (record i {
            day_record = some (substitute checkin i.day_record i.override);
            override = none;
          }))
unfolding day_of effective_instants
bare-day_of z i checkin e = rw e

-- A correction of the times alone is graded like a record with the corrected times.
pub times_only_correction :
    (z : Zone) (i : DayStatusInput) (checkin : ℕ)
    → fixed_status i.override ≡ none
    → substituted (manual_checkin i.override) (record_checkin i.day_record) ≡ some checkin
    → grading (compute_day_status z i)
      ≡ grading (
          compute_day_status z (record i {
            day_record = some (substitute checkin i.day_record i.override);
            override = none;
          }))
unfolding compute_day_status
times_only_correction z i checkin h e = rw h (
    grading-bare i.ctx none (day_of z i)
    ∙ ap (λ d. grading (ladder i.ctx none d)) (bare-day_of z i checkin e)
    ∙ sym (grading-bare i.ctx none _))
