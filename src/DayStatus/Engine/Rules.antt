-- ===== src/DayStatus/Engine/Rules.antt =====
-- The ten rules as a relation in which no rule refers to the failure of an earlier one, and the
-- ladder of `computeDayStatus` as its decision.
use fenzit_be.Prelude.{
  ◌≡◌, refl, ◌⊎◌, Bool, true, false, Option, none, some, arith, is_some, get_or, ◌↔◌, subst,
}
use fenzit_be.DayStatus.Types.{
  Zone, DayStatusInput, DayContext, DayStatusKey, FixedStatus, not_tracked, not_checked_in_yet,
  in_progress, weekly_off, holiday, worked_on_holiday, leave, half_day_leave,
}
use fenzit_be.DayStatus.Engine.{
  compute_day_status, fixed_status, day_of, Day, is_approved, is_full_day, grade_worked, key_of,
  worked_ladder, leave_ladder, tracked_ladder, ladder,
}

module _ (ctx : DayContext) (d : Day) where
  abbrev pub IsOffDay : Type 0
  IsOffDay = (ctx.is_weekly_off ≡ true) ⊎ (is_some ctx.holiday_id ≡ true)

  abbrev pub IsWorkday : Type 0
  IsWorkday = (ctx.tracked ≡ true) × (ctx.is_weekly_off ≡ false) × (is_some ctx.holiday_id ≡ false)

  abbrev pub CheckedIn : Bool → Type 0
  CheckedIn b = is_some d.instants.checkin ≡ b

  abbrev pub CheckedOut : Bool → Type 0
  CheckedOut b = is_some d.instants.checkout ≡ b

  -- Approved half-day leave that is not a shift of today still running.
  abbrev pub OnHalfLeave : Type 0
  OnHalfLeave =
      (is_approved ctx.leave_state ≡ true)
      × (is_full_day ctx.leave_part ≡ false)
      × (CheckedIn false ⊎ CheckedOut true ⊎ (d.is_past ≡ true))

  -- No leave that grades the day when there is no check-in, or is not a half day.
  abbrev pub NoLeave : Type 0
  NoLeave = is_approved ctx.leave_state ≡ false

  -- `Rule fixed k`: the rules give the day the status `k`.
  pub data Rule (fixed : Option FixedStatus) (k : DayStatusKey) : Type 0 where
    correction : (s : FixedStatus) → fixed ≡ some s → k ≡ key_of s → Rule fixed k
    untracked : fixed ≡ none → ctx.tracked ≡ false → k ≡ not_tracked → Rule fixed k
    off_day_worked :
        fixed ≡ none
        → ctx.tracked ≡ true
        → IsOffDay
        → CheckedIn true
        → k ≡ worked_on_holiday
        → Rule fixed k
    off_weekly :
        fixed ≡ none
        → ctx.tracked ≡ true
        → ctx.is_weekly_off ≡ true
        → CheckedIn false
        → k ≡ weekly_off
        → Rule fixed k
    off_holiday :
        fixed ≡ none
        → ctx.tracked ≡ true
        → ctx.is_weekly_off ≡ false
        → is_some ctx.holiday_id ≡ true
        → CheckedIn false
        → k ≡ holiday
        → Rule fixed k
    full_leave :
        fixed ≡ none
        → IsWorkday
        → is_approved ctx.leave_state ≡ true
        → is_full_day ctx.leave_part ≡ true
        → CheckedIn false
        → k ≡ leave
        → Rule fixed k
    half_leave : fixed ≡ none → IsWorkday → OnHalfLeave → k ≡ half_day_leave → Rule fixed k
    graded :
        fixed ≡ none
        → IsWorkday
        → NoLeave ⊎ (is_full_day ctx.leave_part ≡ true)
        → CheckedIn true
        → CheckedOut true
        → k
          ≡ key_of
              (grade_worked (get_or d.working_minutes 0) ctx.full_day_minutes ctx.half_day_minutes)
        → Rule fixed k
    open_past :
        fixed ≡ none
        → IsWorkday
        → NoLeave ⊎ (is_full_day ctx.leave_part ≡ true)
        → d.is_past ≡ true
        → CheckedIn true
        → CheckedOut false
        → k ≡ DayStatusKey.checkout_missing
        → Rule fixed k
    missed :
        fixed ≡ none
        → IsWorkday
        → NoLeave
        → d.is_past ≡ true
        → CheckedIn false
        → k ≡ DayStatusKey.absent
        → Rule fixed k
    awaited :
        fixed ≡ none
        → IsWorkday
        → NoLeave
        → d.is_past ≡ false
        → CheckedIn false
        → k ≡ not_checked_in_yet
        → Rule fixed k
    running :
        fixed ≡ none
        → IsWorkday
        → d.is_past ≡ false
        → CheckedIn true
        → CheckedOut false
        → k ≡ in_progress
        → Rule fixed k

  pub Rule→status :
      (fixed : Option FixedStatus) (k : DayStatusKey)
      → Rule fixed k
      → (ladder ctx fixed d).status ≡ k
  unfolding ladder tracked_ladder leave_ladder worked_ladder
  Rule→status fixed k (correction s e q) = ground arith
  Rule→status fixed k (untracked e t q) = ground arith
  Rule→status fixed k (off_day_worked e t o c q) = ground arith
  Rule→status fixed k (off_weekly e t w c q) = ground arith
  Rule→status fixed k (off_holiday e t w h c q) = ground arith
  Rule→status fixed k (full_leave e w a f c q) = ground arith
  Rule→status fixed k (half_leave e w l q) = ground arith
  Rule→status fixed k (graded e w l i o q) = ground arith
  Rule→status fixed k (open_past e w l p i o q) = ground arith
  Rule→status fixed k (missed e w l p c q) = ground arith
  Rule→status fixed k (awaited e w l p c q) = ground arith
  Rule→status fixed k (running e w p i o q) = ground arith

  ladder-Rule : (fixed : Option FixedStatus) → Rule fixed (ladder ctx fixed d).status
  unfolding ladder tracked_ladder leave_ladder worked_ladder
  ladder-Rule (some s) = correction s refl refl
  ladder-Rule none = grind (
    arith, untracked, off_day_worked, off_weekly, off_holiday, full_leave, half_leave, graded,
    open_past, missed, awaited, running,
  )

-- The engine gives the day the status `k` exactly when the rules do: they cover every day, and no two
-- of them disagree.
pub compute_day_status_iff :
    (z : Zone) (i : DayStatusInput) (k : DayStatusKey)
    → ((compute_day_status z i).status ≡ k) ↔ Rule i.ctx (day_of z i) (fixed_status i.override) k
unfolding compute_day_status
compute_day_status_iff z i k = (
  λ e.
      subst (Rule i.ctx (day_of z i) (fixed_status i.override)) e
        (ladder-Rule i.ctx (day_of z i) (fixed_status i.override)),
  Rule→status i.ctx (day_of z i) (fixed_status i.override) k,
)
