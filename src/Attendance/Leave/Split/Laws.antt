-- ===== src/Attendance/Leave/Split/Laws.antt =====
-- The split of a request's days is a partition of its source days by date.
use fenzit_be.DayStatus.Context.{is_past_office_start}
use fenzit_be.Attendance.Leave.Types.{in_states, LeaveDayRow}
use fenzit_be.Prelude.{
  refl, text_eq_iff, [], ◌⊎◌, ◌∷◌, text_ltb, ◌↔◌, All, arith, true, ◌+◌, false, length, ◌≡◌, keep,
  Text, List,
}
use fenzit_be.Attendance.Leave.Split.{
  past, split_day, KeptDate, is_actionable, split_actionable_dates, kept, SplitInput,
}

abbrev pub source_days : SplitInput → List LeaveDayRow → List LeaveDayRow
source_days input days = keep (λ (r : LeaveDayRow). in_states input.source_states r.state) days

abbrev pub IsKept : SplitInput → KeptDate → Type 0
IsKept input k =
    (is_actionable input k.date ≡ false)
    × ((k.reason ≡ past) ↔ (text_ltb k.date input.today ≡ true))

kept-IsKept :
    (input : SplitInput) (r : LeaveDayRow)
    → is_actionable input r.leave_date ≡ false
    → IsKept input (kept input r)
unfolding kept
kept-IsKept input r h = (h, (λ e. ground arith, λ e. ground arith))

-- The days in the source states are parted: the action dates are future dates, or today before the
-- office start; every kept date is none of these, and its reason is `past` exactly when it is before
-- today.
pub split_partition :
    (input : SplitInput) (days : List LeaveDayRow)
    → (length (split_actionable_dates input days).action_dates
          + length (split_actionable_dates input days).keep_dates
        ≡ length (source_days input days))
      × All (λ d. is_actionable input d ≡ true) (split_actionable_dates input days).action_dates
      × All (IsKept input) (split_actionable_dates input days).keep_dates
unfolding split_actionable_dates split_day
split_partition input [] = (refl, tt, tt)
split_partition input (r ∷ rows) =
    let ih = split_partition input rows in ground (arith, ih.0, ih.1, ih.2, kept-IsKept input r)

-- A date that may be acted on is not in the past; a future date always may be, and today may be while
-- the office start, if there is one, has not come.
pub is_actionable_iff :
    (input : SplitInput) (date : Text)
    → (is_actionable input date ≡ true) ↔ (
        (text_ltb input.today date ≡ true)
        ⊎ ((date ≡ input.today)
            × (is_past_office_start input.start_minute input.now_minute ≡ false)))
unfolding is_actionable
is_actionable_iff input date = (
  λ h. ground (arith, text_eq_iff date input.today),
  λ h. ground (arith, text_eq_iff date input.today),
)
