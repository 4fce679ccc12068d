-- ===== src/Attendance/Leave/Split.antt =====
-- src/attendance/leave-validation.ts: the split of a request's days into those that an action may
-- still change and those that it keeps.
pub mod Laws
use fenzit_be.Prelude.{
  ℕ, Bool, true, ◌&&◌, not, Option, List, [], ◌∷◌, if◌then◌else◌, Text, text_eq, text_ltb,
}
use fenzit_be.DayStatus.Context.{is_past_office_start}
use fenzit_be.Attendance.Leave.Types.{LeaveDayState, LeaveDayRow, in_states}

pub data KeepReason : Type 0 where
  past cutoff_passed : KeepReason

pub record KeptDate : Type 0 where
  pub date : Text
  pub state : LeaveDayState
  pub reason : KeepReason

pub record SplitInput : Type 0 where
  pub today : Text
  pub now_minute : ℕ
  pub start_minute : Option ℕ
  pub source_states : List LeaveDayState

pub record SplitOutcome : Type 0 where
  pub action_dates : List Text
  pub keep_dates : List KeptDate

abbrev pub nothing_split : SplitOutcome
nothing_split = record { action_dates = []; keep_dates = [] }

-- Whether the day is in the future, or is today before the office start.
unfoldable pub is_actionable : SplitInput → Text → Bool
unfolding is_past_office_start
is_actionable input date =
    if text_ltb input.today date
    then true
    else text_eq date input.today && not (is_past_office_start input.start_minute input.now_minute)

pub kept : SplitInput → LeaveDayRow → KeptDate
kept input day = record {
  date = day.leave_date;
  state = day.state;
  reason = if text_ltb day.leave_date input.today then past else cutoff_passed;
}

-- One round of the loop, in front of what the later rounds push.
unfoldable pub split_day : SplitInput → LeaveDayRow → SplitOutcome → SplitOutcome
unfolding is_actionable kept
split_day input day rest =
    if not (in_states input.source_states day.state)
    then rest
    else if is_actionable input day.leave_date
    then record rest { action_dates = day.leave_date ∷ rest.action_dates }
    else record rest { keep_dates = kept input day ∷ rest.keep_dates }

unfoldable pub split_actionable_dates : SplitInput → List LeaveDayRow → SplitOutcome
split_actionable_dates input [] = nothing_split
split_actionable_dates input (day ∷ days) = split_day input day (split_actionable_dates input days)
