-- ===== src/DayStatus/Engine.antt =====
-- src/common/day-status/day-status.model.ts: `computeDayStatus`, first match wins. The locals that
-- its rules share are the record `Day`; `ladder` is the chain of early returns, and each result has
-- a function of its own.
pub mod Rules
pub mod Credits
use fenzit_be.Prelude.{
  ℕ, ◌*◌, Bool, true, false, not, ◌&&◌, ◌||◌, Option, none, some, List, [], ◌∷◌, ◌++◌, ltb, leb,
  if◌then◌else◌, is_some, get_or, text_ltb,
}
use fenzit_be.DayStatus.Types
use fenzit_be.DayStatus.Types.{
  Zone, DayContext, EngineRecordRow, EngineOverrideRow, DayStatusInput, DayStatusOutcome,
  DayStatusKey, DayMarkerKey, AttendanceSource, gps, manual, LeaveState, pending, approved,
  LeavePart, full_day, FixedStatus, not_tracked, not_checked_in_yet, in_progress, weekly_off,
  holiday, worked_on_holiday, leave, half_day_leave, corrected, leave_pending,
  fake_location_attempt,
}
use fenzit_be.DayStatus.Context.{
  compute_late_minutes, compute_early_checkout_minutes, worked_minutes_between,
}

pub record Instants : Type 0 where
  pub checkin : Option ℕ
  pub checkout : Option ℕ
  pub checkin_source : Option AttendanceSource
  pub checkout_source : Option AttendanceSource

pub record Metrics : Type 0 where
  pub late_minutes : Option ℕ
  pub is_late : Bool
  pub early_checkout_minutes : Option ℕ
  pub early_checkout : Bool

abbrev pub null_metrics : Metrics
null_metrics = record {
  late_minutes = none;
  is_late = false;
  early_checkout_minutes = none;
  early_checkout = false;
}

abbrev record_checkin : Option EngineRecordRow → Option ℕ
record_checkin none = none
record_checkin (some r) = some r.checkin_at

abbrev record_checkout : Option EngineRecordRow → Option ℕ
record_checkout none = none
record_checkout (some r) = r.checkout_at

abbrev manual_checkin : Option EngineOverrideRow → Option ℕ
manual_checkin none = none
manual_checkin (some o) = o.manual_checkin_at

abbrev manual_checkout : Option EngineOverrideRow → Option ℕ
manual_checkout none = none
manual_checkout (some o) = o.manual_checkout_at

-- The corrected instant if there is one, else the record's.
abbrev substituted : Option ℕ → Option ℕ → Option ℕ
substituted (some given) recorded = some given
substituted none recorded = recorded

abbrev source_of : Option ℕ → Option ℕ → Option AttendanceSource
source_of (some given) recorded = some manual
source_of none (some recorded) = some gps
source_of none none = none

unfoldable pub effective_instants : Option EngineRecordRow → Option EngineOverrideRow → Instants
effective_instants row override = record {
  checkin = substituted (manual_checkin override) (record_checkin row);
  checkout = substituted (manual_checkout override) (record_checkout row);
  checkin_source = source_of (manual_checkin override) (record_checkin row);
  checkout_source = source_of (manual_checkout override) (record_checkout row);
}

-- In half days.
unfoldable pub days_worked_for_fixed : FixedStatus → ℕ
days_worked_for_fixed FixedStatus.present = 2
days_worked_for_fixed FixedStatus.half_day = 1
days_worked_for_fixed FixedStatus.absent = 0

-- `worked >= threshold`: the worked minutes are whole, the threshold is in hundredths.
abbrev pub reaches : ℕ → ℕ → Bool
reaches worked threshold = leb threshold (worked * 100)

abbrev half_reached : ℕ → Option ℕ → Bool
half_reached worked none = true
half_reached worked (some half) = reaches worked half

unfoldable pub grade_worked : ℕ → Option ℕ → Option ℕ → FixedStatus
grade_worked worked none half = if ltb 0 worked then FixedStatus.present else FixedStatus.absent
grade_worked worked (some full) half =
    if reaches worked full
    then FixedStatus.present
    else if half_reached worked half
    then FixedStatus.half_day
    else FixedStatus.absent

-- In half days.
unfoldable pub worked_on_holiday_grade : Option ℕ → Option ℕ → Option ℕ → ℕ
worked_on_holiday_grade none full half = 0
worked_on_holiday_grade (some worked) none half = if ltb 0 worked then 2 else 0
worked_on_holiday_grade (some worked) (some full) half =
    if reaches worked full then 2 else if half_reached worked half then 1 else 0

abbrev pub key_of : FixedStatus → DayStatusKey
key_of FixedStatus.present = DayStatusKey.present
key_of FixedStatus.half_day = DayStatusKey.half_day
key_of FixedStatus.absent = DayStatusKey.absent

abbrev pub is_approved : Option LeaveState → Bool
is_approved (some approved) = true
is_approved _ = false

abbrev pub is_pending : Option LeaveState → Bool
is_pending (some pending) = true
is_pending _ = false

abbrev pub is_full_day : Option LeavePart → Bool
is_full_day (some full_day) = true
is_full_day _ = false

pub record Day : Type 0 where
  pub is_past : Bool
  pub markers : List DayMarkerKey
  pub instants : Instants
  pub working_minutes : Option ℕ
  pub metrics : Metrics

abbrev marker_if : Bool → DayMarkerKey → List DayMarkerKey
marker_if b m = if b then m ∷ [] else []

unfoldable pub day_markers : DayStatusInput → List DayMarkerKey
day_markers input =
    marker_if input.has_unack_mocked_attempt fake_location_attempt
    ++ (marker_if (is_some input.override) corrected
        ++ marker_if (is_pending input.ctx.leave_state) leave_pending)

abbrev minutes_between : Option ℕ → Option ℕ → Option ℕ
minutes_between (some checkin) (some checkout) = some (worked_minutes_between checkin checkout)
minutes_between _ _ = none

module _ (z : Zone) (ctx : DayContext) where
  abbrev early_of : Option ℕ → Option ℕ → Option ℕ
  early_of (some checkout) (some end) =
      compute_early_checkout_minutes (z.minute_of_day_in_tz checkout ctx.timezone) end
  early_of _ _ = none

  metrics_from : Option ℕ → Option ℕ → Option ℕ → Metrics
  metrics_from (some checkin) checkout (some start) =
      let late =
        compute_late_minutes (z.minute_of_day_in_tz checkin ctx.timezone) start
          (get_or ctx.late_cutoff_minutes 0) in
      let early = early_of checkout ctx.end_minute in
      record {
        late_minutes = some late;
        is_late = ltb 0 late;
        early_checkout_minutes = early;
        early_checkout = is_some early;
      }
  metrics_from _ checkout start = null_metrics

unfoldable pub day_of : Zone → DayStatusInput → Day
unfolding effective_instants day_markers metrics_from
day_of z input =
    let instants = effective_instants input.day_record input.override in
    record {
      is_past = text_ltb input.ctx.work_date input.today;
      markers = day_markers input;
      instants = instants;
      working_minutes = minutes_between instants.checkin instants.checkout;
      metrics = metrics_from z input.ctx instants.checkin instants.checkout input.ctx.start_minute;
    }

-- What an early return builds: the credits are `daysWorked`, `leaveCredit`, `workedOnHolidayCredit`.
abbrev pub outcome :
    Day
    → DayStatusKey
    → Metrics
    → Option ℕ
    → (days leave_days holiday_days : ℕ) → List DayMarkerKey
    → DayStatusOutcome
outcome d status metrics worked days leave_days holiday_days markers = record {
  status = status;
  late_minutes = metrics.late_minutes;
  is_late = metrics.is_late;
  early_checkout_minutes = metrics.early_checkout_minutes;
  early_checkout = metrics.early_checkout;
  worked_minutes = worked;
  days_worked = days;
  leave_credit = leave_days;
  worked_on_holiday_credit = holiday_days;
  checkin_source = d.instants.checkin_source;
  checkout_source = d.instants.checkout_source;
  markers = markers;
}

abbrev with_missing : Bool → List DayMarkerKey → List DayMarkerKey
with_missing b markers = if b then markers ++ DayMarkerKey.checkout_missing ∷ [] else markers

-- The half day was earned: the shift is closed and reaches the half-day threshold.
abbrev pub earned_half : Option ℕ → Option ℕ → Bool
earned_half (some worked) (some half) = reaches worked half
earned_half _ _ = false

-- Rules 7 to 10.
pub worked_ladder : DayContext → Day → DayStatusOutcome
worked_ladder ctx d =
    let checked_in = is_some d.instants.checkin in
    if checked_in && is_some d.instants.checkout
    then (let grade =
          grade_worked (get_or d.working_minutes 0) ctx.full_day_minutes ctx.half_day_minutes in
        outcome d (key_of grade) d.metrics d.working_minutes (days_worked_for_fixed grade) 0 0
          d.markers)
    else if d.is_past && checked_in
    then outcome d DayStatusKey.checkout_missing d.metrics none 0 0 0 (with_missing true d.markers)
    else if d.is_past
    then outcome d DayStatusKey.absent null_metrics none 0 0 0 d.markers
    else if not checked_in
    then outcome d not_checked_in_yet null_metrics none 0 0 0 d.markers
    else outcome d in_progress d.metrics none 0 0 0 d.markers

-- Rules 5 and 6, then the rest.
pub leave_ladder : DayContext → Day → DayStatusOutcome
leave_ladder ctx d =
    let checked_in = is_some d.instants.checkin in
    let still_open = checked_in && not (is_some d.instants.checkout) in
    let on_leave = is_approved ctx.leave_state in
    if on_leave && is_full_day ctx.leave_part && not checked_in
    then outcome d leave null_metrics none 0 2 0 d.markers
    else if on_leave && not (is_full_day ctx.leave_part) && not (still_open && not d.is_past)
    then outcome d half_day_leave d.metrics d.working_minutes
        (if earned_half d.working_minutes ctx.half_day_minutes && is_some d.instants.checkout
          then 1
          else 0)
        1 0 (with_missing (still_open && d.is_past) d.markers)
    else worked_ladder ctx d

-- Rules 2 to 4, then the rest.
pub tracked_ladder : DayContext → Day → DayStatusOutcome
tracked_ladder ctx d =
    let checked_in = is_some d.instants.checkin in
    if not ctx.tracked
    then outcome d not_tracked null_metrics d.working_minutes 0 0 0 d.markers
    else if (ctx.is_weekly_off || is_some ctx.holiday_id) && checked_in
    then outcome d worked_on_holiday null_metrics d.working_minutes 0 0
        (worked_on_holiday_grade d.working_minutes ctx.full_day_minutes ctx.half_day_minutes)
        (with_missing (d.is_past && not (is_some d.instants.checkout)) d.markers)
    else if ctx.is_weekly_off
    then outcome d weekly_off null_metrics none 0 0 0 d.markers
    else if is_some ctx.holiday_id
    then outcome d holiday null_metrics none 0 0 0 d.markers
    else leave_ladder ctx d

-- Rule 1, then the rest.
pub ladder : DayContext → Option FixedStatus → Day → DayStatusOutcome
ladder ctx (some fixed) d =
    outcome d (key_of fixed) d.metrics d.working_minutes (days_worked_for_fixed fixed) 0 0 d.markers
ladder ctx none d = tracked_ladder ctx d

abbrev pub fixed_status : Option EngineOverrideRow → Option FixedStatus
fixed_status none = none
fixed_status (some o) = o.status

unfoldable pub compute_day_status : Zone → DayStatusInput → DayStatusOutcome
unfolding ladder tracked_ladder leave_ladder worked_ladder
compute_day_status z input = ladder input.ctx (fixed_status input.override) (day_of z input)
