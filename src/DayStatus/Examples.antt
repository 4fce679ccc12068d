-- ===== src/DayStatus/Examples.antt =====
-- Concrete days, months and office rules.
use fenzit_be.DayStatus.OfficeRules.First.{pick_rule_for_date_iff, FirstCovering}
use fenzit_be.DayStatus.Engine.Rules.{compute_day_status_iff, Rule}
use fenzit_be.DayStatus.Context.Laws.{assemble_day_context-tracked_iff, IsAdmitted, GraceBlocks}
use fenzit_be.Calendar.{number_of, utc_day, split_on, utc_weekday}
use fenzit_be.DayStatus.Context.{
  compute_early_checkout_minutes, compute_late_minutes, compute_midpoint_minute, is_weekly_off_day,
  assemble_day_context, time_string_to_minutes, apply_enable_day_grace, iso_weekday_of,
  worked_minutes_between,
}
use fenzit_be.DayStatus.Summary.Laws.{summarise-perm, round1_exact, summarise-IsWithin, IsWithin}
use fenzit_be.DayStatus.Summary.{round1, summarise_employee_month, DayGridRow}
use fenzit_be.DayStatus.Engine.Credits.{
  missing_marker_iff, credit-le-one_day, has_missing, total_credit,
}
use fenzit_be.DayStatus.Engine.{fixed_status, grade_worked, day_of, compute_day_status}
use mathlib.Core.List.{Permᴰ}
use fenzit_be.Prelude.{
  refl, ◌&&◌, is_some, arith, ◌↔◌, not, [], ◌%◌, false, ◌∷◌, ◌≡◌, none, some, true, codes, ◌/◌, ◌≤◌,
  List, Text,
}
use fenzit_be.DayStatus.OfficeRules.{
  parse_date_range, covers, range_covers, find_covering, pick_rule_for_date, OfficeRuleRow,
}
use fenzit_be.DayStatus.Types.{
  worked_on_holiday, DayStatusKey, DayStatusInput, DayContext, DayFacts, OfficeJoinRow, Zone,
}

abbrev zone : Zone
zone = record {
  minute_of_day_in_tz = λ instant timezone. (instant / 60000) % 1440;
  date_in_tz = λ instant timezone. codes "2026-09-28";
  minute_of_day-lt = λ instant timezone. omega arith;
}

abbrev rule : OfficeRuleRow
rule = record {
  id = codes "r1";
  valid = codes "[2026-09-01,2026-10-01)";
  start_time = codes "10:00:00";
  end_time = codes "18:00:00";
  late_cutoff_minutes = 15;
  full_day_hours = 800;
  half_day_hours = 400;
}

abbrev office : OfficeJoinRow
office = record {
  office_id = codes "o1";
  office_name = codes "HQ";
  office_lat = 12;
  office_lng = 77;
  radius_m = 200;
}

abbrev facts : DayFacts
facts = record {
  enrolment_covers = true;
  setup_completed = true;
  enabled = true;
  enabled_at = some 39600000;
  enrolment_start = some (codes "2026-09-01");
  rule = some rule;
  weekly_off_days = 7 ∷ 6 ∷ [];
  holiday_id = none;
  holiday_name = none;
}

abbrev monday : Text
monday = codes "2026-09-28"

abbrev ctx : DayContext
ctx = record {
  tenant_id = codes "t1";
  employee_id = codes "e1";
  work_date = monday;
  timezone = codes "UTC";
  tracked_base = true;
  tracked = true;
  enable_day_grace_blocks = false;
  office_id = some (codes "o1");
  office_name = some (codes "HQ");
  office_lat = some 12;
  office_lng = some 77;
  radius_m = some 200;
  office_rules_id = some (codes "r1");
  start_minute = some 600;
  end_minute = some 1080;
  midpoint_minute = some 840;
  late_cutoff_minutes = some 15;
  full_day_minutes = some 48000;
  half_day_minutes = some 24000;
  is_weekly_off = false;
  holiday_id = none;
  holiday_name = none;
  is_working_day = true;
  leave_state = none;
  leave_part = none;
  leave_request_id = none;
}

-- In at 10:30, and out at 15:00 by correction.
abbrev corrected_day : DayStatusInput
corrected_day = record {
  ctx = ctx;
  day_record = some (record { checkin_at = 37800000; checkout_at = none });
  override =
      some (record { status = none; manual_checkin_at = none; manual_checkout_at = some 54000000 });
  has_unack_mocked_attempt = false;
  today = codes "2026-09-29";
}

abbrev open_day : DayStatusInput
open_day = record corrected_day { override = none }

abbrev off_day : DayStatusInput
off_day = record open_day { ctx = record ctx { is_weekly_off = true } }

engine_tests :
    ((compute_day_status zone corrected_day).status ≡ DayStatusKey.half_day)
    × ((compute_day_status zone corrected_day).late_minutes ≡ some 15)
    × ((compute_day_status zone corrected_day).early_checkout_minutes ≡ some 180)
    × ((compute_day_status zone open_day).status ≡ DayStatusKey.checkout_missing)
    × ((compute_day_status zone off_day).status ≡ worked_on_holiday)
unfolding compute_day_status day_of worked_minutes_between compute_late_minutes
    compute_early_checkout_minutes grade_worked
engine_tests = (refl, refl, refl, refl, refl)

compute_day_status_iff_example :
    ((compute_day_status zone open_day).status ≡ DayStatusKey.checkout_missing)
    ↔ Rule open_day.ctx
        (day_of zone open_day)
        (fixed_status open_day.override)
        DayStatusKey.checkout_missing
compute_day_status_iff_example = compute_day_status_iff zone open_day DayStatusKey.checkout_missing

credit-le-one_day_example : total_credit (compute_day_status zone corrected_day) ≤ 2
credit-le-one_day_example = credit-le-one_day zone corrected_day

missing_marker_iff_example : has_missing (compute_day_status zone open_day) ≡ (
    not (is_some (fixed_status open_day.override))
    && open_day.ctx.tracked
    && (day_of zone open_day).is_past
    && is_some (day_of zone open_day).instants.checkin
    && not (is_some (day_of zone open_day).instants.checkout))
missing_marker_iff_example = missing_marker_iff zone open_day

abbrev row : DayGridRow
row = record {
  employee_id = codes "e1";
  work_date = monday;
  today = codes "2026-09-29";
  ctx = ctx;
  day_record = corrected_day.day_record;
  override = corrected_day.override;
  has_unack_mocked_attempt = false;
}

abbrev open_row : DayGridRow
open_row = record row { override = none }

abbrev month : List DayGridRow
month = row ∷ open_row ∷ []

summarise-perm_example :
    summarise_employee_month zone (row ∷ open_row ∷ [])
    ≡ summarise_employee_month zone (open_row ∷ row ∷ [])
summarise-perm_example = summarise-perm zone (∣ Permᴰ.swap refl refl ∣₁)

summarise-IsWithin_example : IsWithin 2 (summarise_employee_month zone month)
summarise-IsWithin_example = summarise-IsWithin zone month

round1_exact_example : round1 7 ≡ 7
round1_exact_example = round1_exact 7

abbrev assembled : DayContext
assembled = record ctx { tracked = false; enable_day_grace_blocks = true }

assemble_day_context-tracked_iff_example :
    (assembled.tracked ≡ true)
    ↔ (IsAdmitted facts × (¬ (GraceBlocks zone facts monday (codes "UTC") false)))
unfolding assemble_day_context apply_enable_day_grace time_string_to_minutes split_on number_of
    iso_weekday_of is_weekly_off_day utc_weekday utc_day compute_midpoint_minute
assemble_day_context-tracked_iff_example =
    assemble_day_context-tracked_iff zone (codes "t1") (codes "e1") monday (codes "UTC") facts
      (some office) false none {ctx = assembled} refl

-- A rule that ended, before the one that covers the day.
abbrev ended : OfficeRuleRow
ended = record rule { id = codes "r0"; valid = codes "[2026-01-01,2026-09-01)" }

pick_test : pick_rule_for_date (ended ∷ rule ∷ []) monday ≡ some (some rule)
unfolding pick_rule_for_date find_covering range_covers covers parse_date_range
pick_test = refl

pick_rule_for_date_iff_example :
    (pick_rule_for_date (ended ∷ rule ∷ []) monday ≡ some (some rule))
    ↔ FirstCovering monday (ended ∷ rule ∷ []) rule
pick_rule_for_date_iff_example = pick_rule_for_date_iff (ended ∷ rule ∷ []) monday rule
