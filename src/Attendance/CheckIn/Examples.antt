-- ===== src/Attendance/CheckIn/Examples.antt =====
-- One office, one employee, and the calls of a day.
use fenzit_be.Attendance.CheckIn.Once.{check_in-once}
use fenzit_be.Attendance.CheckIn.Replay.{refusal-repeats, RefusesAs}
use fenzit_be.Calendar.{utc_day, utc_weekday, number_of, split_on}
use fenzit_be.DayStatus.Context.{
  compute_midpoint_minute, is_weekly_off_day, iso_weekday_of, time_string_to_minutes,
  apply_enable_day_grace, assemble_day_context,
}
use fenzit_be.Attendance.CheckIn.Safety.{run-Untouched, Untouched}
use fenzit_be.Attendance.CheckIn.Gate.Block.{ladder-blocks}
use fenzit_be.Attendance.CheckIn.Gate.Accept.{check_in-accepted, answered}
use fenzit_be.Attendance.CheckIn.Keys.{run-used}
use fenzit_be.Attendance.Errors.{HttpException, returned}
use fenzit_be.Attendance.CheckIn.Model.{
  metrics_for, no_extras, rate_limited, outcome_to_exception, too_far, check_in,
}
use fenzit_be.Attendance.CheckIn.Gate.{run-Passed, is_thrown, Passed}
use fenzit_be.Attendance.CheckIn.Service.{
  read_back, write_check_in, write_record, accept, verdict_of, conflict_of, locate, decide,
  first_call, transact, reject_with_ladder, run, leave_gate_active, pin_of, Pin,
}
use fenzit_be.Attendance.CheckIn.Answers.{
  record_to_response, ctx_of, answer_blocked, checked_in, Call,
}
use fenzit_be.Attendance.Leave.Types.{LeaveDb}
use fenzit_be.Attendance.CheckIn.Tables.{
  insert_record, find_attempt_by_idempotency_key, insert_attempt, AttemptRow, to_attempt_location,
  find_record_by_employee_date, count_counted_in_window, read_active_blocked_until, AttemptLocation,
  CheckDb, Site,
}
use fenzit_be.Attendance.DayContextRead.{
  parse_range_start, find_active_leave_for_date, build_day_context, DayReads,
}
use fenzit_be.DayStatus.OfficeRules.{
  covers, parse_date_range, range_covers, find_covering, pick_weekly_off_days, pick_rule_for_date,
  OfficeRuleRow,
}
use fenzit_be.DayStatus.Types.{Double, DayContext, OfficeJoinRow, Zone}
use fenzit_be.Prelude.{
  false, ltb, ◌∷◌, none, arith, ◌+◌, true, ◌%◌, Option, ◌≡◌, [], ◌-◌, some, codes, ◌/◌, ℕ, Text,
  refl,
}

abbrev zone : Zone
zone = record {
  minute_of_day_in_tz = λ instant timezone. (instant / 60000) % 1440;
  date_in_tz = λ instant timezone. codes "2026-09-28";
  minute_of_day-lt = λ instant timezone. omega arith;
}

abbrev rule : OfficeRuleRow
rule = record {
  id = codes "r1";
  valid = codes "[2026-09-01,)";
  start_time = codes "10:00:00";
  end_time = codes "18:00:00";
  late_cutoff_minutes = 15;
  full_day_hours = 800;
  half_day_hours = 400;
}

abbrev office : OfficeJoinRow
office = record {
  office_id = codes "o1";
  office_name = codes "HQ";
  office_lat = 12;
  office_lng = 77;
  radius_m = 200;
}

abbrev reads : DayReads
reads = record {
  timezone = some (codes "UTC");
  settings = some (record { enabled = true; setup_completed_at = some 0 });
  enrolment = some (record { valid = codes "[2026-09-01,)"; enabled_at = 0 });
  assignment = some office;
  overrides = [];
  defaults = [];
  holiday = none;
  rules_of = λ id. rule ∷ [];
}

-- At 10:30. Distances are whole metres along the latitude.
abbrev site : Site
site = record {
  zone = zone;
  haversine_distance_m = λ a b c d. (a - c) + (c - a);
  exceeds = λ x n. ltb n x;
  rounded = λ x. x;
  now = 37800000;
  app_now = 37800000;
  month_in_tz = λ instant timezone. codes "2026-09";
  today = codes "2026-09-28";
  day_reads = λ t e d. reads;
  admin_ids = λ t. codes "w1" ∷ [];
}

abbrev later_site : Site
later_site = record site { now = 38100000; app_now = 38100000 }

abbrev no_leave : LeaveDb
no_leave = record { requests = []; days = []; events = []; notifications = [] }

abbrev empty_db : CheckDb
empty_db = record { attempts = []; day_records = []; leave = no_leave }

abbrev call : Text → Double → Call
call key latitude = record {
  tenant_id = codes "t1";
  employee_id = codes "e1";
  request_id = key;
  kind = check_in;
  dto = record {
    latitude = latitude;
    longitude = 77;
    accuracy_m = 20;
    mocked = some false;
    provider = some (codes " gps ");
    fix_age_ms = 1000;
    confirm_leave_cancel = false;
  };
}

-- At the office, and a kilometre away.
abbrev near_call : Call
near_call = call (codes "k1") 12

abbrev far_call : Text → Call
far_call key = call key 1012

abbrev ctx : DayContext
ctx = record {
  tenant_id = codes "t1";
  employee_id = codes "e1";
  work_date = codes "2026-09-28";
  timezone = codes "UTC";
  tracked_base = true;
  tracked = true;
  enable_day_grace_blocks = false;
  office_id = some (codes "o1");
  office_name = some (codes "HQ");
  office_lat = some 12;
  office_lng = some 77;
  radius_m = some 200;
  office_rules_id = some (codes "r1");
  start_minute = some 600;
  end_minute = some 1080;
  midpoint_minute = some 840;
  late_cutoff_minutes = some 15;
  full_day_minutes = some 48000;
  half_day_minutes = some 24000;
  is_weekly_off = false;
  holiday_id = none;
  holiday_name = none;
  is_working_day = true;
  leave_state = none;
  leave_part = none;
  leave_request_id = none;
}

abbrev pin : Pin
pin = record { office_id = codes "o1"; office_lat = 12; office_lng = 77; radius_m = 200 }

ctx_test : ctx_of site empty_db near_call site.today ≡ returned ctx
unfolding build_day_context find_active_leave_for_date parse_range_start pick_rule_for_date
    pick_weekly_off_days find_covering range_covers parse_date_range covers assemble_day_context
    apply_enable_day_grace time_string_to_minutes split_on number_of iso_weekday_of
    is_weekly_off_day utc_weekday utc_day compute_midpoint_minute
ctx_test = refl

passed : Passed site empty_db near_call ctx pin
unfolding pin_of read_active_blocked_until leave_gate_active find_record_by_employee_date
passed = record {
  context = ctx_test;
  office = refl;
  unblocked = refl;
  tracked = refl;
  fresh = omega arith;
  accurate = refl;
  near = refl;
  genuine = refl;
  confirmed = λ h. cc;
  first_in = λ h. refl;
  in_before_out = λ h. cc;
  still_open = λ h e. cc;
}

check_in-accepted_example :
    (run site empty_db near_call).0 ≡ returned (checked_in (answered site empty_db near_call ctx))
unfolding leave_gate_active
check_in-accepted_example = check_in-accepted site empty_db near_call ctx pin passed refl refl refl

run-Passed_example : (c : DayContext) × (p : Pin) × Passed site empty_db near_call c p
run-Passed_example =
    run-Passed site empty_db near_call {r = checked_in (answered site empty_db near_call ctx)}
      {db' = (run site empty_db near_call).1} refl
      (λ i. (check_in-accepted_example i, (run site empty_db near_call).1))

-- Five rejected calls of one minute.
abbrev location : AttemptLocation
location = to_attempt_location (far_call []).dto (some 200) (some 1000)

abbrev rejected_row : ℕ → Text → Option ℕ → AttemptRow
rejected_row id key blocked_until = record {
  id = id;
  tenant_id = codes "t1";
  employee_id = codes "e1";
  request_id = key;
  kind = check_in;
  outcome = too_far;
  location = location;
  blocked_until = blocked_until;
  attempted_at = 37790000;
}

abbrev four_db : CheckDb
four_db = record empty_db {
  attempts =
      rejected_row 0 (codes "a") none
      ∷ rejected_row 1 (codes "b") none
      ∷ rejected_row 2 (codes "c") none
      ∷ rejected_row 3 (codes "d") none
      ∷ [];
}

abbrev blocked_db : CheckDb
blocked_db = record empty_db { attempts = rejected_row 0 (codes "a") (some 38000000) ∷ [] }

ladder-blocks_example :
    is_thrown 429
      (run later_site
        (reject_with_ladder site four_db (far_call (codes "e")) too_far ctx location).1
        near_call).0
    ≡ true
unfolding count_counted_in_window reject_with_ladder insert_attempt
ladder-blocks_example =
    ladder-blocks site four_db (far_call (codes "e")) too_far ctx location later_site near_call refl
      (omega arith) refl refl (omega arith) refl

run-used_example : (run later_site four_db (far_call (codes "a"))).1 ≡ four_db
run-used_example = run-used later_site four_db (far_call (codes "a")) refl

-- The block's 429 leaves the records and the leave alone.
run-Untouched_example : Untouched blocked_db (run site blocked_db near_call).1
unfolding run transact first_call answer_blocked insert_attempt read_active_blocked_until
    find_attempt_by_idempotency_key
run-Untouched_example =
    run-Untouched site blocked_db near_call
      {e = outcome_to_exception rate_limited (record no_extras { retry_after_seconds = some 200 })}
      {db' = (run site blocked_db near_call).1} refl

abbrev too_far_answer : HttpException
too_far_answer =
    outcome_to_exception too_far (record no_extras { distance_m = some 1000; radius_m = some 200 })

abbrev once_db : CheckDb
once_db = (run site empty_db (far_call (codes "k2"))).1

refusal-repeats_example :
    RefusesAs too_far_answer (run later_site once_db (far_call (codes "k2"))).0
unfolding run transact first_call decide locate reject_with_ladder insert_attempt
    read_active_blocked_until find_attempt_by_idempotency_key find_record_by_employee_date
    build_day_context find_active_leave_for_date parse_range_start pick_rule_for_date
    pick_weekly_off_days find_covering range_covers parse_date_range covers assemble_day_context
    apply_enable_day_grace time_string_to_minutes split_on number_of iso_weekday_of
    is_weekly_off_day utc_weekday utc_day compute_midpoint_minute conflict_of leave_gate_active
    pin_of verdict_of to_attempt_location
refusal-repeats_example =
    refusal-repeats site later_site empty_db (far_call (codes "k2")) {e = too_far_answer}
      {db' = once_db} refl refl

abbrev in_db : CheckDb
in_db = (run site empty_db near_call).1

check_in-once_example : is_thrown 409 (run later_site in_db (call (codes "k9") 12)).0 ≡ true
unfolding run transact first_call decide locate reject_with_ladder insert_attempt accept
    write_record write_check_in insert_record read_back record_to_response metrics_for
    read_active_blocked_until find_attempt_by_idempotency_key find_record_by_employee_date
    build_day_context find_active_leave_for_date parse_range_start pick_rule_for_date
    pick_weekly_off_days find_covering range_covers parse_date_range covers assemble_day_context
    apply_enable_day_grace time_string_to_minutes split_on number_of iso_weekday_of
    is_weekly_off_day utc_weekday utc_day compute_midpoint_minute conflict_of leave_gate_active
    pin_of verdict_of to_attempt_location
check_in-once_example =
    check_in-once site later_site empty_db near_call (call (codes "k9") 12) ctx
      {r = checked_in (answered site empty_db near_call ctx)} {db' = in_db} refl
      (λ i. (check_in-accepted_example i, in_db)) refl refl refl refl refl refl refl
