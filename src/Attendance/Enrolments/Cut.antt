-- ===== src/Attendance/Enrolments/Cut.antt =====
-- The reference for one change of src/attendance/enrolments.service.ts: every range of the employee is
-- cut at the date by itself, and the plan with its one clip does the same to an exclusive table.
use fenzit_be.Attendance.Enrolments.Plan.{is_end_text, is_date_text}
use fenzit_be.Attendance.Enrolments.Tables.{is_of, RangeRow}
use fenzit_be.DayStatus.OfficeRules.{before_end, DateRange}
use fenzit_be.Prelude.{
  all_of-In, ◌∙◌, inr, inl, here, none, [], there, some, text_eq_sym, text_leb, ◌∷◌, ◌⊎◌, all_of,
  arith, ◌&&◌, text_eq, false, keep, In, ◌≡◌, true, ◌||◌, Option, map, not, if◌then◌else◌, Bool,
  List, Text, refl,
}

abbrev pub cut_end : Text → Option Text → Option Text
cut_end from end = if before_end from end then some from else end

-- What is left of a range before a date.
abbrev pub cut_range : Text → DateRange → DateRange
cut_range from range = record range { end = cut_end from range.end }

abbrev pub cut_row : (employee_id from : Text) → RangeRow → RangeRow
cut_row employee_id from r =
    if is_of employee_id r then record r { valid = cut_range from r.valid } else r

abbrev pub is_before : (employee_id from : Text) → RangeRow → Bool
is_before employee_id from r = not (is_of employee_id r && text_leb from r.valid.start)

-- The part of every range of the employee that lies before a date; the other employees' ranges.
unfoldable pub cut_rows : (employee_id from : Text) → List RangeRow → List RangeRow
cut_rows employee_id from rows =
    map (cut_row employee_id from) (keep (is_before employee_id from) rows)

abbrev pub ends_by : Text → Option Text → Bool
ends_by date none = false
ends_by date (some e) = text_leb e date

abbrev pub is_apart : DateRange → DateRange → Bool
is_apart r s = ends_by s.start r.end || ends_by r.start s.end

-- The two constraints of the tables on two rows: the primary key, and no overlap of an employee's ranges.
abbrev pub is_separate : RangeRow → RangeRow → Bool
is_separate r s =
    not (text_eq r.id s.id)
    && (not (text_eq r.employee_id s.employee_id) || is_apart r.valid s.valid)

abbrev pub is_date_range : DateRange → Bool
is_date_range r = is_date_text r.start && is_end_text r.end

-- A table that the database admits: its dates are dates, its keys differ, and no ranges overlap.
unfoldable pub is_exclusive : List RangeRow → Bool
is_exclusive [] = true
is_exclusive (r ∷ rows) =
    is_date_range r.valid && (all_of (is_separate r) rows && is_exclusive rows)

pub is_apart_sym : (r s : DateRange) → is_apart r s ≡ is_apart s r
is_apart_sym r s = ground arith

pub is_separate_sym : (r s : RangeRow) → is_separate r s ≡ is_separate s r
is_separate_sym r s = ground (
  arith,
  text_eq_sym r.id s.id,
  text_eq_sym r.employee_id s.employee_id,
  is_apart_sym r.valid s.valid,
)

-- Two rows of such a table are the same row or are separate.
pub is_exclusive-In :
    (rows : List RangeRow) {r s : RangeRow}
    → is_exclusive rows ≡ true
    → In r rows
    → In s rows
    → (r ≡ s) ⊎ (is_separate r s ≡ true)
unfolding is_exclusive
is_exclusive-In [] h m n = elim m [ ]
is_exclusive-In (x ∷ rows) h here here = inl refl
is_exclusive-In (x ∷ rows) {s = s} h here (there n) =
    inr (all_of-In (is_separate x) n (ground arith))
is_exclusive-In (x ∷ rows) {r} h (there m) here =
    inr (is_separate_sym r x ∙ all_of-In (is_separate x) m (ground arith))
is_exclusive-In (x ∷ rows) h (there m) (there n) = is_exclusive-In rows (ground arith) m n
