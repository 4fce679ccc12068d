-- ===== src/Attendance/Enrolments/Coverage.antt =====
-- The promise of a change over dated ranges: what a table says of the dates before the change stays, and
-- from the date on it says what the change says. A date is covered for an employee by a row whose office
-- passes a test.
use fenzit_be.Attendance.Enrolments.Equivalence.{change_rows-cut_and_insert, cut_and_insert}
use fenzit_be.Attendance.Enrolments.Cut.{is_exclusive, cut_row, cut_end, cut_rows, is_before}
use fenzit_be.Attendance.Enrolments.Tables.{
  insert_enrolment, insert_assignment, Server, is_of, RangeRow,
}
use fenzit_be.DayStatus.OfficeRules.{before_end, covers}
use fenzit_be.Attendance.Enrolments.Service.{change_rows, insert_step, Change}
use fenzit_be.Prelude.{
  ◌∙◌, ◌||◌, ◌++◌, text_eq_common, text_eq_sym, text_eq→eq, inr, [], inl, text_ltb_asym, ◌∷◌,
  Bool-cases, text_leb_trans, text_ltb_trans, arith, some, true, ◌≡◌, text_eq, false, ◌&&◌,
  text_leb, if◌then◌else◌, none, exists, Bool, Option, List, Text,
}

abbrev pub covers_for : Text → (Option Text → Bool) → Text → RangeRow → Bool
covers_for employee_id office date r =
    is_of employee_id r && (office r.office_id && covers r.valid date)

-- The abstract view of a table.
unfoldable pub is_covered :
    List RangeRow → (employee_id : Text) (office : Option Text → Bool) (date : Text) → Bool
is_covered rows employee_id office date = exists (covers_for employee_id office date) rows

-- Whether the row that a change inserts passes the test.
abbrev office_passes : Option Text → Bool → (Option Text → Bool) → Bool
office_passes office_id false office = office none
office_passes none true office = false
office_passes (some o) true office = office (some o)

abbrev pub covered_after :
    Change
    → Bool
    → List RangeRow
    → (employee_id : Text) (office : Option Text → Bool) (date : Text) → Bool
covered_after c is_assignment rows employee_id office date =
    if text_eq employee_id c.employee_id && text_leb c.effective_from date
    then c.insert && office_passes c.office_id is_assignment office
    else is_covered rows employee_id office date

before_end-cut_before :
    (from date : Text) (end : Option Text)
    → text_leb from date ≡ false
    → before_end date (cut_end from end) ≡ before_end date end
before_end-cut_before from date none h = ground arith
before_end-cut_before from date (some e) h = ground (arith, text_ltb_trans date from e)

before_end-cut_from :
    (from date : Text) (end : Option Text)
    → text_leb from date ≡ true
    → before_end date (cut_end from end) ≡ false
before_end-cut_from from date none h = ground arith
before_end-cut_from from date (some e) h =
    ground (arith, text_leb_trans e from date, text_ltb_asym from e)

text_eq-through : (a c e : Text) → text_eq a c ≡ true → text_eq a e ≡ text_eq e c
text_eq-through a c e h = rw (text_eq→eq a c h) (text_eq_sym c e)

-- A row of the employee says nothing any more from the date on, and before it what it said.
covers_for-cut :
    (c e from date : Text) (office : Option Text → Bool) (r : RangeRow)
    → (is_before c from r && covers_for e office date (cut_row c from r))
      ≡ (if text_eq e c && text_leb from date then false else covers_for e office date r)
unfolding covers
covers_for-cut c e from date office r = elim (Bool-cases (is_of c r)) [
  | inl p ↦ rw p (
      ground (
        arith,
        text_eq-through r.employee_id c e p,
        text_leb_trans from r.valid.start date,
        before_end-cut_before from date r.valid.end,
        before_end-cut_from from date r.valid.end,
      ))
  | inr p ↦ rw p (
      ground (
        arith,
        text_eq_common e r.employee_id c,
        text_eq_sym r.employee_id e,
        text_eq→eq e c,
        text_eq→eq r.employee_id e,
      ))
]

is_covered-cut_rows :
    (c e from date : Text) (office : Option Text → Bool) (rows : List RangeRow)
    → is_covered (cut_rows c from rows) e office date
      ≡ (if text_eq e c && text_leb from date then false else is_covered rows e office date)
unfolding is_covered cut_rows
is_covered-cut_rows c e from date office [] = ground arith
is_covered-cut_rows c e from date office (r ∷ rows) =
    ground
      (arith, covers_for-cut c e from date office r, is_covered-cut_rows c e from date office rows)

is_covered-append :
    (rows : List RangeRow) (new : RangeRow) (e : Text) (office : Option Text → Bool) (date : Text)
    → is_covered (rows ++ (new ∷ [])) e office date
      ≡ (is_covered rows e office date || covers_for e office date new)
unfolding is_covered
is_covered-append [] new e office date = ground arith
is_covered-append (r ∷ rows) new e office date =
    ground (arith, is_covered-append rows new e office date)

insert_step-is_covered :
    (server : Server) (tenant_id c from : Text) (office_id : Option Text)
    (insert is_assignment : Bool) (rows : List RangeRow) (e : Text) (office : Option Text → Bool)
    (date : Text)
    → is_covered
        (insert_step server tenant_id c office_id
          (if insert then some from else none)
          is_assignment
          rows)
        e
        office
        date
      ≡ (is_covered rows e office date
          || (text_eq e c && text_leb from date)
            && (insert && office_passes office_id is_assignment office))
unfolding insert_step insert_assignment insert_enrolment covers
insert_step-is_covered server t c from o false b rows e office date = ground arith
insert_step-is_covered server t c from (some o) true true rows e office date =
    is_covered-append rows _ e office date ∙ ground (arith, text_eq_sym c e)
insert_step-is_covered server t c from none true true rows e office date = ground arith
insert_step-is_covered server t c from o true false rows e office date =
    is_covered-append rows _ e office date ∙ ground (arith, text_eq_sym c e)

pub cut_and_insert-is_covered :
    (server : Server) (c : Change) (is_assignment : Bool) (rows : List RangeRow) (e : Text)
    (office : Option Text → Bool) (date : Text)
    → is_covered (cut_and_insert server c is_assignment rows) e office date
      ≡ covered_after c is_assignment rows e office date
cut_and_insert-is_covered server c is_assignment rows e office date =
    insert_step-is_covered server c.tenant_id c.employee_id c.effective_from c.office_id c.insert
      is_assignment (cut_rows c.employee_id c.effective_from rows) e office date
    ∙ ground (arith, is_covered-cut_rows c.employee_id e c.effective_from date office rows)

-- A change does to a table what it says: from its date on the table covers the employee by the row that
-- the change inserts, if it inserts one, and by no other; the dates before it and the other employees
-- are covered as they were.
pub change_rows-is_covered :
    (server : Server) (c : Change) (is_assignment : Bool) (rows : List RangeRow)
    → is_exclusive rows ≡ true
    → (rows' : List RangeRow) × (change_rows server c is_assignment rows ≡ some rows')
      × ((e : Text) (office : Option Text → Bool) (date : Text)
          → is_covered rows' e office date ≡ covered_after c is_assignment rows e office date)
change_rows-is_covered server c is_assignment rows h = (
  cut_and_insert server c is_assignment rows,
  change_rows-cut_and_insert server c is_assignment rows h,
  cut_and_insert-is_covered server c is_assignment rows,
)
