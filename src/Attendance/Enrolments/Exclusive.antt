-- ===== src/Attendance/Enrolments/Exclusive.antt =====
-- The constraints of the two tables of ranges are kept by a change, so the database accepts it.
use fenzit_be.Attendance.Enrolments.Service.{Change}
use fenzit_be.Attendance.Enrolments.Tables.{Server, RangeRow}
use fenzit_be.Attendance.Enrolments.Cut.{cut_rows}
use fenzit_be.Prelude.{not, text_eq, all_of, List, Bool, Text}

-- The id that the database gives to a new row is not in the table.
abbrev pub is_fresh : Text → List RangeRow → Bool
is_fresh id rows = all_of (λ (r : RangeRow). not (text_eq r.id id)) rows

-- A row that is inserted has a key that no kept row has.
abbrev pub is_fresh_for : Server → Change → List RangeRow → Bool
is_fresh_for server c rows =
    let kept = cut_rows c.employee_id c.effective_from rows in is_fresh (server.new_id kept) kept
