-- ===== src/Attendance/Enrolments/Plan.antt =====
-- src/attendance/enrolments-response.model.ts: the plan of one effective-dated change over the ranges of
-- an employee, and the shape of the answers. `none` is the error that an unreadable range throws.
use fenzit_be.Calendar.Print.{day_of_text, day_text}
use fenzit_be.DayStatus.OfficeRules.{
  parse_bounds, bounded, before_end, is_close, is_comma, parse_date_range, take_upper, take_lower,
  DateRange,
}
use mathlib.Core.Option
use fenzit_be.Prelude.{
  ◌+◌, text_ltb, none, [], arith, is_some, ◌&&◌, text_eq, get_or, false, true, if◌then◌else◌, not,
  keep, text_leb, exists, ◌++◌, ◌≡◌, find, map, Bool, some, ◌∷◌, Option, ℕ, List, Text, refl,
}

pub record EnrolmentRow : Type 0 where
  pub id : Text
  pub valid : Text

pub record Ad8Plan : Type 0 where
  pub delete_ids : List Text
  pub clip_id : Option Text
  pub clip_end : Option Text
  pub insert_start : Option Text

unfoldable pub serialize_date_range : DateRange → Text
serialize_date_range range = b'[' ∷ range.start ++ (b',' ∷ get_or range.end [] ++ (b')' ∷ []))

-- `YYYY-MM-DD` and n days more. A text that is no date gives an invalid `Date`, whose `toISOString`
-- throws (`none`).
unfoldable pub add_days : Text → ℕ → Option Text
add_days date n = Option.map (λ day. day_text (day + n)) (day_of_text date)

pub record ParsedRow : Type 0 where
  pub id : Text
  pub range : DateRange

-- `rows.map((row) => ({ id: row.id, range: parseDateRange(row.valid) }))`
unfoldable pub parse_rows : List EnrolmentRow → Option (List ParsedRow)
parse_rows [] = some []
parse_rows (row ∷ rows) = elim (parse_date_range row.valid) [
  | none ↦ none
  | some range ↦ elim (parse_rows rows) [
    | none ↦ none
    | some parsed ↦ some (record { id = row.id; range = range } ∷ parsed)
  ]
]

abbrev pub includes : List Text → Text → Bool
includes ids id = exists (text_eq id) ids

abbrev pub starts_from : Text → ParsedRow → Bool
starts_from effective_from row = text_leb effective_from row.range.start

abbrev pub id_of : ParsedRow → Text
id_of row = row.id

abbrev pub delete_ids_of : Text → List ParsedRow → List Text
delete_ids_of effective_from parsed = map id_of (keep (starts_from effective_from) parsed)

abbrev pub is_clipped : List Text → Text → ParsedRow → Bool
is_clipped delete_ids effective_from row =
    not (includes delete_ids row.id)
    && (text_ltb row.range.start effective_from && before_end effective_from row.range.end)

abbrev pub covering_of : Text → List ParsedRow → Option ParsedRow
covering_of effective_from parsed =
    find (is_clipped (delete_ids_of effective_from parsed) effective_from) parsed

abbrev pub plan_of : List Text → Option ParsedRow → Text → Bool → Ad8Plan
plan_of delete_ids covering effective_from insert = record {
  delete_ids = delete_ids;
  clip_id = Option.map id_of covering;
  clip_end = if is_some covering then some effective_from else none;
  insert_start = if insert then some effective_from else none;
}

unfoldable pub plan_ad8_change : List EnrolmentRow → Text → Bool → Option Ad8Plan
plan_ad8_change rows effective_from insert = elim (parse_rows rows) [
  | none ↦ none
  | some parsed ↦ some (
      plan_of (delete_ids_of effective_from parsed) (covering_of effective_from parsed)
        effective_from insert)
]

-- The texts that stand for a date inside a range literal: not empty, and no bracket and no comma.
abbrev is_plain_char : ℕ → Bool
is_plain_char c = not (is_comma c) && not (is_close c)

unfoldable pub is_plain : Text → Bool
is_plain [] = true
is_plain (c ∷ s) = is_plain_char c && is_plain s

unfoldable pub is_date_text : Text → Bool
is_date_text [] = false
is_date_text (c ∷ s) = is_plain (c ∷ s)

abbrev pub is_end_text : Option Text → Bool
is_end_text none = true
is_end_text (some s) = is_date_text s

take_lower-plain :
    (s rest : Text) → is_plain s ≡ true → take_lower (s ++ (b',' ∷ rest)) ≡ some (s, rest)
unfolding take_lower is_plain
take_lower-plain [] rest h = refl
take_lower-plain (c ∷ s) rest h = ground (arith, take_lower-plain s rest)

take_upper-plain : (s : Text) → is_plain s ≡ true → take_upper (s ++ (b')' ∷ [])) ≡ some s
unfolding take_upper is_plain
take_upper-plain [] h = refl
take_upper-plain (c ∷ []) h = ground arith
take_upper-plain (c ∷ d ∷ s) h = ground (arith, take_upper-plain (d ∷ s))

bounded-date : (end : Option Text) → is_end_text end ≡ true → bounded (get_or end []) ≡ end
unfolding is_date_text
bounded-date none h = refl
bounded-date (some []) h = cc
bounded-date (some (c ∷ s)) h = refl

plain_end : (end : Option Text) → is_end_text end ≡ true → is_plain (get_or end []) ≡ true
unfolding is_date_text is_plain
plain_end none h = refl
plain_end (some []) h = cc
plain_end (some (c ∷ s)) h = h

parse_bounds-plain :
    (c : ℕ) (lower : Text) (end : Option Text)
    → is_plain (c ∷ lower) ≡ true
    → is_end_text end ≡ true
    → parse_bounds ((c ∷ lower) ++ (b',' ∷ get_or end [] ++ (b')' ∷ [])))
      ≡ some (record { start = c ∷ lower; end = end })
unfolding parse_bounds
parse_bounds-plain c lower end lo hi = rw (
  parse_bounds,
  take_lower-plain (c ∷ lower) (get_or end [] ++ (b')' ∷ [])) lo,
  take_upper-plain (get_or end []) (plain_end end hi),
  bounded-date end hi,
)

parse_start :
    (start : Text) (end : Option Text)
    → is_date_text start ≡ true
    → is_end_text end ≡ true
    → parse_date_range (b'[' ∷ start ++ (b',' ∷ get_or end [] ++ (b')' ∷ [])))
      ≡ some (record { start = start; end = end })
unfolding parse_date_range is_date_text
parse_start [] end lo hi = cc
parse_start (c ∷ lower) end lo hi = parse_bounds-plain c lower end lo hi

-- A range that is written and read again is the same range, when its first date, and its end if it has
-- one, is a text that is not empty and has no comma and no closing bracket.
pub parse_date_range-serialize_date_range :
    (range : DateRange)
    → is_date_text range.start ≡ true
    → is_end_text range.end ≡ true
    → parse_date_range (serialize_date_range range) ≡ some range
unfolding serialize_date_range
parse_date_range-serialize_date_range range lo hi = parse_start range.start range.end lo hi
