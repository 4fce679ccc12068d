-- ===== src/DayStatus/OfficeRules.antt =====
-- src/common/day-status/office-rules.ts. A date is the text `YYYY-MM-DD`; `none` is a thrown error.
pub mod Laws
pub mod First
use fenzit_be.Prelude.{
  ℕ, Bool, true, false, ◌&&◌, ◌||◌, Option, none, some, List, [], ◌∷◌, leb, ◌==◌, if◌then◌else◌,
  Text, text_ltb, text_leb,
}

pub record OfficeRuleRow : Type 0 where
  pub id : Text
  pub valid : Text
  pub start_time : Text
  pub end_time : Text
  pub late_cutoff_minutes : ℕ
  -- `numeric(4, 2)` hours, held in hundredths of an hour
  pub full_day_hours : ℕ
  pub half_day_hours : ℕ

pub record WeeklyOffRow : Type 0 where
  pub valid : Text
  pub days : List ℕ

pub record DateRange : Type 0 where
  pub start : Text
  -- exclusive; `none` is unbounded
  pub end : Option Text

abbrev pub is_open : ℕ → Bool
is_open c = (c == b'(') || (c == b'[')

abbrev pub is_close : ℕ → Bool
is_close c = (c == b')') || (c == b']')

abbrev pub is_comma : ℕ → Bool
is_comma c = c == b','

-- `([^,]*),`: the text before the first comma, and the text after it
unfoldable pub take_lower : Text → Option (Text × Text)
take_lower [] = none
take_lower (c ∷ s) =
    if is_comma c
    then some ([], s)
    else elim (take_lower s) [ none ↦ none | some (lower, rest) ↦ some (c ∷ lower, rest) ]

-- `([^)\]]*)[)\]]$`: the text before a closing bracket that ends the literal
unfoldable pub take_upper : Text → Option Text
take_upper [] = none
take_upper (c ∷ []) = if is_close c then some [] else none
take_upper (c ∷ d ∷ s) =
    if is_close c
    then none
    else elim (take_upper (d ∷ s)) [ none ↦ none | some upper ↦ some (c ∷ upper) ]

abbrev pub bounded : Text → Option Text
bounded [] = none
bounded (c ∷ s) = some (c ∷ s)

-- `match[1] === ''` throws
abbrev pub range_of : Text → Text → Option DateRange
range_of [] upper = none
range_of (c ∷ lower) upper = some (record { start = c ∷ lower; end = bounded upper })

unfoldable pub parse_bounds : Text → Option DateRange
unfolding take_lower take_upper
parse_bounds s = elim (take_lower s) [
  | none ↦ none
  | some (lower, rest) ↦ elim (take_upper rest) [ none ↦ none | some upper ↦ range_of lower upper ]
]

unfoldable pub parse_date_range : Text → Option DateRange
unfolding parse_bounds
parse_date_range [] = none
parse_date_range (c ∷ s) = if is_open c then parse_bounds s else none

-- `anchor < end`, where a missing end is after every date
abbrev pub before_end : Text → Option Text → Bool
before_end anchor none = true
before_end anchor (some e) = text_ltb anchor e

unfoldable pub covers : DateRange → Text → Bool
covers r anchor = text_leb r.start anchor && before_end anchor r.end

unfoldable pub range_covers : Text → Text → Option Bool
range_covers valid anchor = elim (parse_date_range valid) [
  | none ↦ none
  | some r ↦ some (covers r anchor)
]

-- `rows.find((row) => rangeCovers(row.valid, anchor)) ?? null`
unfoldable pub find_covering : {A : Type 0} → (A → Text) → List A → Text → Option (Option A)
find_covering valid [] anchor = some none
find_covering valid (row ∷ rows) anchor = elim (range_covers (valid row) anchor) [
  | none ↦ none
  | some true ↦ some (some row)
  | some false ↦ find_covering valid rows anchor
]

unfoldable pub pick_rule_for_date : List OfficeRuleRow → Text → Option (Option OfficeRuleRow)
pick_rule_for_date rules anchor = find_covering (λ (r : OfficeRuleRow). r.valid) rules anchor

-- `[...days].sort((a, b) => a - b)`
unfoldable pub insert_day : ℕ → List ℕ → List ℕ
insert_day d [] = d ∷ []
insert_day d (x ∷ xs) = if leb d x then d ∷ x ∷ xs else x ∷ insert_day d xs

unfoldable pub sort_days : List ℕ → List ℕ
sort_days [] = []
sort_days (d ∷ ds) = insert_day d (sort_days ds)

-- A covering override replaces the covering default; with neither, every day is worked.
unfoldable pub pick_weekly_off_days : List WeeklyOffRow → List WeeklyOffRow → Text → Option (List ℕ)
pick_weekly_off_days overrides defaults anchor =
    elim (find_covering (λ (r : WeeklyOffRow). r.valid) overrides anchor) [
      | none ↦ none
      | some (some row) ↦ some (sort_days row.days)
      | some none ↦ elim (find_covering (λ (r : WeeklyOffRow). r.valid) defaults anchor) [
        | none ↦ none
        | some (some def) ↦ some (sort_days def.days)
        | some none ↦ some []
      ]
    ]
