-- ===== src/Calendar.antt =====
-- The part of JavaScript's `Number`, `split` and UTC calendar that src/common/day-status and
-- src/attendance use on the texts `YYYY-MM-DD` and `HH:MM:SS`. Days count from 0000-01-01.
-- `number_of` knows digits alone: a text with a sign, a space or a point is NaN (`none`) here.
pub mod Laws
pub mod Print
use fenzit_be.Prelude.{
  ℕ, zero, suc, ◌+◌, ◌-◌, ◌*◌, ◌/◌, ◌%◌, Bool, true, false, ◌&&◌, ◌||◌, Option, none, some, List,
  [], ◌∷◌, ltb, leb, ◌==◌, if◌then◌else◌, Text, not,
}

abbrev pub is_digit : ℕ → Bool
is_digit c = leb b'0' c && leb c b'9'

unfoldable pub digits_from : ℕ → Text → Option ℕ
digits_from acc [] = some acc
digits_from acc (c ∷ s) =
    let rest = digits_from (acc * 10 + (c - b'0')) s in if is_digit c then rest else none

-- `Number(s)`
unfoldable pub number_of : Text → Option ℕ
unfolding digits_from
number_of s = digits_from 0 s

abbrev prepend : ℕ → List Text → List Text
prepend c [] = (c ∷ []) ∷ []
prepend c (p ∷ ps) = (c ∷ p) ∷ ps

-- `s.split(sep)` for a separator of one character
unfoldable pub split_on : ℕ → Text → List Text
split_on sep [] = [] ∷ []
split_on sep (c ∷ s) = if c == sep then [] ∷ split_on sep s else prepend c (split_on sep s)

-- The years 0 to 99 of `Date.UTC` are those of the twentieth century.
abbrev pub full_year : ℕ → ℕ
full_year y = if leb y 99 then 1900 + y else y

unfoldable pub is_leap : ℕ → Bool
is_leap y = (y % 4 == 0) && (not (y % 100 == 0) || (y % 400 == 0))

-- The days of the years before `y`.
unfoldable pub days_before_year : ℕ → ℕ
days_before_year y = 365 * y + (y + 3) / 4 + (y + 399) / 400 - (y + 99) / 100

-- The days of the months before the month `m` (0 is January).
unfoldable pub days_before_month : Bool → ℕ → ℕ
days_before_month leap zero = 0
days_before_month leap (suc zero) = 31
days_before_month leap (suc (suc m)) =
    (if leap then 60 else 59)
    + (if m == 0
        then 0
        else if m == 1
        then 31
        else if m == 2
        then 61
        else if m == 3
        then 92
        else if m == 4
        then 122
        else if m == 5
        then 153
        else if m == 6
        then 184
        else if m == 7
        then 214
        else if m == 8
        then 245
        else 275)

-- `Date.UTC(y, m - 1, d)` in days: a month past December runs on into the next year.
unfoldable pub utc_day : ℕ → ℕ → ℕ → ℕ
unfolding days_before_year days_before_month is_leap
utc_day y m d =
    let months = full_year y * 12 + m - 1 in
    let year = months / 12 in
    days_before_year year + days_before_month (is_leap year) (months % 12) + d - 1

-- `getUTCDay`: 0 is Sunday, and 0000-01-01 is a Saturday.
unfoldable pub utc_weekday : ℕ → ℕ
utc_weekday day = (day + 6) % 7
