-- ===== src/Calendar/Print.antt =====
-- `new Date(ms).toISOString().slice(0, 10)` for a day from the year 0 on, and the date arithmetic
-- that src/attendance builds on it.
pub mod Laws
pub mod Order
mod Examples
use fenzit_be.Calendar.{utc_day, days_before_month, number_of, is_leap, split_on, days_before_year}
use fenzit_be.Prelude.{
  none, some, Option, none, List, [], ltb, leb, ◌∷◌, ◌%◌, if◌then◌else◌, Option, ◌++◌, ◌/◌, ◌+◌,
  ◌-◌, ◌*◌, Text, Bool, ℕ,
}

-- The year of a day: an estimate by the mean length of a year, put right by one year.
unfoldable pub year_of : ℕ → ℕ
year_of n =
    let q = n * 400 / 146097 in
    if leb (days_before_year (q + 1)) n
    then q + 1
    else if leb (days_before_year q) n
    then q
    else q - 1

-- The month (0 is January) of a day of the year.
unfoldable pub month_of : Bool → ℕ → ℕ
month_of leap d =
    let e = d - (if leap then 60 else 59) in
    if ltb d 31
    then 0
    else if ltb d (if leap then 60 else 59)
    then 1
    else if ltb e 31
    then 2
    else if ltb e 61
    then 3
    else if ltb e 92
    then 4
    else if ltb e 122
    then 5
    else if ltb e 153
    then 6
    else if ltb e 184
    then 7
    else if ltb e 214
    then 8
    else if ltb e 245
    then 9
    else if ltb e 275
    then 10
    else 11

abbrev digit : ℕ → ℕ
digit n = b'0' + n % 10

unfoldable pub two_digits : ℕ → Text
two_digits n = digit (n / 10) ∷ digit n ∷ []

unfoldable pub four_digits : ℕ → Text
four_digits n = digit (n / 1000) ∷ digit (n / 100) ∷ digit (n / 10) ∷ digit n ∷ []

-- `YYYY-MM-DD`
unfoldable pub date_text : (year month day : ℕ) → Text
date_text year month day = four_digits year ++ (b'-' ∷ two_digits month ++ (b'-' ∷ two_digits day))

-- The first ten characters of a date past the year 9999, which has a sign and six digits for the year:
-- `+YYYYYY-MM`
unfoldable pub long_date_text : (year month : ℕ) → Text
long_date_text year month =
    b'+' ∷ two_digits (year / 10000) ++ (four_digits (year % 10000) ++ (b'-' ∷ two_digits month))

abbrev print_date : (year month day : ℕ) → Text
print_date year month day =
    if ltb year 10000 then date_text year month day else long_date_text year month

-- `toISOString().slice(0, 10)` of a day
unfoldable pub day_text : ℕ → Text
unfolding year_of month_of
day_text n =
    let year = year_of n in
    let rest = n - days_before_year year in
    let month = month_of (is_leap year) rest in
    print_date year (month + 1) (rest - days_before_month (is_leap year) month + 1)

abbrev day_of_numbers : Option ℕ → Option ℕ → Option ℕ → Option ℕ
day_of_numbers (some year) (some month) (some day) = some (utc_day year month day)
day_of_numbers _ _ _ = none

abbrev pub day_of_parts : List Text → Option ℕ
day_of_parts (y ∷ m ∷ d ∷ rest) = day_of_numbers (number_of y) (number_of m) (number_of d)
day_of_parts _ = none

-- `date.split('-').map(Number)`, the first three, as `Date.UTC(y, m - 1, d)` in days.
unfoldable pub day_of_text : Text → Option ℕ
day_of_text date = day_of_parts (split_on b'-' date)
