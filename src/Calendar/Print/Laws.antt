-- ===== src/Calendar/Print/Laws.antt =====
-- A day that is printed is read back, for the years 100 to 9999.
use fenzit_be.Calendar.Laws.{days_before_year-suc}
use fenzit_be.Calendar.{
  full_year, is_leap, digits_from, days_before_month, days_before_year, utc_day, split_on,
  number_of,
}
use fenzit_be.Calendar.Print.{
  day_text, day_of_text, four_digits, two_digits, date_text, month_of, year_of,
}
use fenzit_be.Prelude.{refl}
use fenzit_be.Prelude.{
  true, ltb, ◌∙◌, ap, ◌%◌, ◌/◌, ◌-◌, ◌*◌, [], arith, ◌∷◌, some, ◌+◌, ◌≡◌, ◌<◌, Bool, ◌≤◌, ℕ,
}

pub year_of-bounds :
    (n : ℕ) → (days_before_year (year_of n) ≤ n) × (n < days_before_year (year_of n + 1))
unfolding year_of days_before_year
year_of-bounds n = (ground arith, ground arith)

pub month_of-bounds :
    (leap : Bool) (d : ℕ)
    → d < 366
    → (days_before_month leap (month_of leap d) ≤ d)
      × (d < days_before_month leap (month_of leap d) + 32)
      × (month_of leap d < 12)
unfolding month_of days_before_month
month_of-bounds leap d h = (ground arith, ground arith, ground arith)

number_of-two_digits : (n : ℕ) → n < 100 → number_of (two_digits n) ≡ some n
unfolding number_of digits_from two_digits
number_of-two_digits n h = ground arith

number_of-four_digits : (n : ℕ) → n < 10000 → number_of (four_digits n) ≡ some n
unfolding number_of digits_from four_digits
number_of-four_digits n h = ground arith

split_on-date_text :
    (y m d : ℕ) → split_on b'-' (date_text y m d) ≡ four_digits y ∷ two_digits m ∷ two_digits d ∷ []
unfolding split_on date_text two_digits four_digits
split_on-date_text y m d = ground arith

full_year-late : (y : ℕ) → 100 ≤ y → full_year y ≡ y
full_year-late y h = ground arith

utc_day-parts :
    (y m d : ℕ)
    → 100 ≤ y
    → m < 12
    → utc_day y (m + 1) (d + 1) ≡ days_before_year y + days_before_month (is_leap y) m + d
unfolding utc_day
utc_day-parts y m d h k =
    let months : (y * 12 + (m + 1) - 1) / 12 ≡ y = omega arith in
    let month : (y * 12 + (m + 1) - 1) % 12 ≡ m = omega arith in
    rw (utc_day, full_year-late y h, months, month) (omega arith)

day_of_text-date_text :
    (y m d : ℕ)
    → 100 ≤ y
    → y < 10000
    → m < 12
    → d < 99
    → day_of_text (date_text y (m + 1) (d + 1))
      ≡ some (days_before_year y + days_before_month (is_leap y) m + d)
unfolding day_of_text
day_of_text-date_text y m d lo hi month day =
    rw
      (
        day_of_text,
        split_on-date_text y (m + 1) (d + 1),
        number_of-four_digits y hi,
        number_of-two_digits (m + 1) (omega arith),
        number_of-two_digits (d + 1) (omega arith),
      )
      (ap some (utc_day-parts y m d lo month))

pub rest-lt : (n : ℕ) → n - days_before_year (year_of n) < 366
rest-lt n =
    let (below, above) = year_of-bounds n in ground (arith, days_before_year-suc (year_of n))

add_back : (n a b : ℕ) → a ≤ n → b ≤ n - a → a + b + (n - a - b) ≡ n
add_back n a b h k = omega arith

pub day_text-short :
    (n : ℕ)
    → year_of n < 10000
    → day_text n ≡ (
        let year = year_of n in
        let rest = n - days_before_year year in
        let month = month_of (is_leap year) rest in
        date_text year (month + 1) (rest - days_before_month (is_leap year) month + 1))
unfolding day_text
day_text-short n h = let short : ltb (year_of n) 10000 ≡ true = ground arith in rw (short) refl

pub day_of_text-day_text :
    (n : ℕ) → 100 ≤ year_of n → year_of n < 10000 → day_of_text (day_text n) ≡ some n
day_of_text-day_text n lo hi =
    let year = year_of n in
    let rest = n - days_before_year year in
    let month = month_of (is_leap year) rest in
    let (starts, ends, in_year) = month_of-bounds (is_leap year) rest (rest-lt n) in
    ap day_of_text (day_text-short n hi)
    ∙ day_of_text-date_text year month (rest - days_before_month (is_leap year) month) lo hi in_year
        (omega arith)
    ∙ ap some (
        add_back n (days_before_year year) (days_before_month (is_leap year) month)
          (year_of-bounds n).0 starts)
