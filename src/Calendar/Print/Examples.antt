-- ===== src/Calendar/Print/Examples.antt =====
-- Days of October 2026, printed and read.

-- 2026-10-05
use fenzit_be.Calendar.{days_before_month, is_leap, days_before_year}
use fenzit_be.Calendar.Print.{
  month_of, two_digits, four_digits, long_date_text, date_text, year_of, day_text,
}
use fenzit_be.Prelude.{refl}
use fenzit_be.Prelude.{codes, ◌≡◌, ℕ}

abbrev monday : ℕ
monday = 740259

monday_text : day_text monday ≡ codes "2026-10-05"
unfolding day_text date_text four_digits two_digits year_of month_of is_leap days_before_year
    days_before_month
monday_text = refl

-- 9999-12-31 and the day after it
last_texts : (day_text 3652424 ≡ codes "9999-12-31") × (day_text 3652425 ≡ codes "+010000-01")
unfolding day_text long_date_text date_text four_digits two_digits year_of month_of is_leap
    days_before_year days_before_month
last_texts = (refl, refl)
