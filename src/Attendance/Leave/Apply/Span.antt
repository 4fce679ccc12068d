-- ===== src/Attendance/Leave/Apply/Span.antt =====
-- The loop that lists the days of an application, over days that the calendar has.
use mathlib.Core.Option
use fenzit_be.Prelude.{◌∙◌, refl}
use fenzit_be.Calendar.Print.Laws.{day_text-short, day_of_text-day_text}
use fenzit_be.Calendar.Print.Order.{day_text-order, year_of_mono}
use fenzit_be.Calendar.{is_digit}
use fenzit_be.Attendance.Enrolments.Plan.{add_days}
use fenzit_be.Attendance.Leave.Apply.{enumerate_dates, date_parse}
use fenzit_be.Calendar.Print.{two_digits, four_digits, day_of_text, date_text, year_of, day_text}
use fenzit_be.Attendance.Enrolments.Tables.{is_date_key}
use fenzit_be.Prelude.{
  ap, text_eq_self, text_ltb_asym, inr, text_ltb_irrefl, eqb→eq, sym, subst, ◌/◌, inl, false, ◌==◌,
  ◌%◌, text_ltb, Bool-cases, zero, ◌∷◌, suc, arith, ◌<◌, some, true, ◌+◌, [], ◌≡◌, Text, ◌≤◌, List,
  ℕ,
}

abbrev pub days_from : ℕ → ℕ → List Text
days_from n zero = []
days_from n (suc k) = day_text n ∷ days_from (n + 1) k

-- The days from the year 100 to 9999-12-30: they and the day after them are printed in four digits of the
-- year, and read back.
abbrev pub IsDated : ℕ → Type 0
IsDated n = (100 ≤ year_of n) × (year_of (n + 1) < 10000)

digit_lem : (n : ℕ) → is_digit (b'0' + n % 10) ≡ true
digit_lem n = ground arith

is_date_key-date_text : (y m d : ℕ) → is_date_key (date_text y m d) ≡ true
unfolding is_date_key date_text four_digits two_digits
is_date_key-date_text y m d =
    rw
      (
        digit_lem (y / 1000),
        digit_lem (y / 100),
        digit_lem (y / 10),
        digit_lem y,
        digit_lem (m / 10),
        digit_lem m,
        digit_lem (d / 10),
        digit_lem d,
      )
      refl

pub is_date_key-day_text : (n : ℕ) → IsDated n → is_date_key (day_text n) ≡ true
is_date_key-day_text n (lo, hi) =
    let le = year_of_mono n (n + 1) (omega arith) in
    ap is_date_key (day_text-short n (omega arith)) ∙ is_date_key-date_text _ _ _

pub reads_back : (n : ℕ) → IsDated n → day_of_text (day_text n) ≡ some n
reads_back n (lo, hi) =
    let le = year_of_mono n (n + 1) (omega arith) in day_of_text-day_text n lo (omega arith)

pub date_parse-day_text : (n : ℕ) → IsDated n → date_parse (day_text n) ≡ some n
unfolding date_parse
date_parse-day_text n h = rw (reads_back n h, text_eq_self (day_text n)) refl

add_days-day_text : (n k : ℕ) → IsDated n → add_days (day_text n) k ≡ some (day_text (n + k))
unfolding add_days
add_days-day_text n k h = ap (Option.map (λ day. day_text (day + k))) (reads_back n h)

IsDated-below : (n m : ℕ) → 100 ≤ year_of n → IsDated m → n ≤ m → IsDated n
IsDated-below n m lo (_, hi) h = elim (Bool-cases (n == m)) [
  | inl e ↦ (lo, subst (λ z. year_of (z + 1) < 10000) (sym (eqb→eq n m e)) hi)
  | inr e ↦ let le = year_of_mono (n + 1) (m + 1) (ground arith) in (lo, omega arith)
]

pub text_ltb-day_text : (n m : ℕ) → IsDated m → n < m → text_ltb (day_text n) (day_text m) ≡ true
text_ltb-day_text n m (lo, hi) h =
    let le = year_of_mono m (m + 1) (omega arith) in day_text-order n m (omega arith) h

pub not_later : (n m : ℕ) → IsDated m → n ≤ m → text_ltb (day_text m) (day_text n) ≡ false
not_later n m dated h = elim (Bool-cases (n == m)) [
  | inl e ↦
      subst (λ z. text_ltb (day_text z) (day_text n) ≡ false) (eqb→eq n m e)
        (text_ltb_irrefl (day_text n))
  | inr e ↦ text_ltb_asym (day_text n) (day_text m) (text_ltb-day_text n m dated (ground arith))
]

day_after : (m : ℕ) → IsDated m → text_ltb (day_text m) (day_text (m + 1)) ≡ true
day_after m (lo, hi) = day_text-order m (m + 1) hi (omega arith)

text_ltb-day_after : (n m : ℕ) → IsDated m → n ≡ m → text_ltb (day_text m) (day_text (n + 1)) ≡ true
text_ltb-day_after n m dm e =
    subst (λ z. text_ltb (day_text m) (day_text (z + 1)) ≡ true) (sym e) (day_after m dm)

enumerate_dates-step :
    (rounds n m : ℕ) (dates : List Text)
    → IsDated n
    → IsDated m
    → n ≤ m
    → enumerate_dates rounds (day_text (n + 1)) (day_text m) ≡ some dates
    → enumerate_dates (suc rounds) (day_text n) (day_text m) ≡ some (day_text n ∷ dates)
unfolding enumerate_dates
enumerate_dates-step rounds n m dates dn dm h e =
    rw (not_later n m dm h, add_days-day_text n 1 dn, e) refl

enumerate_dates-past :
    (rounds : ℕ) (cursor end_date : Text)
    → text_ltb end_date cursor ≡ true
    → enumerate_dates (suc rounds) cursor end_date ≡ some []
unfolding enumerate_dates
enumerate_dates-past rounds cursor end_date h = rw (h) refl

-- The loop lists the days of a span, each once and in order, when it has two rounds more than there
-- are days between the first and the last.
pub enumerate_dates_lem :
    (k rounds n m : ℕ)
    → 100 ≤ year_of n
    → IsDated m
    → n + k ≡ m
    → k + 1 < rounds
    → enumerate_dates rounds (day_text n) (day_text m) ≡ some (days_from n (suc k))
enumerate_dates_lem k zero n m lo dm e h = absurd (omega arith)
enumerate_dates_lem k (suc zero) n m lo dm e h = absurd (omega arith)
enumerate_dates_lem zero (suc (suc rounds)) n m lo dm e h =
    enumerate_dates-step (suc rounds) n m [] (IsDated-below n m lo dm (omega arith)) dm
      (omega arith)
      (enumerate_dates-past rounds (day_text (n + 1)) (day_text m)
        (text_ltb-day_after n m dm (omega arith)))
enumerate_dates_lem (suc k) (suc (suc rounds)) n m lo dm e h =
    let dn = IsDated-below n m lo dm (omega arith) in
    let le = year_of_mono n (n + 1) (omega arith) in
    enumerate_dates-step (suc rounds) n m (days_from (n + 1) (suc k)) dn dm (omega arith)
      (enumerate_dates_lem k (suc rounds) (n + 1) m (omega arith) dm (omega arith) (omega arith))
