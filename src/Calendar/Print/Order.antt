-- ===== src/Calendar/Print/Order.antt =====
-- The order of printed dates, as texts, is the order of the days.
use fenzit_be.Calendar.Print.Laws.{day_text-short, rest-lt, month_of-bounds, year_of-bounds}
use fenzit_be.Calendar.{is_leap, days_before_month, days_before_year}
use fenzit_be.Calendar.Print.{day_text, year_of, month_of, date_text, four_digits, two_digits}
use fenzit_be.Prelude.{
  sym, subst, inr, eqb→eq, inl, Bool-cases, ◌-◌, true, ap, [], ◌∷◌, ◌∙◌, ltb, ◌==◌, if◌then◌else◌,
  ◌%◌, ◌/◌, ◌≡◌, arith, ◌+◌, ◌++◌, text_ltb, Bool, ◌≤◌, ◌<◌, Text, ℕ,
}

two_digits-order :
    (a b : ℕ) (s t : Text)
    → a < 100
    → b < 100
    → text_ltb (two_digits a ++ s) (two_digits b ++ t) ≡ (if a == b then text_ltb s t else ltb a b)
unfolding two_digits
two_digits-order a b s t h k = ground arith

four_digits-split :
    (a : ℕ) (s : Text)
    → a < 10000
    → four_digits a ++ s ≡ two_digits (a / 100) ++ (two_digits (a % 100) ++ s)
unfolding four_digits two_digits
four_digits-split a s h = ground arith

four_digits-order :
    (a b : ℕ) (s t : Text)
    → a < 10000
    → b < 10000
    → text_ltb (four_digits a ++ s) (four_digits b ++ t)
      ≡ (if a == b then text_ltb s t else ltb a b)
four_digits-order a b s t h k =
    rw
      (
        four_digits-split a s h,
        four_digits-split b t k,
        two_digits-order (a / 100) (b / 100) (two_digits (a % 100) ++ s) (two_digits (b % 100) ++ t)
            (omega arith) (omega arith),
        two_digits-order (a % 100) (b % 100) s t (omega arith) (omega arith),
      )
      (ground arith)

same_day : (d d' : ℕ) → (if d == d' then text_ltb [] [] else ltb d d') ≡ ltb d d'
same_day d d' = ground arith

date_text-lt :
    (y y' m m' d d' : ℕ)
    → y < 10000
    → y' < 10000
    → m < 100
    → m' < 100
    → d < 100
    → d' < 100
    → text_ltb (date_text y m d) (date_text y' m' d')
      ≡ (if y == y' then if m == m' then ltb d d' else ltb m m' else ltb y y')
unfolding date_text two_digits
date_text-lt y y' m m' d d' hy hy' hm hm' hd hd' =
    let day : text_ltb (two_digits d) (two_digits d') ≡ ltb d d' =
      two_digits-order d d' [] [] hd hd' ∙ same_day d d' in
    let month : text_ltb (two_digits m ++ (b'-' ∷ two_digits d))
          (two_digits m' ++ (b'-' ∷ two_digits d'))
        ≡ (if m == m' then ltb d d' else ltb m m') =
      two_digits-order m m' (b'-' ∷ two_digits d) (b'-' ∷ two_digits d') hm hm'
      ∙ ap (λ v. if m == m' then v else ltb m m') day in
    four_digits-order y y' (b'-' ∷ two_digits m ++ (b'-' ∷ two_digits d))
      (b'-' ∷ two_digits m' ++ (b'-' ∷ two_digits d')) hy hy'
    ∙ ap (λ v. if y == y' then v else ltb y y') month

years_apart :
    (a b y y' : ℕ) → days_before_year y ≤ a → b < days_before_year (y' + 1) → a < b → y ≤ y'
unfolding days_before_year
years_apart a b y y' h k l = ground arith

pub year_of_mono : (a b : ℕ) → a < b → year_of a ≤ year_of b
year_of_mono a b h =
    let (low, high) = year_of-bounds a in
    let (low', high') = year_of-bounds b in years_apart a b (year_of a) (year_of b) low high' h

month_of_mono : (leap : Bool) (a b : ℕ) → a < b → month_of leap a ≤ month_of leap b
unfolding month_of
month_of_mono leap a b h = ground arith

-- The month and the day of the month that are printed for a day of a year.
abbrev printed_month : Bool → ℕ → ℕ
printed_month leap r = month_of leap r + 1

abbrev printed_day : Bool → ℕ → ℕ
printed_day leap r = r - days_before_month leap (month_of leap r) + 1

printed_day-lt : (leap : Bool) (r : ℕ) → r < 366 → printed_day leap r < 100
printed_day-lt leap r h = let (low, high, in_year) = month_of-bounds leap r h in omega arith

days_apart :
    (leap : Bool) (r r' m m' : ℕ)
    → days_before_month leap m ≤ r
    → m ≡ m'
    → r < r'
    → r - days_before_month leap m + 1 < r' - days_before_month leap m' + 1
days_apart leap r r' m m' low e h = rw (← e) (omega arith)

pick :
    (m m' d d' : ℕ)
    → m ≤ m'
    → (m ≡ m' → d < d')
    → (if m + 1 == m' + 1 then ltb d d' else ltb (m + 1) (m' + 1)) ≡ true
pick m m' d d' le days = elim (Bool-cases (m == m')) [
  | inl e ↦ let lt = days (eqb→eq m m' e) in ground arith
  | inr e ↦ ground arith
]

pick_year :
    (y y' : ℕ) (inner : Bool)
    → y ≤ y'
    → (y ≡ y' → inner ≡ true)
    → (if y == y' then inner else ltb y y') ≡ true
pick_year y y' inner le same = elim (Bool-cases (y == y')) [
  | inl e ↦ let on = same (eqb→eq y y' e) in ground arith
  | inr e ↦ ground arith
]

in_year_order :
    (leap : Bool) (r r' : ℕ)
    → r' < 366
    → r < r'
    → (if printed_month leap r == printed_month leap r'
        then ltb (printed_day leap r) (printed_day leap r')
        else ltb (printed_month leap r) (printed_month leap r'))
      ≡ true
in_year_order leap r r' hi h =
    let le = month_of_mono leap r r' h in
    let (low, high, in_year) = month_of-bounds leap r (omega arith) in
    let days = days_apart leap r r' (month_of leap r) (month_of leap r') low in
    pick (month_of leap r) (month_of leap r') (printed_day leap r) (printed_day leap r') le
      (λ e. days e h)

in_same_year_order :
    (a b y y' : ℕ)
    → y ≡ y'
    → days_before_year y ≤ a
    → b - days_before_year y' < 366
    → a < b
    → (if printed_month (is_leap y) (a - days_before_year y)
          == printed_month (is_leap y') (b - days_before_year y')
        then ltb
            (printed_day (is_leap y) (a - days_before_year y))
            (printed_day (is_leap y') (b - days_before_year y'))
        else ltb
            (printed_month (is_leap y) (a - days_before_year y))
            (printed_month (is_leap y') (b - days_before_year y')))
      ≡ true
in_same_year_order a b y y' e low hi h =
    subst
      (λ z.
        (if printed_month (is_leap y) (a - days_before_year y)
            == printed_month (is_leap z) (b - days_before_year z)
          then ltb (printed_day (is_leap y) (a - days_before_year y))
              (printed_day (is_leap z) (b - days_before_year z))
          else ltb (printed_month (is_leap y) (a - days_before_year y))
              (printed_month (is_leap z) (b - days_before_year z)))
        ≡ true)
      e
      (in_year_order (is_leap y) (a - days_before_year y) (b - days_before_year y)
        (subst (λ z. b - days_before_year z < 366) (sym e) hi) (omega arith))

pub day_text-order :
    (a b : ℕ) → year_of b < 10000 → a < b → text_ltb (day_text a) (day_text b) ≡ true
day_text-order a b hi h =
    let le = year_of_mono a b h in
    let ra = a - days_before_year (year_of a) in
    let rb = b - days_before_year (year_of b) in
    let (ma, mb, mc) = month_of-bounds (is_leap (year_of a)) ra (rest-lt a) in
    let (na, nb, nc) = month_of-bounds (is_leap (year_of b)) rb (rest-lt b) in
    ap (λ s. text_ltb s (day_text b)) (day_text-short a (omega arith))
    ∙ ap
        (text_ltb (
          date_text (year_of a) (printed_month (is_leap (year_of a)) ra)
            (printed_day (is_leap (year_of a)) ra)))
        (day_text-short b hi)
    ∙ date_text-lt (year_of a) (year_of b) (printed_month (is_leap (year_of a)) ra)
        (printed_month (is_leap (year_of b)) rb) (printed_day (is_leap (year_of a)) ra)
        (printed_day (is_leap (year_of b)) rb) (omega arith) hi (omega arith) (omega arith)
        (printed_day-lt (is_leap (year_of a)) ra (rest-lt a))
        (printed_day-lt (is_leap (year_of b)) rb (rest-lt b))
    ∙ pick_year (year_of a) (year_of b) _ le
        (λ e. in_same_year_order a b (year_of a) (year_of b) e ((year_of-bounds a).0) (rest-lt b) h)
