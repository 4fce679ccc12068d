-- ===== src/Attendance/Leave/Disable/Once.antt =====
-- The key of the table of leave days, and lists of dates and of days.

-- The key of the table of days: a request has one day for a date.
use fenzit_be.Prelude.{and_right, and_left, all_of-In, refl, here, there}
use fenzit_be.Attendance.Leave.Transition.{listed, sort_dates, insert_date}
use fenzit_be.Prelude.{
  not, [], ap, length, ◌∙◌, text_eq_sym, all_of, ◌∷◌, map, keep, ltb, ◌++◌, ◌||◌, In, arith, ◌&&◌,
  exists, ◌≡◌, true, text_eq, Bool, Text, List,
}
use fenzit_be.Attendance.Leave.Types.{LeaveDayRow}

abbrev pub same_day : LeaveDayRow → LeaveDayRow → Bool
same_day x y = text_eq x.leave_request_id y.leave_request_id && text_eq x.leave_date y.leave_date

unfoldable pub has_key_once : List LeaveDayRow → Bool
has_key_once [] = true
has_key_once (x ∷ rows) = all_of (λ y. not (same_day x y)) rows && has_key_once rows

same_day_sym : (x y : LeaveDayRow) → same_day x y ≡ true → same_day y x ≡ true
same_day_sym x y h = ground (
  arith,
  text_eq_sym x.leave_request_id y.leave_request_id,
  text_eq_sym x.leave_date y.leave_date,
)

pub one_day :
    (rows : List LeaveDayRow) {x y : LeaveDayRow}
    → has_key_once rows ≡ true
    → In x rows
    → In y rows
    → same_day x y ≡ true
    → x ≡ y
unfolding has_key_once
one_day [] h m n e = elim m [ ]
one_day (r ∷ rows) h here here e = refl
one_day (r ∷ rows) {y = y} h here (there n) e =
    absurd (ground (arith, all_of-In (λ z. not (same_day r z)) n (and_left _ _ h)))
one_day (r ∷ rows) {x} h (there m) here e =
    absurd
      (ground (arith, all_of-In (λ z. not (same_day r z)) m (and_left _ _ h), same_day_sym x r))
one_day (r ∷ rows) h (there m) (there n) e = one_day rows (and_right _ _ h) m n e

pub listed-insert_date :
    (d x : Text) (xs : List Text) → listed (insert_date d xs) x ≡ (text_eq x d || listed xs x)
unfolding insert_date
listed-insert_date d x [] = refl
listed-insert_date d x (y ∷ xs) = ground (arith, listed-insert_date d x xs)

pub listed-sort_dates : (xs : List Text) (x : Text) → listed (sort_dates xs) x ≡ listed xs x
unfolding sort_dates
listed-sort_dates [] x = refl
listed-sort_dates (d ∷ xs) x =
    listed-insert_date d x (sort_dates xs) ∙ ap (λ b. text_eq x d || b) (listed-sort_dates xs x)

pub listed-append :
    (xs ys : List Text) (x : Text) → listed (xs ++ ys) x ≡ (listed xs x || listed ys x)
listed-append [] ys x = refl
listed-append (d ∷ xs) ys x = ground (arith, listed-append xs ys x)

pub listed-length : (xs : List Text) (x : Text) → listed xs x ≡ true → ltb 0 (length xs) ≡ true
listed-length [] x h = cc
listed-length (d ∷ xs) x h = ground arith

pub exists-keep :
    {A : Type 0} (q p : A → Bool) (xs : List A) → exists q (keep p xs) ≡ exists (λ a. p a && q a) xs
exists-keep q p [] = refl
exists-keep q p (x ∷ xs) = ground (arith, exists-keep q p xs)

pub exists-map :
    {A B : Type 0} (q : B → Bool) (f : A → B) (xs : List A)
    → exists q (map f xs) ≡ exists (λ a. q (f a)) xs
exists-map q f [] = refl
exists-map q f (x ∷ xs) = ap (λ b. q (f x) || b) (exists-map q f xs)

pub exists-and :
    {A : Type 0} (p q : A → Bool) (c : Bool) (xs : List A)
    → ((a : A) → q a ≡ (p a && c))
    → exists q xs ≡ (exists p xs && c)
exists-and p q c [] h = refl
exists-and p q c (x ∷ xs) h = ground (arith, h x, exists-and p q c xs h)
