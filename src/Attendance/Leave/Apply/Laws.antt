-- ===== src/Attendance/Leave/Apply/Laws.antt =====
-- The rules of the shape of an application, and the days that they let through.
use fenzit_be.Attendance.Leave.Apply.Span.{
  enumerate_dates_lem, days_from, not_later, text_ltb-day_text, reads_back, is_date_key-day_text,
  date_parse-day_text, IsDated,
}
use fenzit_be.Attendance.Errors.{leave_invalid_range, ErrorCode}
use fenzit_be.Prelude.{◌&&◌, not, if◌then◌else◌}
use fenzit_be.Prelude.{text_eq→eq, Option, ◌-◌, ◌↔◌, ◌∙◌, text_eq, Bool, refl}
use fenzit_be.DayStatus.Types.{LeavePart}
use fenzit_be.Attendance.Leave.Apply.{
  is_full_day, is_too_long, ApplyShapeInput, leave_max_span_days, validate_apply_shape,
  enumerate_dates, date_parse,
}
use fenzit_be.Calendar.Print.{day_of_text, day_text}
use fenzit_be.Prelude.{
  ltb, none, ap, text_eq_self, inr, sym, subst, inl, false, text_ltb, Bool-cases, suc, arith, ◌<◌,
  some, true, ◌+◌, ◌≡◌, ◌≤◌, ℕ,
}

-- The rules of the shape of an application, on two days that the calendar has.
pub record IsShaped (n m : ℕ) (part : LeavePart) : Type 0 where
  pub in_order : n ≤ m
  pub is_short : m < n + leave_max_span_days
  pub is_one_part : is_full_day part ≡ false → n ≡ m

abbrev pub shape : ℕ → ℕ → LeavePart → ApplyShapeInput
shape n m part = record { start_date = day_text n; end_date = day_text m; part = part }

-- The rules that are left when both dates are well formed, over days in place of texts.
abbrev rules : (late : Bool) (n m : ℕ) (full same : Bool) → Option ErrorCode
rules late n m full same =
    if late
    then some leave_invalid_range
    else if ltb (n + leave_max_span_days) (m + 1)
    then some leave_invalid_range
    else if not full && not same
    then some leave_invalid_range
    else none

is_too_long-day_text :
    (n m : ℕ)
    → IsDated n
    → IsDated m
    → is_too_long (date_parse (day_text n)) (date_parse (day_text m)) ≡ ltb (n + 62) (m + 1)
unfolding is_too_long
is_too_long-day_text n m dn dm = rw (date_parse-day_text n dn, date_parse-day_text m dm) refl

validate_apply_shape-rules :
    (n m : ℕ) (part : LeavePart)
    → IsDated n
    → IsDated m
    → validate_apply_shape (shape n m part)
      ≡ rules
          (text_ltb (day_text m) (day_text n))
          n
          m
          (is_full_day part)
          (text_eq (day_text n) (day_text m))
unfolding validate_apply_shape
validate_apply_shape-rules n m part dn dm =
    rw (is_date_key-day_text n dn, is_date_key-day_text m dm, is_too_long-day_text n m dn dm) refl

day_text-injective : (n m : ℕ) → IsDated n → IsDated m → day_text n ≡ day_text m → n ≡ m
day_text-injective n m dn dm e =
    let same : some n ≡ some m = sym (reads_back n dn) ∙ ap day_of_text e ∙ reads_back m dm in
    ground arith

IsShaped-rules :
    (n m : ℕ) (part : LeavePart)
    → IsDated n
    → IsDated m
    → rules
        (text_ltb (day_text m) (day_text n))
        n
        m
        (is_full_day part)
        (text_eq (day_text n) (day_text m))
      ≡ none
    → IsShaped n m part
IsShaped-rules n m part dn dm h = record {
  in_order = elim (Bool-cases (ltb m n)) [
    | inl e ↦ let late = text_ltb-day_text m n dn (ground arith) in absurd (ground arith)
    | inr e ↦ ground arith
  ];
  is_short = ground arith;
  is_one_part = λ half. elim (Bool-cases (text_eq (day_text n) (day_text m))) [
    | inl e ↦ day_text-injective n m dn dm (text_eq→eq (day_text n) (day_text m) e)
    | inr e ↦ absurd (ground arith)
  ];
}

rules-IsShaped :
    (n m : ℕ) (part : LeavePart)
    → IsDated m
    → IsShaped n m part
    → rules
        (text_ltb (day_text m) (day_text n))
        n
        m
        (is_full_day part)
        (text_eq (day_text n) (day_text m))
      ≡ none
rules-IsShaped n m part dm s =
    let late = not_later n m dm s.in_order in
    let short = s.is_short in
    elim (Bool-cases (is_full_day part)) [
      | inl e ↦ ground arith
      | inr e ↦
          let same : text_eq (day_text n) (day_text m) ≡ true =
            subst (λ z. text_eq (day_text n) (day_text z) ≡ true) (s.is_one_part e)
              (text_eq_self (day_text n)) in
          ground arith
    ]

-- On two days from the year 100 to 9999-12-30 the rules of the shape let an application through exactly when
-- it does not end before it starts, covers at most 62 days, and is for full days or for one day.
pub validate_apply_shape_iff :
    (n m : ℕ) (part : LeavePart)
    → IsDated n
    → IsDated m
    → (validate_apply_shape (shape n m part) ≡ none) ↔ IsShaped n m part
validate_apply_shape_iff n m part dn dm =
    let e = validate_apply_shape-rules n m part dn dm in
    ((λ h. IsShaped-rules n m part dn dm (sym e ∙ h)), λ s. e ∙ rules-IsShaped n m part dm s)

-- When the rules of the shape let an application through between two days from the year 100 to
-- 9999-12-30, 63 rounds of the loop are enough to list its days: the first day and every day up to the
-- last, each once and in order, at most 62 of them.
pub validate_apply_shape-enumerate_dates :
    (n m : ℕ) (part : LeavePart)
    → IsDated n
    → IsDated m
    → validate_apply_shape (shape n m part) ≡ none
    → (enumerate_dates 63 (day_text n) (day_text m) ≡ some (days_from n (suc (m - n))))
      × (m - n < 62)
validate_apply_shape-enumerate_dates n m part dn dm h =
    let s = (validate_apply_shape_iff n m part dn dm).0 h in
    let order = s.in_order in
    let short = s.is_short in
    (enumerate_dates_lem (m - n) 63 n m dn.0 dm (omega arith) (omega arith), omega arith)
