-- ===== src/DayStatus/Summary/Laws.antt =====
-- The monthly sums are sums: they add up over a split of the month, do not depend on the order of
-- the rows, and stay within the number of tracked days.
use mathlib.Core.List.{Perm, Permᴰ}
use mathlib.Core.Logic.{∥∥₁_elim}
use mathlib.Core.HLevel.{hedberg}
use fenzit_be.Prelude.{
  ℕ, ◌+◌, ◌*◌, ◌≤◌, ◌≡◌, refl, Bool, true, false, List, [], ◌∷◌, ◌++◌, arith, if◌then◌else◌, ap,
  ◌∙◌, subst, ℕ_discrete, sym,
}
use fenzit_be.DayStatus.Types.{Zone, DayStatusOutcome}
use fenzit_be.DayStatus.Engine.Credits.{total_credit, credit-le-one_day}
use fenzit_be.DayStatus.Summary.{
  add_row, DayGridRow, MonthlyEmployeeSummary, empty_summary, outcome_for, add_outcome, sum_rows,
  round1, summarise_employee_month,
}

-- The snapping of half-day sums to one decimal changes nothing.
pub round1_exact : (halves : ℕ) → round1 halves ≡ halves
unfolding round1
round1_exact halves = omega arith

summarise-eq-sum_rows :
    (z : Zone) (rows : List DayGridRow)
    → summarise_employee_month z rows ≡ sum_rows z empty_summary rows
unfolding summarise_employee_month
summarise-eq-sum_rows z rows = simp round1_exact

infixl 65 ◌⊕◌
unfoldable pub ◌⊕◌ : MonthlyEmployeeSummary → MonthlyEmployeeSummary → MonthlyEmployeeSummary
a ⊕ b = record {
  days_worked = a.days_worked + b.days_worked;
  half_days = a.half_days + b.half_days;
  late_count = a.late_count + b.late_count;
  leave = a.leave + b.leave;
  weekly_offs = a.weekly_offs + b.weekly_offs;
  holidays = a.holidays + b.holidays;
  worked_on_holiday = a.worked_on_holiday + b.worked_on_holiday;
  absent = a.absent + b.absent;
  checkout_missing = a.checkout_missing + b.checkout_missing;
}

add_outcome-⊕ :
    (a b : MonthlyEmployeeSummary) (o : DayStatusOutcome)
    → add_outcome (a ⊕ b) o ≡ a ⊕ add_outcome b o
unfolding add_outcome ◌⊕◌
add_outcome-⊕ a b o = ground arith

add_if-⊕ :
    (t : Bool) (a b : MonthlyEmployeeSummary) (o : DayStatusOutcome)
    → (if t then add_outcome (a ⊕ b) o else a ⊕ b) ≡ a ⊕ (if t then add_outcome b o else b)
add_if-⊕ true a b o = add_outcome-⊕ a b o
add_if-⊕ false a b o = refl

sum_rows-⊕ :
    (z : Zone) (a b : MonthlyEmployeeSummary) (rows : List DayGridRow)
    → sum_rows z (a ⊕ b) rows ≡ a ⊕ sum_rows z b rows
unfolding sum_rows add_row
sum_rows-⊕ z a b [] = refl
sum_rows-⊕ z a b (row ∷ rows) =
    ap (λ s. sum_rows z s rows) (add_if-⊕ row.ctx.tracked a b (outcome_for z row))
    ∙ sum_rows-⊕ z a (add_row z b row) rows

⊕-empty : (a : MonthlyEmployeeSummary) → a ≡ a ⊕ empty_summary
unfolding ◌⊕◌
⊕-empty a = ground arith

sum_rows-append :
    (z : Zone) (s : MonthlyEmployeeSummary) (xs ys : List DayGridRow)
    → sum_rows z s (xs ++ ys) ≡ sum_rows z (sum_rows z s xs) ys
unfolding sum_rows
sum_rows-append z s [] ys = refl
sum_rows-append z s (x ∷ xs) ys = sum_rows-append z (add_row z s x) xs ys

-- The summary of a period is the sum of the summaries of its parts.
pub summarise-append :
    (z : Zone) (xs ys : List DayGridRow)
    → summarise_employee_month z (xs ++ ys)
      ≡ summarise_employee_month z xs ⊕ summarise_employee_month z ys
summarise-append z xs ys =
    rw (summarise-eq-sum_rows z (xs ++ ys), summarise-eq-sum_rows z xs, summarise-eq-sum_rows z ys)
      (sum_rows-append z empty_summary xs ys
        ∙ ap (λ s. sum_rows z s ys) (⊕-empty (sum_rows z empty_summary xs))
        ∙ sum_rows-⊕ z (sum_rows z empty_summary xs) empty_summary ys)

add_outcome_comm :
    (s : MonthlyEmployeeSummary) (o p : DayStatusOutcome)
    → add_outcome (add_outcome s o) p ≡ add_outcome (add_outcome s p) o
unfolding add_outcome
add_outcome_comm s o p = ground arith

add_if_comm :
    (t u : Bool) (s : MonthlyEmployeeSummary) (o p : DayStatusOutcome)
    → (if u
        then add_outcome (if t then add_outcome s o else s) p
        else if t
        then add_outcome s o
        else s)
      ≡ (if t
          then add_outcome (if u then add_outcome s p else s) o
          else if u
          then add_outcome s p
          else s)
add_if_comm true true s o p = add_outcome_comm s o p
add_if_comm true false s o p = refl
add_if_comm false u s o p = refl

add_row_comm :
    (z : Zone) (x y : DayGridRow) (s : MonthlyEmployeeSummary)
    → add_row z (add_row z s x) y ≡ add_row z (add_row z s y) x
unfolding add_row
add_row_comm z x y s = add_if_comm x.ctx.tracked y.ctx.tracked s (outcome_for z x) (outcome_for z y)

sum_rows-permᴰ :
    (z : Zone) {xs ys : List DayGridRow}
    → Permᴰ xs ys
    → (s : MonthlyEmployeeSummary) → sum_rows z s xs ≡ sum_rows z s ys
unfolding sum_rows
sum_rows-permᴰ z Permᴰ.nil s = refl
sum_rows-permᴰ z (Permᴰ.cons {a} {b} {l₁} {l₂} e p) s =
    ap (λ r. sum_rows z (add_row z s r) l₁) e ∙ sum_rows-permᴰ z p (add_row z s b)
sum_rows-permᴰ z (Permᴰ.swap {a} {b} {a'} {b'} {l} e f) s =
    ap (λ t. sum_rows z t l)
      (add_row_comm z a b s
        ∙ ap (λ r. add_row z (add_row z s r) a) f
        ∙ ap (λ r. add_row z (add_row z s a') r) e)
sum_rows-permᴰ z (Permᴰ.trans p q) s = sum_rows-permᴰ z p s ∙ sum_rows-permᴰ z q s

MonthlyEmployeeSummary-discrete : Discrete MonthlyEmployeeSummary
MonthlyEmployeeSummary-discrete = hlevel ℕ_discrete

-- The order in which the rows are read does not matter.
pub summarise-perm :
    (z : Zone) {xs ys : List DayGridRow}
    → Perm xs ys
    → summarise_employee_month z xs ≡ summarise_employee_month z ys
summarise-perm z {xs} {ys} p = ∥∥₁_elim p (hedberg MonthlyEmployeeSummary-discrete _ _) (λ q.
    summarise-eq-sum_rows z xs
    ∙ sum_rows-permᴰ z q empty_summary
    ∙ sym (summarise-eq-sum_rows z ys))

abbrev pub tracked_days : List DayGridRow → ℕ
tracked_days [] = 0
tracked_days (row ∷ rows) = (if row.ctx.tracked then 1 else 0) + tracked_days rows

-- The credits of `n` days come to at most `n` days, the counters of half days, weekly offs,
-- holidays and absences together to at most `n`, and so do the late days and the missing check-outs.
pub record IsWithin (n : ℕ) (s : MonthlyEmployeeSummary) : Type 0 where
  pub credit : s.days_worked + s.leave + s.worked_on_holiday ≤ 2 * n
  pub counted : s.half_days + s.weekly_offs + s.holidays + s.absent ≤ n
  pub late : s.late_count ≤ n
  pub missing : s.checkout_missing ≤ n

add_if-IsWithin :
    (t : Bool) (n : ℕ) (s : MonthlyEmployeeSummary) (o : DayStatusOutcome)
    → total_credit o ≤ 2
    → IsWithin n s
    → IsWithin (n + (if t then 1 else 0)) (if t then add_outcome s o else s)
unfolding add_outcome
add_if-IsWithin t n s o c h = ground arith

sum_rows-IsWithin :
    (z : Zone) (n : ℕ) (s : MonthlyEmployeeSummary) (rows : List DayGridRow)
    → IsWithin n s
    → IsWithin (n + tracked_days rows) (sum_rows z s rows)
unfolding sum_rows
sum_rows-IsWithin z n s [] h = omega arith
sum_rows-IsWithin z n s (row ∷ rows) h =
    subst (λ k. IsWithin k (sum_rows z (add_row z s row) rows)) (omega arith)
      (sum_rows-IsWithin z (n + (if row.ctx.tracked then 1 else 0)) (add_row z s row) rows (
        unfold add_row in
        add_if-IsWithin row.ctx.tracked n s (outcome_for z row) (credit-le-one_day z _) h))

-- The summary of a period stays within the number of its tracked days.
pub summarise-IsWithin :
    (z : Zone) (rows : List DayGridRow)
    → IsWithin (tracked_days rows) (summarise_employee_month z rows)
summarise-IsWithin z rows =
    rw (summarise-eq-sum_rows z rows)
      (let within = sum_rows-IsWithin z 0 empty_summary rows (omega arith) in omega arith)
