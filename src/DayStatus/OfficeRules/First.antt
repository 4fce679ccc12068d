-- ===== src/DayStatus/OfficeRules/First.antt =====
-- Which rule pickRuleForDate finds, against the dates of the ranges.

-- From the first date of a range on, and before its end, if it has one.
use fenzit_be.DayStatus.OfficeRules.{
  before_end, parse_date_range, pick_rule_for_date, find_covering, OfficeRuleRow, range_covers,
  covers, DateRange,
}
use fenzit_be.Prelude.{refl}
use fenzit_be.Prelude.{
  [], subst, inr, arith, inl, Bool-cases, and_right, ◌↔◌, Option-cases, false, and_intro, and_left,
  text_ltb, ◌∷◌, some, true, none, Bool, ◌≡◌, List, text_leb, Option, Text,
}

pub data EndsAfter : Text → Option Text → Type 0 where
  never : {anchor : Text} → EndsAfter anchor none
  at : {anchor end : Text} → text_ltb anchor end ≡ true → EndsAfter anchor (some end)

abbrev pub IsInRange : DateRange → Text → Type 0
IsInRange range anchor = (text_leb range.start anchor ≡ true) × EndsAfter anchor range.end

abbrev pub Covered : Text → OfficeRuleRow → Type 0
Covered anchor rule =
    (range : DateRange) × (parse_date_range rule.valid ≡ some range) × IsInRange range anchor

abbrev pub Missed : Text → OfficeRuleRow → Type 0
Missed anchor rule =
    (range : DateRange) × (parse_date_range rule.valid ≡ some range) × (¬ (IsInRange range anchor))

-- The first rule that covers the date; the ones before it can be read and do not cover it.
pub data FirstCovering (anchor : Text) : List OfficeRuleRow → OfficeRuleRow → Type 0 where
  first :
      {rule : OfficeRuleRow} {rules : List OfficeRuleRow}
      → Covered anchor rule
      → FirstCovering anchor (rule ∷ rules) rule
  later :
      {other rule : OfficeRuleRow} {rules : List OfficeRuleRow}
      → Missed anchor other
      → FirstCovering anchor rules rule
      → FirstCovering anchor (other ∷ rules) rule

before_end-EndsAfter :
    (anchor : Text) (end : Option Text) → before_end anchor end ≡ true → EndsAfter anchor end
before_end-EndsAfter anchor none h = never
before_end-EndsAfter anchor (some e) h = at h

EndsAfter-before_end :
    {anchor : Text} {end : Option Text} → EndsAfter anchor end → before_end anchor end ≡ true
EndsAfter-before_end never = refl
EndsAfter-before_end (at h) = h

covers-IsInRange :
    (range : DateRange) (anchor : Text) → covers range anchor ≡ true → IsInRange range anchor
unfolding covers
covers-IsInRange range anchor h =
    (and_left _ _ h, before_end-EndsAfter anchor range.end (and_right _ _ h))

IsInRange-covers :
    (range : DateRange) (anchor : Text) → IsInRange range anchor → covers range anchor ≡ true
unfolding covers
IsInRange-covers range anchor (lo, hi) = and_intro lo (EndsAfter-before_end hi)

Covered-range_covers :
    (anchor : Text) (rule : OfficeRuleRow)
    → Covered anchor rule
    → range_covers rule.valid anchor ≡ some true
unfolding range_covers
Covered-range_covers anchor rule (range, e, inside) =
    rw (range_covers, e, IsInRange-covers range anchor inside) refl

Missed-range_covers :
    (anchor : Text) (rule : OfficeRuleRow)
    → Missed anchor rule
    → range_covers rule.valid anchor ≡ some false
unfolding range_covers
Missed-range_covers anchor rule (range, e, outside) = elim (Bool-cases (covers range anchor)) [
  | inl on ↦ absurd (outside (covers-IsInRange range anchor on))
  | inr off ↦ rw (range_covers, e, off) refl
]

range_covers-parsed :
    (anchor : Text) (rule : OfficeRuleRow) {b : Bool}
    → range_covers rule.valid anchor ≡ some b
    → (range : DateRange) × (parse_date_range rule.valid ≡ some range) × (covers range anchor ≡ b)
unfolding range_covers
range_covers-parsed anchor rule h = elim (Option-cases (parse_date_range rule.valid)) [
  | inl e ↦ absurd (ground arith)
  | inr (range, e) ↦ (range, e, ground arith)
]

abbrev valid_of : OfficeRuleRow → Text
valid_of r = r.valid

find_covering-FirstCovering :
    (anchor : Text) (rules : List OfficeRuleRow) {rule : OfficeRuleRow}
    → find_covering valid_of rules anchor ≡ some (some rule)
    → FirstCovering anchor rules rule
unfolding find_covering
find_covering-FirstCovering anchor [] h = cc
find_covering-FirstCovering anchor (r ∷ rules) {rule} h =
    elim (Option-cases (range_covers r.valid anchor)) [
      | inl e ↦ absurd (ground arith)
      | inr (true, e) ↦
          let same : r ≡ rule = ground arith in
          let (range, p, on) = range_covers-parsed anchor r e in
          subst (FirstCovering anchor (r ∷ rules)) same
            (first (range, p, covers-IsInRange range anchor on))
      | inr (false, e) ↦
          let (range, p, off) = range_covers-parsed anchor r e in
          later (range, p, λ inside. absurd (ground (arith, IsInRange-covers range anchor inside)))
            (find_covering-FirstCovering anchor rules (ground arith))
    ]

FirstCovering-find_covering :
    (anchor : Text) {rules : List OfficeRuleRow} {rule : OfficeRuleRow}
    → FirstCovering anchor rules rule
    → find_covering valid_of rules anchor ≡ some (some rule)
unfolding find_covering
FirstCovering-find_covering anchor {rule} (first c) =
    rw (find_covering, Covered-range_covers anchor rule c) refl
FirstCovering-find_covering anchor (later {other} m f) =
    rw (find_covering, Missed-range_covers anchor other m) (FirstCovering-find_covering anchor f)

-- A rule is picked for a date exactly when it is the first of the list whose range can be read and
-- contains the date, from its first date on and before its end, and the ranges before it can be read and
-- do not.
pub pick_rule_for_date_iff :
    (rules : List OfficeRuleRow) (anchor : Text) (rule : OfficeRuleRow)
    → (pick_rule_for_date rules anchor ≡ some (some rule)) ↔ FirstCovering anchor rules rule
unfolding pick_rule_for_date
pick_rule_for_date_iff rules anchor rule =
    (find_covering-FirstCovering anchor rules, FirstCovering-find_covering anchor)
