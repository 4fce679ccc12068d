-- ===== src/DayStatus/OfficeRules/Laws.antt =====
-- Laws of the pickers of src/common/day-status/office-rules.ts.
use fenzit_be.Prelude.{
  ℕ, ◌≡◌, refl, inl, inr, true, false, ◌&&◌, ◌||◌, Option, none, some, List, [], ◌∷◌, arith, ◌==◌,
  exists, Option-cases, Text, codes, text_ltb, text_leb, text_leb_trans, text_ltb_trans,
}
use fenzit_be.DayStatus.Context.{iso_weekday_of, is_weekly_off_day}
use fenzit_be.DayStatus.OfficeRules.{
  DateRange, parse_date_range, range_covers, before_end, covers, insert_day, sort_days,
}

literal_test :
    (range_covers (codes "[2026-09-27,)") (codes "2026-10-01") ≡ some true)
    × (range_covers (codes "[2026-09-27,2026-10-01)") (codes "2026-10-01") ≡ some false)
    × (range_covers (codes "[,2026-10-01)") (codes "2026-10-01") ≡ none)
    × (range_covers (codes "2026-10-01") (codes "2026-10-01") ≡ none)
unfolding range_covers covers parse_date_range
literal_test = (refl, refl, refl, refl)

covers-split_end :
    (start mid anchor : Text) (end : Option Text)
    → text_leb start mid ≡ true
    → before_end mid end ≡ true
    → (text_leb start anchor && before_end anchor end) ≡ (
        text_leb start anchor && text_ltb anchor mid
        || text_leb mid anchor && before_end anchor end)
covers-split_end start mid anchor none lo hi = ground (arith, text_leb_trans start mid anchor)
covers-split_end start mid anchor (some e) lo hi =
    ground (arith, text_leb_trans start mid anchor, text_ltb_trans anchor mid e)

-- A range is the disjoint union of its parts before and from a date inside it.
pub covers-split :
    (r : DateRange) (mid anchor : Text)
    → text_leb r.start mid ≡ true
    → before_end mid r.end ≡ true
    → (covers r anchor
        ≡ (covers (record r { end = some mid }) anchor || covers (record r { start = mid }) anchor))
      × ((covers (record r { end = some mid }) anchor && covers (record r { start = mid }) anchor)
          ≡ false)
unfolding covers
covers-split r mid anchor lo hi = (covers-split_end r.start mid anchor r.end lo hi, ground arith)

exists-insert_day :
    (d e : ℕ) (ds : List ℕ)
    → exists (λ x. x == d) (insert_day e ds) ≡ ((e == d) || exists (λ x. x == d) ds)
unfolding insert_day
exists-insert_day d e [] = refl
exists-insert_day d e (x ∷ xs) = ground (arith, exists-insert_day d e xs)

pub exists-sort_days :
    (d : ℕ) (ds : List ℕ) → exists (λ x. x == d) (sort_days ds) ≡ exists (λ x. x == d) ds
unfolding sort_days
exists-sort_days d [] = refl
exists-sort_days d (x ∷ xs) =
    ground (arith, exists-insert_day d x (sort_days xs), exists-sort_days d xs)

-- Whether a date is a weekly off does not depend on the order in which the days were stored.
pub is_weekly_off_day-sort_days :
    (days : List ℕ) (date : Text)
    → is_weekly_off_day (sort_days days) date ≡ is_weekly_off_day days date
unfolding is_weekly_off_day
is_weekly_off_day-sort_days days date = elim (Option-cases (iso_weekday_of date)) [
  | inl e ↦ rw (e, is_weekly_off_day)
  | inr (n, e) ↦ rw (e, is_weekly_off_day) (exists-sort_days n days)
]
