-- ===== src/Attendance/Enrolments/Equivalence.antt =====
-- The statements of a plan cut the ranges of an employee exactly as the reference does.
use fenzit_be.Attendance.Enrolments.Service.{run_plan, insert_step, Change, change_rows, clip_step}
use fenzit_be.DayStatus.OfficeRules.{before_end}
use fenzit_be.Attendance.Enrolments.Plan.{
  covering_of, Ad8Plan, plan_of, plan_ad8_change, id_of, is_clipped,
  parse_date_range-serialize_date_range, delete_ids_of, includes, ParsedRow, parse_rows,
}
use fenzit_be.Attendance.Enrolments.Cut.{
  ends_by, is_before, cut_row, cut_rows, is_exclusive-In, is_date_range, is_exclusive,
}
use fenzit_be.Attendance.Enrolments.Tables.{
  Server, clipped, is_kept, clip_range_end, delete_ranges, read_rows, is_of, RangeRow,
}
use mathlib.Core.Option
use fenzit_be.Prelude.{
  text_eq_common, find-eq-some, find-eq-none, is_some, none, text_ltb_trans, not, if◌then◌else◌,
  map-keep_ext, false, Option, exists-In, text_eq_self, ap, sym, inr, exists-witness, inl, text_ltb,
  Bool-cases, here, [], there, arith, ◌∙◌, text_eq, some, ◌∷◌, exists, text_leb, In, ◌&&◌, keep,
  true, find, map, ◌≡◌, Bool, List, Text, refl,
}

abbrev to_parsed : RangeRow → ParsedRow
to_parsed r = record { id = r.id; range = r.valid }

is_exclusive-dates :
    (rows : List RangeRow) {r : RangeRow}
    → is_exclusive rows ≡ true
    → In r rows
    → is_date_range r.valid ≡ true
unfolding is_exclusive
is_exclusive-dates [] h m = elim m [ ]
is_exclusive-dates (x ∷ rows) h here = ground arith
is_exclusive-dates (x ∷ rows) h (there m) = is_exclusive-dates rows (ground arith) m

-- The ranges of a table are read back as they are stored.
parse_rows-read_rows :
    (employee_id : Text) (rows : List RangeRow)
    → is_exclusive rows ≡ true
    → parse_rows (read_rows rows employee_id) ≡ some (map to_parsed (keep (is_of employee_id) rows))
unfolding parse_rows is_exclusive
parse_rows-read_rows e [] h = refl
parse_rows-read_rows e (r ∷ rows) h = ground (
  arith,
  parse_rows-read_rows e rows,
  parse_date_range-serialize_date_range r.valid (ground arith) (ground arith),
)

ends_by-crossing :
    (from start : Text) (end : Option Text)
    → text_ltb start from ≡ true
    → before_end from end ≡ true
    → ends_by start end ≡ false
ends_by-crossing from start none lo hi = refl
ends_by-crossing from start (some e) lo hi = ground (arith, text_ltb_trans start from e)

-- A key finds the row itself.
same_row :
    (rows : List RangeRow) {r : RangeRow}
    → is_exclusive rows ≡ true
    → In r rows
    → (p : RangeRow → Bool) → exists (λ s. p s && text_eq r.id s.id) rows ≡ p r
same_row rows {r} h m p = elim (Bool-cases (exists (λ s. p s && text_eq r.id s.id) rows)) [
  | inl e ↦
      let (s, n, q) = exists-witness (λ s. p s && text_eq r.id s.id) rows e in
      elim (is_exclusive-In rows h m n) [
        | inl eq ↦ let on : p s ≡ true = ground arith in e ∙ sym (ap p eq ∙ on)
        | inr sep ↦ absurd (ground arith)
      ]
  | inr e ↦ elim (Bool-cases (p r)) [
    | inl on ↦
        let here' : (p r && text_eq r.id r.id) ≡ true = ground (arith, text_eq_self r.id) in
        absurd (ground (arith, exists-In (λ s. p s && text_eq r.id s.id) m here'))
    | inr off ↦ e ∙ sym off
  ]
]

module _ (employee_id from : Text) where
  abbrev own : List RangeRow → List ParsedRow
  own rows = map to_parsed (keep (is_of employee_id) rows)

  abbrev is_future : RangeRow → Bool
  is_future r = is_of employee_id r && text_leb from r.valid.start

  includes-delete_ids :
      (id : Text) (rows : List RangeRow)
      → includes (delete_ids_of from (own rows)) id
        ≡ exists (λ r. is_future r && text_eq id r.id) rows
  includes-delete_ids id [] = refl
  includes-delete_ids id (r ∷ rows) = ground (arith, includes-delete_ids id rows)

  -- The ids that are deleted are those of the employee's ranges that start on the date or later.
  delete_ids-In :
      (rows : List RangeRow) {r : RangeRow}
      → is_exclusive rows ≡ true
      → In r rows
      → includes (delete_ids_of from (own rows)) r.id ≡ is_future r
  delete_ids-In rows {r} h m = includes-delete_ids r.id rows ∙ same_row rows h m (λ s. is_future s)

  find-own :
      (p : ParsedRow → Bool) (rows : List RangeRow)
      → find p (own rows)
        ≡ Option.map to_parsed (find (λ r. is_of employee_id r && p (to_parsed r)) rows)
  find-own p [] = refl
  find-own p (r ∷ rows) = ground (arith, find-own p rows)

  abbrev is_crossing : RangeRow → Bool
  is_crossing r =
      is_of employee_id r && (text_ltb r.valid.start from && before_end from r.valid.end)

  -- Two ranges that contain the day before the date and the date itself are one.
  crossing_unique :
      (rows : List RangeRow) {r s : RangeRow}
      → is_exclusive rows ≡ true
      → In r rows
      → In s rows
      → is_crossing r ≡ true
      → is_crossing s ≡ true
      → r ≡ s
  crossing_unique rows {r} {s} h m n on on' = elim (is_exclusive-In rows h m n) [
    | inl eq ↦ eq
    | inr sep ↦ absurd (
        ground (
          arith,
          text_eq_common r.employee_id s.employee_id employee_id,
          ends_by-crossing from s.valid.start r.valid.end,
          ends_by-crossing from r.valid.start s.valid.end,
        ))
  ]

  -- The range that the plan clips is one that crosses the date, and every such range is found.
  is_clipped-crossing :
      (rows : List RangeRow) {r : RangeRow}
      → is_exclusive rows ≡ true
      → In r rows
      → (is_of employee_id r && is_clipped (delete_ids_of from (own rows)) from (to_parsed r))
        ≡ is_crossing r
  is_clipped-crossing rows {r} h m = ground (arith, delete_ids-In rows h m)

  keep_all : (rows : List RangeRow) → keep (is_kept []) rows ≡ rows
  keep_all [] = refl
  keep_all (r ∷ rows) = ap (λ rest. r ∷ rest) (keep_all rows)

  delete_ranges-keep :
      (ids : List Text) (rows : List RangeRow) → delete_ranges ids rows ≡ keep (is_kept ids) rows
  unfolding delete_ranges
  delete_ranges-keep [] rows = sym (keep_all rows)
  delete_ranges-keep (id ∷ ids) rows = refl

  -- The key of the range that crosses the date names no other range.
  clip_test :
      (rows : List RangeRow) {r c : RangeRow}
      → is_exclusive rows ≡ true
      → In r rows
      → In c rows
      → is_crossing c ≡ true
      → text_eq r.id c.id ≡ is_crossing r
  clip_test rows {r} {c} h n m on = elim (is_exclusive-In rows h n m) [
    | inl eq ↦
        (ap (λ (s : RangeRow). text_eq s.id c.id) eq ∙ text_eq_self c.id)
        ∙ sym (ap is_crossing eq ∙ on)
    | inr sep ↦ elim (Bool-cases (is_crossing r)) [
      | inl on_it ↦ absurd (
          ground (
            arith,
            ap (λ (s : RangeRow). text_eq s.id c.id) (crossing_unique rows h n m on_it on)
                ∙ text_eq_self c.id,
          ))
      | inr off_it ↦ ground arith
    ]
  ]

  cut_row-crossing :
      (r : RangeRow)
      → is_before employee_id from r ≡ true
      → cut_row employee_id from r
        ≡ (if is_crossing r then record r { valid = clipped from r.valid } else r)
  cut_row-crossing r before = elim (Bool-cases (is_of employee_id r)) [
    | inr off_it ↦ rw off_it refl
    | inl on_it ↦ elim (Bool-cases (before_end from r.valid.end)) [
      | inl over ↦
          let earlier : text_ltb r.valid.start from ≡ true = ground arith in
          rw (on_it, over, earlier) refl
      | inr past ↦
          let earlier : text_ltb r.valid.start from ≡ true = ground arith in
          rw (on_it, past, earlier) refl
    ]
  ]

  clipped_rows :
      (rows : List RangeRow) (c : RangeRow)
      → is_exclusive rows ≡ true
      → In c rows
      → is_crossing c ≡ true
      → clip_range_end c.id from (keep (is_kept (delete_ids_of from (own rows))) rows)
        ≡ cut_rows employee_id from rows
  unfolding clip_range_end cut_rows
  clipped_rows rows c h m on =
      map-keep_ext
        (λ (r : RangeRow).
          if text_eq r.id c.id then record r { valid = clipped from r.valid } else r)
        (cut_row employee_id from) (is_kept (delete_ids_of from (own rows)))
        (is_before employee_id from) rows (λ r n. ap not (delete_ids-In rows h n))
        (λ r n before. rw (clip_test rows h n m on) (sym (cut_row-crossing r before)))

  map_self : (rows : List RangeRow) → map (λ r. r) rows ≡ rows
  map_self [] = refl
  map_self (r ∷ rows) = ap (λ rest. r ∷ rest) (map_self rows)

  kept_rows :
      (rows : List RangeRow)
      → is_exclusive rows ≡ true
      → ((r : RangeRow) → In r rows → is_crossing r ≡ false)
      → keep (is_kept (delete_ids_of from (own rows))) rows ≡ cut_rows employee_id from rows
  unfolding cut_rows
  kept_rows rows h off =
      sym (map_self _)
      ∙ map-keep_ext (λ r. r) (cut_row employee_id from) (is_kept (delete_ids_of from (own rows)))
          (is_before employee_id from) rows (λ r n. ap not (delete_ids-In rows h n))
          (λ r n before. sym (rw (off r n) at (cut_row-crossing r before)))

  -- Deleting the future ranges and clipping the one that crosses the date cuts every range at it.
  clip_step-delete_ranges :
      (rows : List RangeRow) (covering : Option RangeRow)
      → is_exclusive rows ≡ true
      → find
          (λ r.
            is_of employee_id r && is_clipped (delete_ids_of from (own rows)) from (to_parsed r))
          rows
        ≡ covering
      → clip_step
          (Option.map id_of (Option.map to_parsed covering))
          (if is_some (Option.map to_parsed covering) then some from else none)
          (delete_ranges (delete_ids_of from (own rows)) rows)
        ≡ cut_rows employee_id from rows
  clip_step-delete_ranges rows none h e =
      delete_ranges-keep _ rows
      ∙ kept_rows rows h (λ r n. sym (is_clipped-crossing rows h n) ∙ find-eq-none _ rows e n)
  clip_step-delete_ranges rows (some c) h e =
      let (on, m) = find-eq-some _ rows c e in
      ap (clip_range_end c.id from) (delete_ranges-keep _ rows)
      ∙ clipped_rows rows c h m (sym (is_clipped-crossing rows h m) ∙ on)

plan_ad8_change-read_rows :
    (rows : List RangeRow) (employee_id from : Text) (insert : Bool)
    → is_exclusive rows ≡ true
    → plan_ad8_change (read_rows rows employee_id) from insert
      ≡ some (
          plan_of
            (delete_ids_of from (own employee_id from rows))
            (covering_of from (own employee_id from rows))
            from
            insert)
unfolding plan_ad8_change
plan_ad8_change-read_rows rows employee_id from insert h =
    rw (plan_ad8_change, parse_rows-read_rows employee_id rows h) refl

-- The rows of a change, by the reference: every range of the employee is cut at the date, and the new
-- row, if the change inserts one, is open from it.
abbrev pub cut_and_insert : Server → Change → Bool → List RangeRow → List RangeRow
cut_and_insert server c is_assignment rows =
    insert_step server c.tenant_id c.employee_id c.office_id
      (if c.insert then some c.effective_from else none) is_assignment
      (cut_rows c.employee_id c.effective_from rows)

-- A change of a table that the database admits does not fail, and its few statements leave the rows of
-- the reference.
pub change_rows-cut_and_insert :
    (server : Server) (c : Change) (is_assignment : Bool) (rows : List RangeRow)
    → is_exclusive rows ≡ true
    → change_rows server c is_assignment rows ≡ some (cut_and_insert server c is_assignment rows)
unfolding change_rows run_plan
change_rows-cut_and_insert server c is_assignment rows h =
    ap
      (Option.map (λ (plan : Ad8Plan).
        run_plan server c.tenant_id c.employee_id c.office_id is_assignment plan rows))
      (plan_ad8_change-read_rows rows c.employee_id c.effective_from c.insert h)
    ∙ ap
        (λ kept. some (
          insert_step server c.tenant_id c.employee_id c.office_id
            (if c.insert then some c.effective_from else none) is_assignment kept))
        (rw
          (find-own c.employee_id c.effective_from
            (is_clipped (delete_ids_of c.effective_from (own c.employee_id c.effective_from rows))
              c.effective_from)
            rows)
          (clip_step-delete_ranges c.employee_id c.effective_from rows _ h refl))
