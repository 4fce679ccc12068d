-- ===== src/Attendance/Leave/Actions/Select.antt =====
-- Which rows an action writes: the dates that it reads off the source days select, in the guarded
-- UPDATE of `transitionLeaveDays`, exactly the rows that they were read from.
use fenzit_be.Prelude.{
  ◌≡◌, refl, ap, ◌∙◌, sym, Bool, true, ◌&&◌, List, [], ◌∷◌, map, arith, length, exists, keep, In,
  here, there, Text, text_eq, text_eq→eq, text_eq_self,
}
use fenzit_be.Attendance.Leave.Types.{LeaveDayState, in_states, LeaveDayRow}
use fenzit_be.Attendance.Leave.Transition.{listed, is_target, set_state, date_of}
use fenzit_be.Attendance.Leave.Actions.{insert_row, sort_rows, of_request}

module _ {A : Type 0} where
  pub keep-ext :
      (p q : A → Bool) (xs : List A) → ((x : A) → In x xs → p x ≡ q x) → keep p xs ≡ keep q xs
  keep-ext p q [] h = refl
  keep-ext p q (x ∷ xs) h = ground (arith, h x here, keep-ext p q xs (λ y m. h y (there m)))

  pub keep-keep : (p q : A → Bool) (xs : List A) → keep q (keep p xs) ≡ keep (λ x. p x && q x) xs
  keep-keep p q [] = refl
  keep-keep p q (x ∷ xs) = ground (arith, keep-keep p q xs)

  pub exists-keep :
      (f p : A → Bool) (xs : List A) → exists f (keep p xs) ≡ exists (λ x. p x && f x) xs
  exists-keep f p [] = refl
  exists-keep f p (x ∷ xs) = ground (arith, exists-keep f p xs)

  pub exists-In : (f : A → Bool) {x : A} {xs : List A} → In x xs → f x ≡ true → exists f xs ≡ true
  exists-In f here h = rw h
  exists-In f (there m) h = ground (arith, exists-In f m h)

  pub length-map : {B : Type 0} (f : A → B) (xs : List A) → length (map f xs) ≡ length xs
  length-map f [] = refl
  length-map f (x ∷ xs) = omega (arith, length-map f xs)

pub listed-map :
    (rows : List LeaveDayRow) (d : Text)
    → listed (map date_of rows) d ≡ exists (λ (r : LeaveDayRow). text_eq d r.leave_date) rows
listed-map [] d = refl
listed-map (r ∷ rows) d = ground (arith, listed-map rows d)

length-keep-insert_row :
    (q : LeaveDayRow → Bool) (r : LeaveDayRow) (rows : List LeaveDayRow)
    → length (keep q (insert_row r rows)) ≡ length (keep q (r ∷ rows))
unfolding insert_row
length-keep-insert_row q r [] = refl
length-keep-insert_row q r (x ∷ rows) = ground (arith, length-keep-insert_row q r rows)

pub length-keep-sort_rows :
    (q : LeaveDayRow → Bool) (rows : List LeaveDayRow)
    → length (keep q (sort_rows rows)) ≡ length (keep q rows)
unfolding sort_rows
length-keep-sort_rows q [] = refl
length-keep-sort_rows q (r ∷ rows) =
    ground (arith, length-keep-insert_row q r (sort_rows rows), length-keep-sort_rows q rows)

exists-insert_row :
    (f : LeaveDayRow → Bool) (r : LeaveDayRow) (rows : List LeaveDayRow)
    → exists f (insert_row r rows) ≡ exists f (r ∷ rows)
unfolding insert_row
exists-insert_row f r [] = refl
exists-insert_row f r (x ∷ rows) = ground (arith, exists-insert_row f r rows)

pub exists-sort_rows :
    (f : LeaveDayRow → Bool) (rows : List LeaveDayRow) → exists f (sort_rows rows) ≡ exists f rows
unfolding sort_rows
exists-sort_rows f [] = refl
exists-sort_rows f (r ∷ rows) =
    ground (arith, exists-insert_row f r (sort_rows rows), exists-sort_rows f rows)

-- The dates of the source days (those of the request in `states`) that pass `q`.
module _ (id : Text) (states : List LeaveDayState) (q : Text → Bool) (days : List LeaveDayRow) where
  abbrev pub is_source : LeaveDayRow → Bool
  is_source r = of_request id r && in_states states r.state

  abbrev pub is_chosen : LeaveDayRow → Bool
  is_chosen r = is_source r && q r.leave_date

  abbrev pub chosen_dates : List Text
  chosen_dates =
      map date_of (keep (λ (r : LeaveDayRow). q r.leave_date) (sort_rows (keep is_source days)))

  abbrev hits : Text → LeaveDayRow → Bool
  hits d r = q r.leave_date && text_eq d r.leave_date

  listed-chosen : (d : Text) → listed chosen_dates d ≡ exists (λ r. is_source r && hits d r) days
  listed-chosen d =
      listed-map (keep (λ (r : LeaveDayRow). q r.leave_date) (sort_rows (keep is_source days))) d
      ∙ exists-keep (λ (r : LeaveDayRow). text_eq d r.leave_date) (λ r. q r.leave_date) _
      ∙ exists-sort_rows (hits d) (keep is_source days)
      ∙ exists-keep (hits d) is_source days

  passes-of-hits :
      (d : Text) (rows : List LeaveDayRow)
      → exists (λ r. is_source r && hits d r) rows ≡ true
      → q d ≡ true
  passes-of-hits d [] h = cc
  passes-of-hits d (r ∷ rows) h = ground (arith, passes-of-hits d rows, text_eq→eq d r.leave_date)

  chosen-is_target :
      (r : LeaveDayRow) → In r days → is_target id chosen_dates states r ≡ is_chosen r
  unfolding is_target
  chosen-is_target r m = ground (
    arith,
    listed-chosen r.leave_date,
    passes-of-hits r.leave_date days,
    text_eq_self r.leave_date,
    exists-In (λ r'. is_source r' && hits r.leave_date r') m,
  )

  pub keep-chosen : keep (is_target id chosen_dates states) days ≡ keep is_chosen days
  keep-chosen = keep-ext _ _ days chosen-is_target

  map-ext :
      (p p' : LeaveDayRow → Bool) (to : LeaveDayState) (rows : List LeaveDayRow)
      → ((r : LeaveDayRow) → In r rows → p r ≡ p' r)
      → map (set_state p to) rows ≡ map (set_state p' to) rows
  unfolding set_state
  map-ext p p' to [] h = refl
  map-ext p p' to (r ∷ rows) h =
      ground (arith, h r here, map-ext p p' to rows (λ x m. h x (there m)))

  pub set_state-chosen :
      (to : LeaveDayState)
      → map (set_state (is_target id chosen_dates states) to) days
        ≡ map (set_state is_chosen to) days
  set_state-chosen to = map-ext _ _ to days chosen-is_target

  pub length-chosen : length (keep is_chosen days) ≡ length chosen_dates
  length-chosen = sym (
      length-map date_of
        (keep (λ (r : LeaveDayRow). q r.leave_date) (sort_rows (keep is_source days)))
      ∙ length-keep-sort_rows (λ r. q r.leave_date) (keep is_source days)
      ∙ ap length (keep-keep is_source (λ r. q r.leave_date) days))
