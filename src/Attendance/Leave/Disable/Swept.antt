-- ===== src/Attendance/Leave/Disable/Swept.antt =====
-- What a disabling of an employee cancels, day by day.

use fenzit_be.Attendance.Leave.Actions.Select.{listed-map}
use fenzit_be.Prelude.{
  text_eq_self, exists-In, and_right, and_intro, and_left, exists-witness, keep, text_eq_common,
  refl, here, there,
}
use fenzit_be.Attendance.Leave.Disable.{
  is_pending_of, is_approved_from, sweep_of, has_dates, disable_core, dates_of,
}
use fenzit_be.Attendance.Errors.{Result-cases, returned}
use fenzit_be.Attendance.Leave.Disable.Once.{
  exists-and, listed-length, one_day, exists-map, listed-append, listed-sort_dates, exists-keep,
  has_key_once,
}
use fenzit_be.Attendance.Leave.Transition.{
  TransitionCore, sort_dates, write_event_and_notification, listed, transition_leave_days,
  set_state, is_target,
}
use fenzit_be.Attendance.Leave.Disable.{
  cancel_sweep, cancel_leave_on_disable, cancel_sweeps, find_days_for_disable_sweep, DisableSweep,
}
use fenzit_be.Attendance.Leave.Types.{
  revoked, rejected, in_states, approved, pending, same_state, cancelled, LeaveDb, LeaveRequestRow,
  LeaveDayState, LeaveDayRow,
}
use fenzit_be.Prelude.{
  inr, ◌∙◌, arith, inl, sym, text_leb, [], there, Bool-cases, here, ◌||◌, ap, ◌++◌, ℕ, In, map, ◌∷◌,
  false, true, exists, ◌&&◌, ◌≡◌, text_eq, Bool, List, Text,
}

abbrev is_request_of : Text → Text → LeaveRequestRow → Bool
is_request_of tenant_id employee_id r =
    text_eq r.tenant_id tenant_id && text_eq r.employee_id employee_id

-- The days that a disabling from a date cancels: those of the employee's requests that are pending, and
-- those that are approved on the date or later.
unfoldable pub is_swept :
    List LeaveRequestRow → (tenant_id employee_id from : Text) → LeaveDayRow → Bool
is_swept requests tenant_id employee_id from d =
    exists
      (λ (r : LeaveRequestRow).
        text_eq r.tenant_id tenant_id
        && (text_eq r.employee_id employee_id && text_eq d.leave_request_id r.id))
      requests
    && (same_state pending d.state || (same_state approved d.state && text_leb from d.leave_date))

-- The days that the sweep of one request sets.
abbrev hits : LeaveDayRow → DisableSweep → Bool
hits d s =
    is_target s.request_id (sort_dates (s.pending_dates ++ s.approved_dates))
      (pending ∷ approved ∷ []) d

listed-dates_of :
    (rows : List LeaveDayRow) (p : LeaveDayRow → Bool) {d : LeaveDayRow}
    → has_key_once rows ≡ true
    → In d rows
    → ((x : LeaveDayRow) → p x ≡ true → text_eq d.leave_request_id x.leave_request_id ≡ true)
    → listed (dates_of rows p) d.leave_date ≡ p d
listed-dates_of rows p {d} key m own =
    let seen =
      listed-map (keep p rows) d.leave_date
      ∙ exists-keep (λ (x : LeaveDayRow). text_eq d.leave_date x.leave_date) p rows in
    elim (Bool-cases (exists (λ x. p x && text_eq d.leave_date x.leave_date) rows)) [
      | inl e ↦
          let (x, n, q) = exists-witness (λ x. p x && text_eq d.leave_date x.leave_date) rows e in
          let on : p x ≡ true = and_left _ _ q in
          let same = one_day rows key m n (and_intro (own x on) (and_right _ _ q)) in
          seen ∙ e ∙ sym (ap p same ∙ on)
      | inr e ↦ elim (Bool-cases (p d)) [
        | inl on ↦ absurd (
            ground (
              arith,
              exists-In (λ x. p x && text_eq d.leave_date x.leave_date) m
                  (and_intro on (text_eq_self d.leave_date)),
            ))
        | inr off ↦ seen ∙ e ∙ sym off
      ]
    ]

is_pending_of-own :
    (id : Text) (d x : LeaveDayRow)
    → text_eq d.leave_request_id id ≡ true
    → is_pending_of id x ≡ true
    → text_eq d.leave_request_id x.leave_request_id ≡ true
is_pending_of-own id d x e h =
    text_eq_common d.leave_request_id x.leave_request_id id e (and_left _ _ h)

is_approved_from-own :
    (id from : Text) (d x : LeaveDayRow)
    → text_eq d.leave_request_id id ≡ true
    → is_approved_from id from x ≡ true
    → text_eq d.leave_request_id x.leave_request_id ≡ true
is_approved_from-own id from d x e h =
    text_eq_common d.leave_request_id x.leave_request_id id e (and_left _ _ h)

-- A day is in the sweep of its request when it is pending, or approved on the date or later.
listed-sweep_of :
    (db : LeaveDb) (from : Text) (r : LeaveRequestRow) {d : LeaveDayRow}
    → has_key_once db.days ≡ true
    → In d db.days
    → text_eq d.leave_request_id r.id ≡ true
    → listed
        (sort_dates ((sweep_of db from r).pending_dates ++ (sweep_of db from r).approved_dates))
        d.leave_date
      ≡ (is_pending_of r.id d || is_approved_from r.id from d)
unfolding sweep_of
listed-sweep_of db from r {d} key m e =
    listed-sort_dates _ d.leave_date
    ∙ listed-append (dates_of db.days (is_pending_of r.id))
        (dates_of db.days (is_approved_from r.id from)) d.leave_date
    ∙ rw
        (
          listed-dates_of db.days (is_pending_of r.id) key m (λ x. is_pending_of-own r.id d x e),
          listed-dates_of db.days (is_approved_from r.id from) key m
              (λ x. is_approved_from-own r.id from d x e),
        )
        refl

has_dates-listed :
    (s : DisableSweep) (x : Text)
    → listed (sort_dates (s.pending_dates ++ s.approved_dates)) x ≡ true
    → has_dates s ≡ true
has_dates-listed s x h =
    let either =
      sym (
        listed-sort_dates (s.pending_dates ++ s.approved_dates) x
        ∙ listed-append s.pending_dates s.approved_dates x)
      ∙ h in
    ground (arith, listed-length s.pending_dates x, listed-length s.approved_dates x)

sweep_bools :
    (state : LeaveDayState) (own on_list any late : Bool)
    → (on_list ≡ true → any ≡ true)
    → (own ≡ true
        → on_list
          ≡ ((own && same_state pending state) || (own && (same_state approved state && late))))
    → (any && (own && on_list && in_states (pending ∷ approved ∷ []) state))
      ≡ (own && (same_state pending state || (same_state approved state && late)))
sweep_bools pending own on_list any late h k = ground arith
sweep_bools approved own on_list any late h k = ground arith
sweep_bools rejected own on_list any late h k = ground arith
sweep_bools cancelled own on_list any late h k = ground arith
sweep_bools revoked own on_list any late h k = ground arith

-- The days that the sweep of a request hits, by their state and date.
hits-sweep_of :
    (db : LeaveDb) (from : Text) (r : LeaveRequestRow) {d : LeaveDayRow}
    → has_key_once db.days ≡ true
    → In d db.days
    → (has_dates (sweep_of db from r) && hits d (sweep_of db from r)) ≡ (
        text_eq d.leave_request_id r.id
        && (same_state pending d.state
            || (same_state approved d.state && text_leb from d.leave_date)))
unfolding is_target sweep_of
hits-sweep_of db from r {d} key m =
    sweep_bools d.state (text_eq d.leave_request_id r.id)
      (listed
        (sort_dates ((sweep_of db from r).pending_dates ++ (sweep_of db from r).approved_dates))
        d.leave_date)
      (has_dates (sweep_of db from r)) (text_leb from d.leave_date)
      (has_dates-listed (sweep_of db from r) d.leave_date) (listed-sweep_of db from r key m)

exists-find_days :
    (db : LeaveDb) (t e from : Text) {d : LeaveDayRow}
    → has_key_once db.days ≡ true
    → In d db.days
    → exists (hits d) (find_days_for_disable_sweep db t e from) ≡ is_swept db.requests t e from d
unfolding find_days_for_disable_sweep is_swept
exists-find_days db t e from {d} key m =
    exists-keep (hits d) has_dates (map (sweep_of db from) (keep (is_request_of t e) db.requests))
    ∙ exists-map (λ s. has_dates s && hits d s) (sweep_of db from)
        (keep (is_request_of t e) db.requests)
    ∙ exists-keep (λ r. has_dates (sweep_of db from r) && hits d (sweep_of db from r))
        (is_request_of t e) db.requests
    ∙ exists-and
        (λ (r : LeaveRequestRow).
          text_eq r.tenant_id t && (text_eq r.employee_id e && text_eq d.leave_request_id r.id))
        _
        (same_state pending d.state || (same_state approved d.state && text_leb from d.leave_date))
        db.requests (λ r. ground (arith, hits-sweep_of db from r key m))

no_change :
    (p : LeaveDayRow → Bool) (rows : List LeaveDayRow)
    → ((d : LeaveDayRow) → p d ≡ false)
    → map (set_state p cancelled) rows ≡ rows
unfolding set_state
no_change p [] off = refl
no_change p (d ∷ rows) off = rw (off d) (ap (λ rest. d ∷ rest) (no_change p rows off))

both : {x y : LeaveDayRow} {xs ys : List LeaveDayRow} → x ≡ y → xs ≡ ys → (x ∷ xs) ≡ (y ∷ ys)
both e f = λ i. e i ∷ f i

set_twice :
    (p q : LeaveDayRow → Bool) (d : LeaveDayRow)
    → set_state q cancelled (set_state p cancelled d) ≡ set_state (λ x. p x || q x) cancelled d
unfolding set_state
set_twice p q d = elim (Bool-cases (p d)) [
  | inl on ↦ elim (Bool-cases (q (record d { state = cancelled }))) [
    | inl e ↦ rw (on, e) refl
    | inr e ↦ rw (on, e) refl
  ]
  | inr off ↦ rw (off) refl
]

set_state-same :
    (p q : LeaveDayRow → Bool) (d : LeaveDayRow)
    → p d ≡ q d
    → set_state p cancelled d ≡ set_state q cancelled d
unfolding set_state
set_state-same p q d e = rw (e) refl

transition-days :
    (db : LeaveDb) (core : TransitionCore) (dates : List Text) {x : List Text × LeaveDb}
    → transition_leave_days db core dates (pending ∷ approved ∷ []) cancelled ≡ returned x
    → x.1.days
      ≡ map
          (set_state (is_target core.leave_request_db_id dates (pending ∷ approved ∷ [])) cancelled)
          db.days
unfolding transition_leave_days write_event_and_notification is_target
transition-days db core [] {x} h =
    let e : ([], db) ≡ x = cc in
    ap (λ (y : List Text × LeaveDb). y.1.days) (sym e)
    ∙ sym (no_change _ db.days (λ d. ground arith))
transition-days db core (d ∷ ds) {x} h = ground arith

twice :
    (p q : LeaveDayRow → Bool) (rows : List LeaveDayRow)
    → map (set_state q cancelled) (map (set_state p cancelled) rows)
      ≡ map (set_state (λ d. p d || q d) cancelled) rows
twice p q [] = refl
twice p q (d ∷ rows) = both (set_twice p q d) (twice p q rows)

cancel_sweeps-days :
    (t e : Text) (db : LeaveDb) (ss : List DisableSweep) {db' : LeaveDb}
    → cancel_sweeps t e db ss ≡ returned db'
    → db'.days ≡ map (set_state (λ d. exists (hits d) ss) cancelled) db.days
unfolding cancel_sweeps cancel_sweep disable_core
cancel_sweeps-days t e db [] {db'} h =
    let e : db ≡ db' = cc in
    ap (λ (l : LeaveDb). l.days) (sym e) ∙ sym (no_change _ db.days (λ d. refl))
cancel_sweeps-days t e db (s ∷ ss) {db'} h =
    elim (Result-cases (
      transition_leave_days db (disable_core t e s)
        (sort_dates (s.pending_dates ++ s.approved_dates)) (pending ∷ approved ∷ []) cancelled)) [
          | inl (x, q) ↦ absurd (ground arith)
          | inr (written, q) ↦
              cancel_sweeps-days t e written.1 ss {db' = db'} (ground arith)
              ∙ ap (map (set_state (λ d. exists (hits d) ss) cancelled))
                  (transition-days db (disable_core t e s) _ q)
              ∙ twice (λ d. hits d s) (λ d. exists (hits d) ss) db.days
        ]

map-ext_In :
    (p q : LeaveDayRow → Bool) (rows : List LeaveDayRow)
    → ((d : LeaveDayRow) → In d rows → p d ≡ q d)
    → map (set_state p cancelled) rows ≡ map (set_state q cancelled) rows
map-ext_In p q [] h = refl
map-ext_In p q (d ∷ rows) h =
    both (set_state-same p q d (h d here)) (map-ext_In p q rows (λ x m. h x (there m)))

-- Disabling an employee from a date, when it returns, cancels the employee's pending days and the
-- approved ones of that date or later, and changes no other day.
pub cancel_leave_on_disable-days :
    (db : LeaveDb) (t e from : Text) {n : ℕ} {db' : LeaveDb}
    → has_key_once db.days ≡ true
    → cancel_leave_on_disable db t e from ≡ returned (n, db')
    → db'.days ≡ map (set_state (is_swept db.requests t e from) cancelled) db.days
unfolding cancel_leave_on_disable
cancel_leave_on_disable-days db t e from {n} {db'} key h =
    elim (Result-cases (cancel_sweeps t e db (find_days_for_disable_sweep db t e from))) [
      | inl (x, q) ↦ absurd (ground arith)
      | inr (next, q) ↦
          let same : next ≡ db' = ground arith in
          ap (λ (l : LeaveDb). l.days) (sym same)
          ∙ cancel_sweeps-days t e db _ q
          ∙ map-ext_In _ _ db.days (λ d m. exists-find_days db t e from key m)
    ]
