-- ===== src/Attendance/Leave/Actions/Effect.antt =====
-- What approve, reject, revoke and cancel do to the day table: a map over its rows.
use fenzit_be.Attendance.Leave.Split.{is_actionable, SplitInput, split_day, split_actionable_dates}
use fenzit_be.Prelude.{
  none, ℕ, subst, text_eq→eq, find-eq-some, sym, some, inr, inl, Option, ◌&&◌, text_leb, Bool-cases,
  text_eq, All, true, ◌≡◌, refl, ap, ◌∙◌, Bool, List, [], ◌∷◌, map, arith, length, keep, Text,
}
use fenzit_be.Attendance.Errors.{thrown, Result-cases, Result, returned}
use fenzit_be.Attendance.Leave.Types.{
  cancelled, revoked, rejected, approved, pending, in_states, LeaveDayState, LeaveRequestRow,
  LeaveDayRow, LeaveDb,
}
use fenzit_be.Attendance.Leave.Transition.{
  TransitionCore, date_of, is_target, set_state, sort_dates, transition_leave_days,
  write_event_and_notification,
}
use fenzit_be.Attendance.Leave.Actions.{
  split_for, action_dates_of, act_transact, find_days_in_states, cancel_transact, revoke_leave,
  reject_leave, find_request, approve_leave, find_own_request, Desk, sort_rows, insert_row,
  LeaveView, ActConfig, no_dates, viewed, apply_action, act_on, core_for,
}
use fenzit_be.Attendance.Leave.Actions.Select.{
  is_chosen, chosen_dates, keep-chosen, set_state-chosen, length-chosen, length-map,
}

-- The guarded UPDATE finds every date that was read under the lock, so its row count is right.
pub transition-chosen :
    (db : LeaveDb) (core : TransitionCore) (states : List LeaveDayState) (q : Text → Bool)
    (to : LeaveDayState) (d : Text) (ds : List Text)
    → d ∷ ds ≡ chosen_dates core.leave_request_db_id states q db.days
    → transition_leave_days db core (d ∷ ds) states to
      ≡ returned (
        sort_dates
            (map date_of (keep (is_chosen core.leave_request_db_id states q db.days) db.days)),
        write_event_and_notification
            (record db {
              days =
                  map (set_state (is_chosen core.leave_request_db_id states q db.days) to) db.days;
            })
            core
            (d ∷ ds),
      )
unfolding transition_leave_days
transition-chosen db core states q to d ds e =
    let id = core.leave_request_db_id in
    let kept : keep (is_target id (d ∷ ds) states) db.days
        ≡ keep (is_chosen id states q db.days) db.days =
      ap (λ ds'. keep (is_target id ds' states) db.days) e ∙ keep-chosen id states q db.days in
    let moved : map (set_state (is_target id (d ∷ ds) states) to) db.days
        ≡ map (set_state (is_chosen id states q db.days) to) db.days =
      ap (λ ds'. map (set_state (is_target id ds' states) to) db.days) e
      ∙ set_state-chosen id states q db.days to in
    ground (
      arith,
      kept,
      moved,
      length-map date_of (keep (is_chosen id states q db.days) db.days),
      length-chosen id states q db.days,
      ap length e,
    )

map-none :
    (p : LeaveDayRow → Bool) (to : LeaveDayState) (rows : List LeaveDayRow)
    → length (keep p rows) ≡ 0
    → map (set_state p to) rows ≡ rows
unfolding set_state
map-none p to [] h = refl
map-none p to (r ∷ rows) h = ground (arith, map-none p to rows)

module _ (db : LeaveDb) (tenant_id actor_id : Text) (request : LeaveRequestRow) (config : ActConfig)
    (recipients : List Text) (q : Text → Bool) where
  abbrev pub effect : List LeaveDayRow
  effect =
      map (set_state (is_chosen request.id config.source_states q db.days) config.to_state) db.days

  act_on-days :
      (dates : List Text) {v : LeaveView} {db' : LeaveDb}
      → dates ≡ chosen_dates request.id config.source_states q db.days
      → act_on db tenant_id actor_id request config recipients dates ≡ returned (v, db')
      → db'.days ≡ effect
  unfolding act_on no_dates viewed apply_action write_event_and_notification core_for
  act_on-days [] e h = ground (
    arith,
    ap length e,
    length-chosen request.id config.source_states q db.days,
    map-none (is_chosen request.id config.source_states q db.days) config.to_state db.days,
  )
  act_on-days (d ∷ ds) e h = ground (
    arith,
    transition-chosen db (core_for tenant_id request config.cause actor_id config.reason recipients)
        config.source_states q config.to_state d ds e,
  )

keep-true : (rows : List LeaveDayRow) → keep (λ r. true) rows ≡ rows
keep-true [] = refl
keep-true (r ∷ rows) = ap (λ rs. r ∷ rs) (keep-true rows)

abbrev AllIn : List LeaveDayState → List LeaveDayRow → Type 0
AllIn states rows = All (λ (r : LeaveDayRow). in_states states r.state ≡ true) rows

AllIn-insert_row :
    (states : List LeaveDayState) (r : LeaveDayRow) (rows : List LeaveDayRow)
    → in_states states r.state ≡ true
    → AllIn states rows
    → AllIn states (insert_row r rows)
unfolding insert_row
AllIn-insert_row states r [] p h = (p, tt)
AllIn-insert_row states r (x ∷ rows) p h = elim (Bool-cases (text_leb r.leave_date x.leave_date)) [
  | inl e ↦ rw e (p, h)
  | inr e ↦ rw e (h.0, AllIn-insert_row states r rows p h.1)
]

AllIn-sort_rows :
    (states : List LeaveDayState) (rows : List LeaveDayRow)
    → AllIn states rows
    → AllIn states (sort_rows rows)
unfolding sort_rows
AllIn-sort_rows states [] h = tt
AllIn-sort_rows states (r ∷ rows) h =
    AllIn-insert_row states r (sort_rows rows) h.0 (AllIn-sort_rows states rows h.1)

AllIn-source :
    (id : Text) (states : List LeaveDayState) (days rows : List LeaveDayRow)
    → AllIn states
        (keep (λ (r : LeaveDayRow). text_eq r.leave_request_id id && in_states states r.state) rows)
AllIn-source id states days [] = tt
AllIn-source id states days (r ∷ rows) =
    elim (Bool-cases (text_eq r.leave_request_id id && in_states states r.state)) [
      | inl e ↦ rw e (ground arith, AllIn-source id states days rows)
      | inr e ↦ rw e (AllIn-source id states days rows)
    ]

-- The split of days that are all in the source states is a filter by date.
split-action_dates :
    (input : SplitInput) (rows : List LeaveDayRow)
    → AllIn input.source_states rows
    → (split_actionable_dates input rows).action_dates
      ≡ map date_of (keep (λ (r : LeaveDayRow). is_actionable input r.leave_date) rows)
unfolding split_actionable_dates split_day
split-action_dates input [] h = refl
split-action_dates input (r ∷ rows) h = ground (arith, split-action_dates input rows h.1)

-- The four actions, and how they are called.
pub data Action : Type 0 where
  approving : Action
  rejecting : Option Text → Action
  revoking : Text → Action
  cancelling : Action

abbrev pub perform :
    Desk → LeaveDb → (tenant_id actor_id id : Text) → Action → Result (LeaveView × LeaveDb)
perform desk db tenant_id actor_id id approving = approve_leave desk db tenant_id actor_id id
perform desk db tenant_id actor_id id (rejecting reason) =
    reject_leave desk db tenant_id actor_id id reason
perform desk db tenant_id actor_id id (revoking reason) =
    revoke_leave desk db tenant_id actor_id id reason
perform desk db tenant_id actor_id id cancelling = cancel_transact desk db tenant_id actor_id id

-- The request that the action finds: a cancel finds only the caller's own.
abbrev pub found : LeaveDb → (tenant_id actor_id id : Text) → Action → Option LeaveRequestRow
found db tenant_id actor_id id cancelling = find_own_request db tenant_id id actor_id
found db tenant_id actor_id id _ = find_request db tenant_id id

abbrev pub sources : Action → List LeaveDayState
sources approving = pending ∷ []
sources (rejecting reason) = pending ∷ []
sources (revoking reason) = approved ∷ []
sources cancelling = pending ∷ approved ∷ []

abbrev pub target : Action → LeaveDayState
target approving = approved
target (rejecting reason) = rejected
target (revoking reason) = revoked
target cancelling = cancelled

-- The office start, when the facts of the day can be read; otherwise a revoke and a cancel throw.
abbrev start_of : Result (Option ℕ) → Option ℕ
start_of (returned start) = start
start_of (thrown e) = none

abbrev input_of : Desk → Result (Option ℕ) → List LeaveDayState → SplitInput
input_of desk start states = record {
  today = desk.today;
  now_minute = desk.now_minute;
  start_minute = start_of start;
  source_states = states;
}

-- A revoke and a cancel keep the days that are past or whose office start has passed.
abbrev pub in_time : Desk → Text → Action → Text → Bool
in_time desk employee_id approving date = true
in_time desk employee_id (rejecting reason) date = true
in_time desk employee_id a date =
    is_actionable (input_of desk (desk.start_minute_of employee_id) (sources a)) date

abbrev acts_from :
    Desk → Result (Option ℕ) → LeaveRequestRow → List LeaveDayState → LeaveDayRow → Bool
acts_from desk start request states r =
    text_eq r.leave_request_id request.id
    && in_states states r.state
    && is_actionable (input_of desk start states) r.leave_date

abbrev pub acts_on : Desk → Text → LeaveRequestRow → Action → LeaveDayRow → Bool
acts_on desk employee_id request a r =
    text_eq r.leave_request_id request.id
    && in_states (sources a) r.state
    && in_time desk employee_id a r.leave_date

pub dates-plain :
    (db : LeaveDb) (id : Text) (states : List LeaveDayState)
    → map date_of (find_days_in_states db id states) ≡ chosen_dates id states (λ d. true) db.days
unfolding find_days_in_states
dates-plain db id states = ap (map date_of) (sym (keep-true _))

pub dates-split :
    (db : LeaveDb) (id : Text) (input : SplitInput)
    → (split_actionable_dates input (find_days_in_states db id input.source_states)).action_dates
      ≡ chosen_dates id input.source_states (is_actionable input) db.days
unfolding find_days_in_states
dates-split db id input =
    split-action_dates input _
      (AllIn-sort_rows input.source_states _ (AllIn-source id input.source_states db.days db.days))

pub own_employee :
    (db : LeaveDb) (tenant_id actor_id id : Text) (request : LeaveRequestRow)
    → find_own_request db tenant_id id actor_id ≡ some request
    → request.employee_id ≡ actor_id
unfolding find_own_request
own_employee db tenant_id actor_id id request e =
    let test = (find-eq-some _ db.requests request e).0 in
    text_eq→eq request.employee_id actor_id (ground arith)

module _ (desk : Desk) (db : LeaveDb) (tenant_id actor_id id : Text) where
  -- Every action that returns has set exactly the days that it acts on, in its source states and in
  -- time, to its target state, and has left every other day of the table as it was.
  pub perform-days :
      (a : Action) {request : LeaveRequestRow} {v : LeaveView} {db' : LeaveDb}
      → found db tenant_id actor_id id a ≡ some request
      → perform desk db tenant_id actor_id id a ≡ returned (v, db')
      → db'.days ≡ map (set_state (acts_on desk request.employee_id request a) (target a)) db.days
  unfolding approve_leave reject_leave revoke_leave act_transact cancel_transact action_dates_of
      split_for
  perform-days approving {request} f h =
      act_on-days db tenant_id actor_id request _ (request.employee_id ∷ []) (λ d. true) _
        (dates-plain db request.id _) (rw (f, act_transact) at h)
  perform-days (rejecting reason) {request} f h =
      act_on-days db tenant_id actor_id request _ (request.employee_id ∷ []) (λ d. true) _
        (dates-plain db request.id _) (rw (f, act_transact) at h)
  perform-days (revoking reason) {request} {db'} f h =
      elim (Result-cases (desk.start_minute_of request.employee_id)) [
        | inl (x, q) ↦ absurd (ground (arith, rw (f, act_transact, q) at h))
        | inr (start, q) ↦
            subst
              (λ z.
                db'.days
                ≡ map (set_state (acts_from desk z request (approved ∷ [])) revoked) db.days)
              (sym q)
              (act_on-days db tenant_id actor_id request _ (request.employee_id ∷ []) _ _
                (dates-split db request.id (input_of desk (returned start) (approved ∷ [])))
                (rw (f, act_transact, q) at h))
      ]
  perform-days cancelling {request} {db'} f h =
      subst (λ e. db'.days ≡ map (set_state (acts_on desk e request cancelling) cancelled) db.days)
        (sym (own_employee db tenant_id actor_id id request f))
        (elim (Result-cases (desk.start_minute_of actor_id)) [
          | inl (x, q) ↦ absurd (ground (arith, rw (f, cancel_transact, q) at h))
          | inr (start, q) ↦
              subst
                (λ z.
                  db'.days
                  ≡ map (set_state (acts_from desk z request (pending ∷ approved ∷ [])) cancelled)
                      db.days)
                (sym q)
                (act_on-days db tenant_id actor_id request _ desk.admin_ids _ _
                  (dates-split db request.id
                    (input_of desk (returned start) (pending ∷ approved ∷ [])))
                  (rw (f, cancel_transact, q) at h))
        ])
