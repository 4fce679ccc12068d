-- ===== src/Jobs/Advance/Walk.antt =====
-- A job that is taken through its template by src/jobs/workflow.service.ts, one advance after another.
use fenzit_be.Jobs.Advance.Laws.{find_job-set, find_job-ids}
use fenzit_be.Jobs.Workflow.{
  parse_template_steps-IsDistinct, distinct-next, parse_template_steps-next, parse_template_steps,
  RawEntry, next_step_key, sets_status_of, TemplateStep, SetsStatus,
}
use fenzit_be.Jobs.Advance.Location.{AdvanceWorkflowDto}
use fenzit_be.Jobs.Advance.{
  JobResult, to_job_status, JobStatus, AdvanceParams, same_step, written, advanced, params_of,
  is_same_step, stamped_steps, answered, advance_rpc, is_open, refused, call_rpc, validate_step,
  advance_params, find_job, gated_row, JobRow, JobsDb, advance_workflow_step, Caller, Link,
}
use mathlib.Core.Option
use mathlib.Core.List.{append_assoc}
use fenzit_be.Prelude.{
  Option-cases, ap, length-append, ◌++◌, ◌∙◌, ◌+◌, get_or, sym, arith, length, subst, inr, inl, map,
  text_eq_self, [], ◌&&◌, text_eq, not, ◌∷◌, ◌≡◌, true, Bool, some, none, false, ℕ, List, Option,
  Text, refl,
}

abbrev pub at_step : Text → AdvanceWorkflowDto
at_step key = record { step = key; latitude = none; longitude = none; accuracy = none }

abbrev if_answered : JobResult JobRow × JobsDb → (JobsDb → Option JobsDb) → Option JobsDb
if_answered (answered row, after) k = k after
if_answered (refused e, after) k = none

-- The advances to the keys, each of which must be answered; nothing else happens between them.
unfoldable pub walk : Link → Caller → (job_id : Text) → List Text → JobsDb → Option JobsDb
walk link user id [] db = some db
walk link user id (key ∷ keys) db =
    if_answered (advance_workflow_step link user id (at_step key) db db)
      (λ after. walk link user id keys after)

abbrev is_completing : Option SetsStatus → Bool
is_completing (some SetsStatus.completed) = true
is_completing _ = false

-- No step but the last completes the job.
unfoldable pub keeps_open : List TemplateStep → List TemplateStep → Bool
keeps_open steps [] = true
keeps_open steps (s ∷ []) = true
keeps_open steps (s ∷ t ∷ rest) =
    not (is_completing (sets_status_of steps s.key)) && keeps_open steps (t ∷ rest)

abbrev pub no_faults : ℕ → Link
no_faults now = record { read_error = false; reread_error = false; rpc_error = none; now = now }

-- The job of the caller, open and with a template that can be read.
abbrev pub Standing : Caller → (t id : Text) → List TemplateStep → JobsDb → JobRow → Type 0
Standing user t id steps db row =
    (find_job db t id ≡ some row)
    × (text_eq row.technician_id user.user_id ≡ true)
    × (is_open row.status ≡ true)
    × (stamped_steps row ≡ some steps)

gated_row-Standing :
    (now : ℕ) (user : Caller) (t id : Text) (steps : List TemplateStep) (db : JobsDb) (row : JobRow)
    → user.tenant_id ≡ some t
    → Standing user t id steps db row
    → gated_row (no_faults now) db user id ≡ answered row
unfolding gated_row
gated_row-Standing now user t id steps db row ut (f, own, o, st) =
    rw (gated_row, ut, f, own, o) refl

advance_params-next :
    (row : JobRow) (actor_id : Text) (dto : AdvanceWorkflowDto) (steps : List TemplateStep)
    → stamped_steps row ≡ some steps
    → next_step_key steps row.current_step ≡ some dto.step
    → advance_params row actor_id dto ≡ answered (params_of row actor_id dto steps)
unfolding advance_params validate_step
advance_params-next row actor_id dto steps st next =
    rw (advance_params, st, validate_step, next, text_eq_self dto.step) refl

same_step_self : (a : Option Text) → same_step a a ≡ true
same_step_self none = refl
same_step_self (some a) = text_eq_self a

call_rpc-open :
    (now : ℕ) (p : AdvanceParams) (db : JobsDb) (row : JobRow)
    → find_job db p.tenant_id p.job_id ≡ some row
    → is_open row.status ≡ true
    → row.current_step ≡ p.expected_current_step
    → call_rpc (no_faults now) p db
      ≡ (answered (advanced p now row), written p (advanced p now row) db)
unfolding call_rpc advance_rpc
call_rpc-open now p db row f o c =
    rw (call_rpc, advance_rpc, f, o, c, same_step_self p.expected_current_step) refl

found_by_ids :
    (db : JobsDb) (t id : Text) {row : JobRow}
    → find_job db t id ≡ some row
    → find_job db row.tenant_id row.id ≡ some row
found_by_ids db t id {row} f =
    let (i, n) = find_job-ids db t id f in
    subst (λ k. find_job db row.tenant_id k ≡ some row) (sym i)
      (subst (λ k. find_job db k id ≡ some row) (sym n) f)

-- An advance to the step that follows is answered and moves the job there.
pub advance-next :
    (now : ℕ) (user : Caller) (t id key : Text) (steps : List TemplateStep) (db : JobsDb)
    (row : JobRow)
    → user.tenant_id ≡ some t
    → Standing user t id steps db row
    → next_step_key steps row.current_step ≡ some key
    → is_same_step row key ≡ false
    → (let p = params_of row user.user_id (at_step key) steps in
        advance_workflow_step (no_faults now) user id (at_step key) db db
        ≡ (answered (advanced p now row), written p (advanced p now row) db))
unfolding advance_workflow_step
advance-next now user t id key steps db row ut standing next other =
    rw
      (
        advance_workflow_step,
        gated_row-Standing now user t id steps db row ut standing,
        other,
        advance_params-next row user.user_id (at_step key) steps standing.3 next,
        call_rpc-open now (params_of row user.user_id (at_step key) steps) db row
            (found_by_ids db t id standing.0) standing.2 refl,
      )
      refl

find_job-written :
    (now : ℕ) (user : Caller) (t id key : Text) (steps : List TemplateStep) (db : JobsDb)
    (row : JobRow)
    → find_job db t id ≡ some row
    → (let p = params_of row user.user_id (at_step key) steps in
        find_job (written p (advanced p now row) db) t id ≡ some (advanced p now row))
unfolding written advanced find_job
find_job-written now user t id key steps db row f =
    find_job-set now (params_of row user.user_id (at_step key) steps) t id db row f
      (find_job-ids db t id f).0

open_after :
    (o : Option SetsStatus) (status : JobStatus)
    → is_completing o ≡ false
    → is_open status ≡ true
    → is_open (get_or (Option.map to_job_status o) status) ≡ true
open_after none status h k = k
open_after (some SetsStatus.in_progress) status h k = refl
open_after (some SetsStatus.completed) status h k = cc

-- The job stands there afterwards, unless the step has completed it.
Standing-advanced :
    (now : ℕ) (user : Caller) (t id key : Text) (steps : List TemplateStep) (db : JobsDb)
    (row : JobRow)
    → Standing user t id steps db row
    → is_completing (sets_status_of steps key) ≡ false
    → (let p = params_of row user.user_id (at_step key) steps in
        Standing user t id steps (written p (advanced p now row) db) (advanced p now row))
unfolding advanced stamped_steps
Standing-advanced now user t id key steps db row (f, own, o, st) opens = (
  find_job-written now user t id key steps db row f,
  own,
  open_after (sets_status_of steps key) row.status opens o,
  st,
)

-- Each step follows the one before it in the template.
Follows : List TemplateStep → Option Text → List TemplateStep → Type 0
Follows steps current [] = Unit
Follows steps current (s ∷ rest) =
    (next_step_key steps current ≡ some s.key)
    × (same_step current (some s.key) ≡ false)
    × Follows steps (some s.key) rest

abbrev last_key : Option Text → List TemplateStep → Option Text
last_key current [] = current
last_key current (s ∷ rest) = last_key (some s.key) rest

-- What a walk over the steps leaves.
abbrev pub Walked : Text → Text → Option Text → List TemplateStep → JobsDb → Option JobsDb → Type 0
Walked t id current rest db result =
    (db' : JobsDb) × (result ≡ some db')
    × (row' : JobRow) × (find_job db' t id ≡ some row')
    × (row'.current_step ≡ last_key current rest)
    × (length db'.activity_logs ≡ length db.activity_logs + length rest)

walk-answered :
    (link : Link) (user : Caller) (id key : Text) (keys : List Text) (db db' : JobsDb)
    (row : JobRow)
    → advance_workflow_step link user id (at_step key) db db ≡ (answered row, db')
    → walk link user id (key ∷ keys) db ≡ walk link user id keys db'
unfolding walk
walk-answered link user id key keys db db' row e =
    ap (λ next. if_answered next (λ after. walk link user id keys after)) e

logs-written :
    (p : AdvanceParams) (row : JobRow) (db : JobsDb)
    → length (written p row db).activity_logs ≡ length db.activity_logs + 1
unfolding written
logs-written p row db = length-append db.activity_logs _

abbrev keys_of : List TemplateStep → List Text
keys_of steps = map (λ (s : TemplateStep). s.key) steps

walk-Walked :
    (now : ℕ) (user : Caller) (t id : Text) (steps rest : List TemplateStep) (db : JobsDb)
    (row : JobRow)
    → user.tenant_id ≡ some t
    → Standing user t id steps db row
    → Follows steps row.current_step rest
    → keeps_open steps rest ≡ true
    → Walked t id row.current_step rest db (walk (no_faults now) user id (keys_of rest) db)
unfolding walk Follows keeps_open advanced
walk-Walked now user t id steps [] db row ut st fs k = (db, refl, row, st.0, refl, omega arith)
walk-Walked now user t id steps (s ∷ []) db row ut st (next, other, rest) k =
    let p = params_of row user.user_id (at_step s.key) steps in
    (
      written p (advanced p now row) db,
      walk-answered (no_faults now) user id s.key [] db _ _
          (advance-next now user t id s.key steps db row ut st next other),
      advanced p now row,
      find_job-written now user t id s.key steps db row st.0,
      refl,
      logs-written p (advanced p now row) db,
    )
walk-Walked now user t id steps (s ∷ s' ∷ rest) db row ut st (next, other, follows) k =
    let p = params_of row user.user_id (at_step s.key) steps in
    let (db', done, row', found, last, logs) =
      walk-Walked now user t id steps (s' ∷ rest) (written p (advanced p now row) db)
        (advanced p now row) ut
        (Standing-advanced now user t id s.key steps db row st (ground arith)) follows
        (ground arith) in
    (
      db',
      walk-answered (no_faults now) user id s.key (keys_of (s' ∷ rest)) db _ _
            (advance-next now user t id s.key steps db row ut st next other)
          ∙ done,
      row',
      found,
      last,
      omega (arith, logs, logs-written p (advanced p now row) db),
    )

Follows-behind :
    (raw : Option (List RawEntry)) (steps xs : List TemplateStep) (s : TemplateStep)
    (ys : List TemplateStep)
    → steps ≡ xs ++ s ∷ ys
    → parse_template_steps raw ≡ some steps
    → Follows steps (some s.key) ys
unfolding Follows
Follows-behind raw steps xs s [] e h = tt
Follows-behind raw steps xs s (y ∷ ys) e h =
    let at_s : parse_template_steps raw ≡ some (xs ++ s ∷ y ∷ ys) = h ∙ ap some e in
    let behind = (parse_template_steps-next raw xs s (y ∷ ys) at_s).1 in
    (
      rw e behind,
      distinct-next [] xs s y ys (parse_template_steps-IsDistinct raw at_s),
      Follows-behind raw steps (xs ++ (s ∷ [])) y ys (e ∙ sym (append_assoc xs (s ∷ []) (y ∷ ys)))
          h,
    )

stamped_steps-parsed :
    (row : JobRow) {steps : List TemplateStep}
    → stamped_steps row ≡ some steps
    → (raw : Option (List RawEntry)) × (parse_template_steps raw ≡ some steps)
unfolding stamped_steps
stamped_steps-parsed row h = elim (Option-cases row.workflow_templates) [
  | inl e ↦ absurd (ground arith)
  | inr (stamp, e) ↦ (stamp.steps, ground arith)
]

-- A fresh, open job whose stamp can be read is taken to the last step of its template by advancing to
-- each step in the template's order: every advance is answered, the job stands at the last step at the
-- end, and the log has one entry more for each step. No step but the last may complete the job.
pub walk-finishes :
    (now : ℕ) (user : Caller) (t id : Text) (steps : List TemplateStep) (db : JobsDb) (row : JobRow)
    → user.tenant_id ≡ some t
    → Standing user t id steps db row
    → row.current_step ≡ none
    → keeps_open steps steps ≡ true
    → Walked t id none steps db (walk (no_faults now) user id (keys_of steps) db)
unfolding Follows walk
walk-finishes now user t id [] db row ut st fresh k = (db, refl, row, st.0, fresh, omega arith)
walk-finishes now user t id (s ∷ ys) db row ut st fresh k =
    let (raw, parsed) = stamped_steps-parsed row st.3 in
    subst (λ c. Walked t id c (s ∷ ys) db (walk (no_faults now) user id (keys_of (s ∷ ys)) db))
      fresh
      (walk-Walked now user t id (s ∷ ys) (s ∷ ys) db row ut st
        (rw fresh (
          (parse_template_steps-next raw [] s ys parsed).0,
          refl,
          Follows-behind raw (s ∷ ys) [] s ys refl parsed,
        ))
        k)
