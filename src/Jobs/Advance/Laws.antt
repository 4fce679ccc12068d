-- ===== src/Jobs/Advance/Laws.antt =====
-- What one advance of src/jobs/workflow.service.ts may do to the jobs.
use fenzit_be.Jobs.Workflow.{next_step_key, TemplateStep}
use fenzit_be.Jobs.Advance.Location.{AdvanceWorkflowDto}
use fenzit_be.Jobs.Advance.{
  set_job, is_job, replayed, is_same_step, advance_workflow_step, refused, or_refuse, JobResult,
  written, advanced, advance_rpc, same_step, call_rpc, params_of, is_open, stamped_steps,
  AdvanceParams, answered, Caller, validate_step, JobsDb, Link, advance_params, JobRow, find_job,
  gated_row,
}
use fenzit_be.Prelude.{
  [], text_eq_iff, ◌∷◌, and_intro, map, false, ℕ, find, if◌then◌else◌, subst, none, some,
  Bool-cases, ◌⊎◌, sym, Option, ap, ◌∙◌, inr, and_right, arith, inl, and_left, Option-cases,
  text_eq→eq, true, find-eq-some, text_eq, List, some, ◌≡◌, Text, refl,
}

gated_row-answered :
    (link : Link) (db : JobsDb) (user : Caller) (id : Text) {row : JobRow}
    → gated_row link db user id ≡ answered row
    → (t : Text) × (user.tenant_id ≡ some t)
      × (find_job db t id ≡ some row)
      × (text_eq row.technician_id user.user_id ≡ true)
      × (is_open row.status ≡ true)
unfolding gated_row
gated_row-answered link db user id {row} h = elim (Option-cases user.tenant_id) [
  | inl e ↦ absurd (ground arith)
  | inr (t, e) ↦ elim (Option-cases (find_job db t id)) [
    | inl f ↦ absurd (ground arith)
    | inr (job, f) ↦
        let same : job ≡ row = ground arith in (t, e, f ∙ ap some same, ground arith, ground arith)
  ]
]

pub find_job-ids :
    (db : JobsDb) (t id : Text) {row : JobRow}
    → find_job db t id ≡ some row
    → (row.id ≡ id) × (row.tenant_id ≡ t)
unfolding find_job
find_job-ids db t id {row} h =
    let (p, m) = find-eq-some _ db.jobs row h in
    (text_eq→eq row.id id (and_left _ _ p), text_eq→eq row.tenant_id t (and_right _ _ p))

find-set_job :
    (t id : Text) (row' : JobRow) (jobs : List JobRow) {row : JobRow}
    → find (is_job t id) jobs ≡ some row
    → is_job t id row' ≡ true
    → find (is_job t id) (map (set_job id row') jobs) ≡ some row'
find-set_job t id row' [] h k = cc
find-set_job t id row' (j ∷ jobs) {row} h k = elim (Bool-cases (text_eq j.id id)) [
  | inl e ↦ rw e (rw k refl)
  | inr e ↦ rw e (rw e (find-set_job t id row' jobs {row = row} (rw e at h) k))
]

-- The row that a write leaves is the one that is then found.
pub find_job-set :
    (now : ℕ) (p : AdvanceParams) (t id : Text) (db : JobsDb) (job : JobRow)
    → find_job db t id ≡ some job
    → p.job_id ≡ id
    → find_job (written p (advanced p now job) db) t id ≡ some (advanced p now job)
unfolding written advanced find_job
find_job-set now p t id db job f same =
    let (i, n) = find_job-ids db t id f in
    let job' = advanced p now job in
    subst (λ k. find (is_job t id) (map (set_job k job') db.jobs) ≡ some job') (sym same)
      (find-set_job t id job' db.jobs f
        (and_intro ((text_eq_iff job.id id).1 i) ((text_eq_iff job.tenant_id t).1 n)))

advance_params-answered :
    (row : JobRow) (actor_id : Text) (dto : AdvanceWorkflowDto) {p : AdvanceParams}
    → advance_params row actor_id dto ≡ answered p
    → (steps : List TemplateStep) × (stamped_steps row ≡ some steps)
      × (next_step_key steps row.current_step ≡ some dto.step)
      × (params_of row actor_id dto steps ≡ p)
unfolding advance_params validate_step
advance_params-answered row actor_id dto {p} h = elim (Option-cases (stamped_steps row)) [
  | inl e ↦ absurd (ground arith)
  | inr (steps, e) ↦ elim (Option-cases (next_step_key steps row.current_step)) [
    | inl f ↦ absurd (ground arith)
    | inr (key, f) ↦
        let same : text_eq dto.step key ≡ true = ground arith in
        (steps, e, f ∙ ap some (sym (text_eq→eq dto.step key same)), ground arith)
  ]
]

same_step→eq : (a b : Option Text) → same_step a b ≡ true → a ≡ b
same_step→eq none none h = refl
same_step→eq none (some b) h = cc
same_step→eq (some a) none h = cc
same_step→eq (some a) (some b) h = ap some (text_eq→eq a b h)

-- The database function writes only to the open job that stands where the caller read it.
call_rpc-writes :
    (link : Link) (p : AdvanceParams) (db : JobsDb)
    → ((call_rpc link p db).1 ≡ db)
      ⊎ (job : JobRow) × (find_job db p.tenant_id p.job_id ≡ some job)
        × (is_open job.status ≡ true)
        × (job.current_step ≡ p.expected_current_step)
        × (call_rpc link p db
            ≡ (answered (advanced p link.now job), written p (advanced p link.now job) db))
unfolding call_rpc advance_rpc
call_rpc-writes link p db = elim (Option-cases link.rpc_error) [
  | inr (code, e) ↦ inl (rw (call_rpc, e) refl)
  | inl e ↦ elim (Option-cases (find_job db p.tenant_id p.job_id)) [
    | inl f ↦ inl (rw (call_rpc, advance_rpc, e, f) refl)
    | inr (job, f) ↦ elim (Bool-cases (is_open job.status)) [
      | inr o ↦ inl (rw (call_rpc, advance_rpc, e, f, o) refl)
      | inl o ↦ elim (Bool-cases (same_step job.current_step p.expected_current_step)) [
        | inr s ↦ inl (rw (call_rpc, advance_rpc, e, f, o, s) refl)
        | inl s ↦ inr (job, f, o, same_step→eq _ _ s, rw (call_rpc, advance_rpc, e, f, o, s) refl)
      ]
    ]
  ]
]

-- One step of a job: the open job of the caller's company, assigned to the caller, has gone from where
-- it stands to the step that follows in its template.
abbrev pub Stepped :
    Link → Caller → (job_id : Text) → AdvanceWorkflowDto → (read db db' : JobsDb) → Type 0
Stepped link user id dto read db db' =
    (t : Text) × (row : JobRow) × (job : JobRow) × (steps : List TemplateStep) × (user.tenant_id
      ≡ some t)
    × (find_job read t id ≡ some row)
    × (text_eq row.technician_id user.user_id ≡ true)
    × (find_job db t id ≡ some job)
    × (is_open job.status ≡ true)
    × (is_same_step row dto.step ≡ false)
    × (job.current_step ≡ row.current_step)
    × (stamped_steps row ≡ some steps)
    × (next_step_key steps job.current_step ≡ some dto.step)
    × (let p = params_of row user.user_id dto steps in db' ≡ written p (advanced p link.now job) db)

advanced_row :
    (link : Link) (user : Caller) (id t : Text) (dto : AdvanceWorkflowDto) (read db : JobsDb)
    (row : JobRow) (params : JobResult AdvanceParams)
    → user.tenant_id ≡ some t
    → find_job read t id ≡ some row
    → text_eq row.technician_id user.user_id ≡ true
    → is_same_step row dto.step ≡ false
    → advance_params row user.user_id dto ≡ params
    → (let after = or_refuse params db (λ p. call_rpc link p db) in
        (after.1 ≡ db) ⊎ Stepped link user id dto read db after.1)
advanced_row link user id t dto read db row (refused e) ut fr own other h = inl refl
advanced_row link user id t dto read db row (answered p) ut fr own other h =
    let (steps, st, next, same) = advance_params-answered row user.user_id dto h in
    let (rid, rt) = find_job-ids read t id fr in
    elim (call_rpc-writes link p db) [
      | inl stays ↦ inl stays
      | inr (job, f, o, c, w) ↦
          let there : job.current_step ≡ row.current_step =
            c ∙ ap (λ (q : AdvanceParams). q.expected_current_step) (sym same) in
          inr (
            t,
            row,
            job,
            steps,
            ut,
            fr,
            own,
            subst (λ i. find_job db t i ≡ some job)
                (ap (λ (q : AdvanceParams). q.job_id) (sym same) ∙ rid)
                (subst (λ i. find_job db i p.job_id ≡ some job)
                  (ap (λ (q : AdvanceParams). q.tenant_id) (sym same) ∙ rt) f),
            o,
            other,
            there,
            st,
            ap (next_step_key steps) there ∙ next,
            ap (λ x. x.1) w ∙ ap (λ q. written q (advanced q link.now job) db) (sym same),
          )
    ]

gated_advance :
    (link : Link) (user : Caller) (id : Text) (dto : AdvanceWorkflowDto) (read db : JobsDb)
    (gate : JobResult JobRow)
    → gated_row link read user id ≡ gate
    → (let after = or_refuse gate db (λ row.
          if is_same_step row dto.step
          then (replayed link db row.tenant_id id, db)
          else or_refuse (advance_params row user.user_id dto) db (λ p. call_rpc link p db)) in
        (after.1 ≡ db) ⊎ Stepped link user id dto read db after.1)
gated_advance link user id dto read db (refused e) h = inl refl
gated_advance link user id dto read db (answered row) h =
    let (t, ut, fr, own, o) = gated_row-answered link read user id h in
    elim (Bool-cases (is_same_step row dto.step)) [
      | inl same ↦ inl (rw same refl)
      | inr other ↦ rw other (advanced_row link user id t dto read db row _ ut fr own other refl)
    ]

-- However the jobs have changed between the read and the write, an advance leaves them as they are or
-- takes one open job one step: the caller's own job, of their company, from where it stands when it is
-- written to the step that follows there in the template. No step is left out, repeated or undone.
pub advance_workflow_step-Stepped :
    (link : Link) (user : Caller) (id : Text) (dto : AdvanceWorkflowDto) (read db : JobsDb)
    → ((advance_workflow_step link user id dto read db).1 ≡ db)
      ⊎ Stepped link user id dto read db (advance_workflow_step link user id dto read db).1
unfolding advance_workflow_step
advance_workflow_step-Stepped link user id dto read db =
    gated_advance link user id dto read db _ refl
