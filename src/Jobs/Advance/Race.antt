-- ===== src/Jobs/Advance/Race.antt =====
-- Two advances of one job in src/jobs/workflow.service.ts that have read the same row.
use fenzit_be.Jobs.Advance.Laws.{find_job-ids, find_job-set, advance_workflow_step-Stepped, Stepped}
use fenzit_be.Jobs.Advance.Location.{AdvanceWorkflowDto}
use fenzit_be.Jobs.Advance.{
  is_same_step, JobRow, params_of, find_job, advance_workflow_step, JobsDb, Caller, Link, advanced,
}
use fenzit_be.Prelude.{text_eq_self, true, ap, arith, ◌∙◌, sym, some, inr, inl, ◌≡◌, Text}

-- Of two advances of a job that both read it before either wrote, only one moves it: when the first has
-- taken its step, the second, whatever step it asks for, leaves the jobs and the log as the first left
-- them.
pub advance_workflow_step-race :
    (link link' : Link) (user user' : Caller) (id : Text) (dto dto' : AdvanceWorkflowDto)
    (db db' : JobsDb)
    → user'.tenant_id ≡ user.tenant_id
    → Stepped link user id dto db db db'
    → (advance_workflow_step link' user' id dto' db db').1 ≡ db'
unfolding advanced
advance_workflow_step-race link link' user user' id dto dto' db db' same_tenant
      (t, row, job, steps, ut, fr, own, fj, o, other, there, st, next, w) =
    elim (advance_workflow_step-Stepped link' user' id dto' db db') [
      | inl stays ↦ stays
      | inr (t', row', job', steps', ut', fr', own', fj', o', other', there', st', next', w') ↦
          let tt : t' ≡ t = let e : some t' ≡ some t = sym ut' ∙ same_tenant ∙ ut in ground arith in
          let rr : row' ≡ row =
            let e : some row' ≡ some row = sym fr' ∙ ap (λ k. find_job db k id) tt ∙ fr in
            ground arith in
          let p = params_of row user.user_id dto steps in
          let stands : find_job db' t id ≡ some (advanced p link.now job) =
            ap (λ l. find_job l t id) w
            ∙ find_job-set link.now p t id db job fj (find_job-ids db t id fr).0 in
          let jj : job' ≡ advanced p link.now job =
            let e : some job' ≡ some (advanced p link.now job) =
              sym fj' ∙ ap (λ k. find_job db' k id) tt ∙ stands in
            ground arith in
          let moved : row.current_step ≡ some dto.step =
            sym (ap (λ (r : JobRow). r.current_step) rr)
            ∙ sym there'
            ∙ ap (λ (r : JobRow). r.current_step) jj in
          let again : is_same_step row dto.step ≡ true = rw moved (text_eq_self dto.step) in
          absurd (ground arith)
    ]
