-- ===== src/Jobs/Examples.antt =====
-- A template of two steps.
use fenzit_be.Jobs.Advance.Race.{advance_workflow_step-race}
use fenzit_be.Jobs.Advance.Walk.{
  advance-next, walk-finishes, walk, Walked, at_step, Standing, no_faults, keeps_open,
}
use fenzit_be.Jobs.Advance.Laws.{advance_workflow_step-Stepped, Stepped}
use fenzit_be.Jobs.Advance.{
  scheduled, advance_workflow_step, find_job, stamped_steps, JobsDb, JobRow, JobStatus, Caller,
}
use fenzit_be.Prelude.Texts.{trim}
use fenzit_be.Jobs.Workflow.{
  sets_status_of, index_after, absent, boolean, next_step_key, string, is_step_key, parse_step,
  object, parse_entries, TemplateStep, RawEntry, parse_template_steps,
}
use fenzit_be.Prelude.{
  ap, arith, Option, ◌⊎◌, List, some, ◌≡◌, [], ◌∷◌, none, true, text_eq, false, if◌then◌else◌,
  codes, Text, refl,
}

abbrev example_entry : Text → RawEntry
example_entry key = object (λ name.
    if text_eq name (codes "key")
    then string key
    else if text_eq name (codes "label")
    then string (codes "Arrive")
    else if text_eq name (codes "requires_photo")
    then boolean false
    else if text_eq name (codes "requires_signature")
    then boolean true
    else absent)

abbrev example_step : Text → TemplateStep
example_step key = record {
  key = key;
  label = codes "Arrive";
  requires_photo = false;
  requires_signature = true;
  requires_location = true;
  sets_status = none;
  advances_on = none;
}

-- A job of the two steps, assigned to the caller.
abbrev worker : Caller
worker = record { user_id = codes "u"; tenant_id = some (codes "t") }

abbrev both_steps : List TemplateStep
both_steps = example_step (codes "a") ∷ example_step (codes "b") ∷ []

abbrev job_at : JobStatus → Option Text → JobRow
job_at status current_step = record {
  id = codes "j";
  tenant_id = codes "t";
  status = status;
  current_step = current_step;
  technician_id = codes "u";
  workflow_template_version = 3;
  workflow_templates = some (record {
    version = 3;
    steps = some (example_entry (codes "a") ∷ example_entry (codes "b") ∷ []);
  });
  completed_at = none;
}

abbrev job_db : JobRow → JobsDb
job_db row = record {
  jobs = row ∷ [];
  activity_logs = [];
  notifications = [];
  admins = λ t. codes "w" ∷ [];
}

abbrev fresh_db : JobsDb
fresh_db = job_db (job_at scheduled none)

abbrev after_a : JobsDb
after_a =
    (advance_workflow_step (no_faults 7) worker (codes "j") (at_step (codes "a")) fresh_db
      fresh_db).1

stamped : stamped_steps (job_at scheduled none) ≡ some both_steps
unfolding stamped_steps parse_template_steps parse_entries parse_step is_step_key trim
stamped = refl

standing : Standing worker (codes "t") (codes "j") both_steps fresh_db (job_at scheduled none)
unfolding find_job
standing = (refl, refl, refl, stamped)

no_skip : ¬ (next_step_key both_steps none ≡ some (codes "b"))
unfolding next_step_key index_after
no_skip h = ground arith

first_step :
    Stepped (no_faults 7) worker (codes "j") (at_step (codes "a")) fresh_db fresh_db after_a
unfolding next_step_key index_after find_job
first_step = (
  codes "t",
  job_at scheduled none,
  job_at scheduled none,
  both_steps,
  refl,
  refl,
  refl,
  refl,
  refl,
  refl,
  refl,
  stamped,
  refl,
  ap (λ x. x.1)
      (advance-next 7 worker (codes "t") (codes "j") (codes "a") both_steps fresh_db
        (job_at scheduled none) refl standing refl refl),
)

advance_workflow_step-Stepped_example :
    (after_a ≡ fresh_db)
    ⊎ Stepped (no_faults 7) worker (codes "j") (at_step (codes "a")) fresh_db fresh_db after_a
advance_workflow_step-Stepped_example =
    advance_workflow_step-Stepped (no_faults 7) worker (codes "j") (at_step (codes "a")) fresh_db
      fresh_db

advance_workflow_step-race_example :
    (advance_workflow_step
      (no_faults 8)
      worker
      (codes "j")
      (at_step (codes "a"))
      fresh_db
      after_a).1
    ≡ after_a
advance_workflow_step-race_example =
    advance_workflow_step-race (no_faults 7) (no_faults 8) worker worker (codes "j")
      (at_step (codes "a")) (at_step (codes "a")) fresh_db after_a refl first_step

walk-finishes_example :
    Walked
      (codes "t")
      (codes "j")
      none
      both_steps
      fresh_db
      (walk (no_faults 7) worker (codes "j") (codes "a" ∷ codes "b" ∷ []) fresh_db)
unfolding keeps_open sets_status_of
walk-finishes_example =
    walk-finishes 7 worker (codes "t") (codes "j") both_steps fresh_db (job_at scheduled none) refl
      standing refl refl
