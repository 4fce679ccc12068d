-- ===== src/Jobs/Advance.antt =====
-- src/jobs/workflow.service.ts with the database function `advance_workflow_step` (the newest of
-- supabase/migrations): one advance of a job to a step. The row is read first and written later, so the
-- advance has two tables: the jobs when it reads and the jobs when it writes. `Link` says which calls of
-- the database fail; the answer is the job's row, which the code renames field by field.
pub mod Location
pub mod Laws
pub mod Walk
pub mod Race
use fenzit_be.Jobs.Advance.Location.{step_metadata, AdvanceWorkflowDto, StepMetadata}
use fenzit_be.Attendance.Errors.{
  forbidden, internal_server_error, validation_error, job_not_modifiable, invalid_workflow_step,
  ErrorCode, resource_not_found,
}
use fenzit_be.Jobs.Workflow.{
  sets_status_of, parse_template_steps, next_step_key, TemplateStep, RawEntry, SetsStatus,
}
use mathlib.Core.Option
use fenzit_be.Prelude.{
  ◌==◌, inr, [], false, ◌&&◌, none, inl, ◌∷◌, codes, ◌++◌, if◌then◌else◌, get_or, true, find,
  text_eq, ◌⊎◌, some, map, Option, Bool, ◌≡◌, List, Text, ℕ, refl,
}

pub data JobStatus : Type 0 where
  scheduled in_progress completed cancelled : JobStatus

pub record StampedTemplate : Type 0 where
  pub version : ℕ
  pub steps : Option (List RawEntry)

pub record JobRow : Type 0 where
  pub id : Text
  pub tenant_id : Text
  pub status : JobStatus
  pub current_step : Option Text
  pub technician_id : Text
  pub workflow_template_version : ℕ
  pub workflow_templates : Option StampedTemplate
  pub completed_at : Option ℕ

pub record ActivityLog : Type 0 where
  pub job_id : Text
  pub tenant_id : Text
  pub event_type : Text
  pub actor_id : Text
  pub metadata : Option StepMetadata

pub record JobNotification : Type 0 where
  pub tenant_id : Text
  pub user_id : Text
  pub job_id : Text
  pub event_type : Text

pub record JobsDb : Type 0 where
  pub jobs : List JobRow
  pub activity_logs : List ActivityLog
  pub notifications : List JobNotification
  -- the active admins of a company
  pub admins : Text → List Text

pub record Caller : Type 0 where
  pub user_id : Text
  pub tenant_id : Option Text

-- `currentStep` is the field that a rejected step adds to its answer.
pub record JobException : Type 0 where
  pub status : ℕ
  pub error_code : ErrorCode
  pub current_step : Option (Option Text)

pub data JobResult (A : Type 0) : Type 0 where
  answered : A → JobResult A
  refused : JobException → JobResult A

infixl 5 ◌>>=◌
abbrev pub ◌>>=◌ : {A B : Type 0} → JobResult A → (A → JobResult B) → JobResult B
answered a >>= k = k a
refused e >>= k = refused e

pub JobResult-cases :
    {A : Type 0} (r : JobResult A)
    → ((e : JobException) × (r ≡ refused e)) ⊎ ((a : A) × (r ≡ answered a))
JobResult-cases (refused e) = inl (e, refl)
JobResult-cases (answered a) = inr (a, refl)

abbrev pub job_exception : ℕ → ErrorCode → JobException
job_exception status code = record { status = status; error_code = code; current_step = none }

abbrev pub fails : {A : Type 0} → ℕ → ErrorCode → JobResult A
fails status code = refused (job_exception status code)

-- The calls of the database that fail, with the code of the write; the clock of the write.
pub record Link : Type 0 where
  pub read_error : Bool
  pub reread_error : Bool
  pub rpc_error : Option Text
  pub now : ℕ

abbrev pub is_job : Text → Text → JobRow → Bool
is_job tenant_id id j = text_eq j.id id && text_eq j.tenant_id tenant_id

unfoldable pub find_job : JobsDb → (tenant_id id : Text) → Option JobRow
find_job db tenant_id id = find (is_job tenant_id id) db.jobs

abbrev pub is_open : JobStatus → Bool
is_open scheduled = true
is_open in_progress = true
is_open _ = false

-- `requested === nextStepKey(steps, currentStep)`
unfoldable pub validate_step : List TemplateStep → Option Text → Text → Bool
validate_step steps current requested = elim (next_step_key steps current) [
  | none ↦ false
  | some key ↦ text_eq requested key
]

-- The steps of the stamp, when its version is the one that the job carries.
unfoldable pub stamped_steps : JobRow → Option (List TemplateStep)
stamped_steps row = elim row.workflow_templates [
  | none ↦ none
  | some stamp ↦
      if stamp.version == row.workflow_template_version
      then parse_template_steps stamp.steps
      else none
]

abbrev pub to_job_status : SetsStatus → JobStatus
to_job_status SetsStatus.in_progress = in_progress
to_job_status SetsStatus.completed = completed

pub record AdvanceParams : Type 0 where
  pub job_id : Text
  pub tenant_id : Text
  pub actor_id : Text
  pub step : Text
  pub new_status : Option JobStatus
  pub expected_current_step : Option Text
  pub metadata : Option StepMetadata

pub data RpcResult : Type 0 where
  rpc_rows : List JobRow → RpcResult
  rpc_error : Text → RpcResult

abbrev pub same_step : Option Text → Option Text → Bool
same_step none none = true
same_step (some a) (some b) = text_eq a b
same_step _ _ = false

abbrev completion : Option JobStatus → ℕ → Option ℕ → Option ℕ
completion (some completed) now before = some now
completion _ now before = before

unfoldable pub advanced : AdvanceParams → ℕ → JobRow → JobRow
advanced p now j = record j {
  current_step = some p.step;
  status = get_or p.new_status j.status;
  completed_at = completion p.new_status now j.completed_at;
}

abbrev pub set_job : Text → JobRow → JobRow → JobRow
set_job id row j = if text_eq j.id id then row else j

abbrev to_notice : AdvanceParams → Text → JobNotification
to_notice p user_id = record {
  tenant_id = p.tenant_id;
  user_id = user_id;
  job_id = p.job_id;
  event_type = p.step;
}

notices : AdvanceParams → List Text → List JobNotification
notices p [] = []
notices p (user_id ∷ admins) =
    let rest = notices p admins in
    if text_eq user_id p.actor_id then rest else to_notice p user_id ∷ rest

unfoldable pub written : AdvanceParams → JobRow → JobsDb → JobsDb
unfolding notices
written p row db = record db {
  jobs = map (set_job p.job_id row) db.jobs;
  activity_logs =
      db.activity_logs
      ++ (record {
        job_id = p.job_id;
        tenant_id = p.tenant_id;
        event_type = codes "step_" ++ p.step;
        actor_id = p.actor_id;
        metadata = p.metadata;
      }
          ∷ []);
  notifications = db.notifications ++ notices p (db.admins p.tenant_id);
}

abbrev pub conflict : Text
conflict = codes "PT409"

-- The database function: the row is locked, so its tests and its write are one step.
unfoldable pub advance_rpc : ℕ → AdvanceParams → JobsDb → RpcResult × JobsDb
advance_rpc now p db = elim (find_job db p.tenant_id p.job_id) [
  | none ↦ (rpc_rows [], db)
  | some job ↦
      if is_open job.status
      then if same_step job.current_step p.expected_current_step
        then (rpc_rows (advanced p now job ∷ []), written p (advanced p now job) db)
        else (rpc_error conflict, db)
      else (rpc_error conflict, db)
]

-- The gates before the step is looked at.
unfoldable pub gated_row : Link → JobsDb → Caller → Text → JobResult JobRow
gated_row link db user job_id = elim user.tenant_id [
  | none ↦ fails 400 validation_error
  | some tenant_id ↦
      if link.read_error
      then fails 500 internal_server_error
      else elim (find_job db tenant_id job_id) [
        | none ↦ fails 404 resource_not_found
        | some row ↦
            if text_eq row.technician_id user.user_id
            then if is_open row.status then answered row else fails 409 job_not_modifiable
            else fails 403 forbidden
      ]
]

abbrev pub is_same_step : JobRow → Text → Bool
is_same_step row step = same_step row.current_step (some step)

-- The step is there already: the row is read again and answered.
unfoldable pub replayed : Link → JobsDb → (tenant_id job_id : Text) → JobResult JobRow
replayed link db tenant_id job_id = elim (find_job db tenant_id job_id) [
  | none ↦ fails 404 resource_not_found
  | some row ↦ if link.reread_error then fails 404 resource_not_found else answered row
]

abbrev invalid_step : {A : Type 0} → Option Text → JobResult A
invalid_step current =
    refused
      (record { status = 422; error_code = invalid_workflow_step; current_step = some current })

abbrev pub params_of :
    JobRow → (actor_id : Text) → AdvanceWorkflowDto → List TemplateStep → AdvanceParams
params_of row actor_id dto steps = record {
  job_id = row.id;
  tenant_id = row.tenant_id;
  actor_id = actor_id;
  step = dto.step;
  new_status = Option.map to_job_status (sets_status_of steps dto.step);
  expected_current_step = row.current_step;
  metadata = step_metadata steps dto;
}

-- The parameters of the write, for a step that the template allows.
unfoldable pub advance_params :
    JobRow → (actor_id : Text) → AdvanceWorkflowDto → JobResult AdvanceParams
advance_params row actor_id dto = elim (stamped_steps row) [
  | none ↦ fails 500 internal_server_error
  | some steps ↦
      if validate_step steps row.current_step dto.step
      then answered (params_of row actor_id dto steps)
      else invalid_step row.current_step
]

rpc_answer : RpcResult → JobResult JobRow
rpc_answer (rpc_rows []) = fails 404 resource_not_found
rpc_answer (rpc_rows (row ∷ rows)) = answered row
rpc_answer (rpc_error code) =
    if text_eq code conflict then fails 409 job_not_modifiable else fails 500 internal_server_error

-- A call that fails on its way writes nothing.
unfoldable pub call_rpc : Link → AdvanceParams → JobsDb → JobResult JobRow × JobsDb
unfolding rpc_answer
call_rpc link p db = elim link.rpc_error [
  | some code ↦ (rpc_answer (rpc_error code), db)
  | none ↦ let result = advance_rpc link.now p db in (rpc_answer result.0, result.1)
]

abbrev pub or_refuse :
    {A : Type 0}
    → JobResult A
    → JobsDb
    → (A → JobResult JobRow × JobsDb)
    → JobResult JobRow × JobsDb
or_refuse (refused e) db k = (refused e, db)
or_refuse (answered a) db k = k a

-- `advanceWorkflowStep`: the jobs as they are read, and as they are when the write comes.
unfoldable pub advance_workflow_step :
    Link
    → Caller
    → (job_id : Text) → AdvanceWorkflowDto
    → (read db : JobsDb) → JobResult JobRow × JobsDb
advance_workflow_step link user job_id dto read db =
    or_refuse (gated_row link read user job_id) db (λ row.
      if is_same_step row dto.step
      then (replayed link db row.tenant_id job_id, db)
      else or_refuse (advance_params row user.user_id dto) db (λ p. call_rpc link p db))
