-- ===== src/Flow/Model.antt =====
-- flows/models.py, and the contracts of autohub_sdk that a run's snapshot holds. Ids, keys, schemas
-- and field names are numbers. The rows are those of one run.
use autohub.Base.{ℕ, Option, List, String}

-- JSON, as far as the runtime looks into it.
mutual
  pub data Value : Type 0 where
    null : Value
    scalar : ℕ → Value
    object : Fields → Value

  pub data Fields : Type 0 where
    no_fields : Fields
    field : (key : ℕ) → Value → Fields → Fields

pub record TaskRef : Type 0 where
  pub key : ℕ
  pub contract_version : ℕ

-- `ValueBinding`: a literal, or a field of the run's inputs or of an earlier step's output.
pub data ValueBinding : Type 0 where
  literal_value : Value → ValueBinding
  run_ref : (path : List ℕ) → ValueBinding
  step_ref : (step_id : ℕ) → (path : List ℕ) → ValueBinding

pub record TaskStep : Type 0 where
  pub id : ℕ
  pub task : TaskRef
  pub inputs : List (ℕ × ValueBinding)
  pub max_attempts : ℕ

pub record ApprovalStep : Type 0 where
  pub id : ℕ
  pub deadline_seconds : ℕ
  pub revise_to : Option ℕ
  pub max_revisions : ℕ

pub data StepSpec : Type 0 where
  task_step : TaskStep → StepSpec
  approval_step : ApprovalStep → StepSpec

-- A row of `manifest.tasks`, or of `manifest.flows` with its steps.
pub record Definition : Type 0 where
  pub key : ℕ
  pub contract_version : ℕ
  pub input_schema : ℕ
  pub output_schema : ℕ
  pub flow : Option (List StepSpec × ℕ)

-- `ReleaseSpec`: the definitions of the manifest, the tasks before the flows.
pub record Release : Type 0 where
  pub definitions : List Definition

pub data RunStatus : Type 0 where
  queued running waiting canceling completed failed canceled : RunStatus

pub data StepStatus : Type 0 where
  step_queued step_running step_waiting step_completed step_failed step_canceled : StepStatus

pub data AttemptStatus : Type 0 where
  intent ready attempt_running observing attempt_completed attempt_failed attempt_canceled :
      AttemptStatus

-- `snapshot["definition"]` is `release`; the digests and bindings of a snapshot are only passed on.
pub record FlowRun : Type 0 where
  pub id : ℕ
  pub release : Release
  pub task : TaskRef
  pub inputs : Fields
  pub status : RunStatus
  pub revision : ℕ
  pub step_index : ℕ
  pub output : Option Value
  pub error : Option String
  pub next_action_at : Option ℕ
  pub lease_token : Option ℕ
  pub lease_expires_at : Option ℕ

pub record FlowStep : Type 0 where
  pub id : ℕ
  pub step_key : ℕ
  pub status : StepStatus
  pub attempt_count : ℕ
  pub rework_count : ℕ
  pub output : Option Value
  pub deadline : Option ℕ

pub record FlowAttempt : Type 0 where
  pub id : ℕ
  pub step_id : ℕ
  pub number : ℕ
  pub status : AttemptStatus
  pub inputs : List (ℕ × Value)
  pub output : Option Value
  pub error : Option String

-- A run with its steps in the order of their positions, and its attempts.
pub record Flow : Type 0 where
  pub run : FlowRun
  pub steps : List FlowStep
  pub attempts : List FlowAttempt
