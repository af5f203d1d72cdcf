-- ===== src/Run/Model.antt =====
-- pipeline_runs/models.py. Identifiers, SHAs, refs, owners and URLs are only compared for equality,
-- so they are numbers; a reason keeps its text as a constructor. An instant counts microseconds.
use autohub.Base.{ℕ, Bool, true, false, Option}

pub data PipelineRunState : Type 0 where
  queued dispatching implementing awaiting_ci paused blocked completed failed canceled :
      PipelineRunState

pub data ExecutionAttemptKind : Type 0 where
  implementation ci_fix conflict_fix : ExecutionAttemptKind

-- `Dispatching`, `Completed` and `Failed` are named apart from the states of a run.
pub data ExecutionAttemptState : Type 0 where
  planned attempt_dispatching running suspended attempt_completed attempt_failed :
      ExecutionAttemptState

-- ACTIVE_RUN_STATES.
abbrev pub is_active : PipelineRunState → Bool
is_active completed = false
is_active failed = false
is_active canceled = false
is_active _ = true

-- IN_FLIGHT_RUN_STATES.
abbrev pub is_in_flight : PipelineRunState → Bool
is_in_flight queued = true
is_in_flight dispatching = true
is_in_flight implementing = true
is_in_flight awaiting_ci = true
is_in_flight _ = false

-- FINAL_RUN_STATES.
abbrev pub is_final : PipelineRunState → Bool
is_final completed = true
is_final failed = true
is_final canceled = true
is_final _ = false

-- ATTENTION_RUN_STATES.
abbrev pub needs_attention : PipelineRunState → Bool
needs_attention paused = true
needs_attention blocked = true
needs_attention failed = true
needs_attention _ = false

-- The texts of `pause_reason` and `failure_detail`; `project_changed true` carries the warning
-- that the agent may still be at work.
pub data Reason : Type 0 where
  manually_paused manually_canceled closed_without_merge superseded_by_resume run_was_canceled
        worker_reported_failure github_auth_wait :
      Reason
  question_dismissed_reason : Reason
  decision_required : (question : ℕ) → Reason
  project_changed : (in_flight : Bool) → Reason
  given_reason : ℕ → Reason

pub data FailureCode : Type 0 where
  pr_closed project_changed_code user_resumed canceled_code worker_failed : FailureCode
  given_code : ℕ → FailureCode

pub data ExternalStatus : Type 0 where
  implemented_externally : ExternalStatus
  provider_status : ℕ → ExternalStatus

-- The JSON of `sdd_progress` as far as this code reads it; `evidence` stands for its other keys.
pub record SddProgress : Type 0 where
  pub waiting_for_approval : Bool
  pub evidence : ℕ

-- `sdd_snapshot` is `none` for a missing and for an empty snapshot, which the code treats alike.
pub record PipelineRun : Type 0 where
  pub id : ℕ
  pub project_id : ℕ
  pub ai_catalog_id : ℕ
  pub requested_catalog_id : Option ℕ
  pub sdd_snapshot : Option ℕ
  pub sdd_progress : Option SddProgress
  pub project_revision : ℕ
  pub github_repository : Option ℕ
  pub github_connector_id : Option ℕ
  pub pull_number : ℕ
  pub pull_url : ℕ
  pub pull_snapshot : ℕ
  pub state : PipelineRunState
  pub pause_reason : Option Reason
  pub branch : ℕ
  pub revision : ℕ
  pub epoch : ℕ
  pub lease_owner : Option ℕ
  pub lease_token : Option ℕ
  pub lease_expires_at : Option ℕ
  pub next_action_at : Option ℕ
  pub quota_block_count : ℕ
  pub notified_revision : Option ℕ
  pub updated_at : ℕ

-- The part of a request that the code reads again: the pull request's revision and the task text.
pub record ImplementationRequest : Type 0 where
  pub head_sha : ℕ
  pub head_ref : ℕ
  pub base_ref : ℕ
  pub instructions : ℕ
  pub correlation_marker : ℕ

pub record ExecutionAttempt : Type 0 where
  pub id : ℕ
  pub pipeline_run_id : ℕ
  pub attempt_number : ℕ
  pub epoch : ℕ
  pub kind : ExecutionAttemptKind
  pub state : ExecutionAttemptState
  pub request_snapshot : ImplementationRequest
  pub request_digest : ℕ
  pub idempotency_key : ℕ
  pub external_status : Option ExternalStatus
  pub started_at : Option ℕ
  pub finished_at : Option ℕ
  pub failure_code : Option FailureCode
  pub failure_detail : Option Reason

-- The states that `active_attempt` selects.
abbrev pub is_open : ExecutionAttemptState → Bool
is_open attempt_completed = false
is_open attempt_failed = false
is_open _ = true

abbrev pub is_attempt_dispatching : ExecutionAttemptState → Bool
is_attempt_dispatching attempt_dispatching = true
is_attempt_dispatching _ = false
