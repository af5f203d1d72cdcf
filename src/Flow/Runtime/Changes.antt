-- ===== src/Flow/Runtime/Changes.antt =====
-- flows/adapters.py and flows/repos.py: what a worker is asked and answers, and the writes that the
-- transactions of runtime.py make.
use autohub.Base.{
  ℕ, zero, suc, Bool, true, false, Option, none, List, [], ◌∷◌, String, if◌then◌else◌, ◌==◌,
}
use autohub.Flow.Model.{
  Value, TaskRef, RunStatus, queued, running, waiting, canceling, failed, StepStatus, step_queued,
  step_failed, AttemptStatus, ready, FlowRun, FlowStep, FlowAttempt, Flow,
}

pub data Operation : Type 0 where
  submit inspect cancel : Operation

-- The binding, the release and its digest are only passed on.
pub record WorkerAction : Type 0 where
  pub attempt_id : ℕ
  pub revision : ℕ
  pub operation : Operation
  pub task : TaskRef
  pub inputs : List (ℕ × Value)

pub data WorkerStatus : Type 0 where
  pending worker_completed worker_failed worker_canceled not_found : WorkerStatus

pub record WorkerResult : Type 0 where
  pub status : WorkerStatus
  pub output : Option Value
  pub error : Option String

-- ACTIVE of repos.py, also the test in `plan`.
abbrev pub is_active : RunStatus → Bool
is_active queued = true
is_active running = true
is_active waiting = true
is_active canceling = true
is_active _ = false

abbrev pub is_canceling : RunStatus → Bool
is_canceling canceling = true
is_canceling _ = false

abbrev pub is_queued : StepStatus → Bool
is_queued step_queued = true
is_queued _ = false

abbrev pub is_ready : AttemptStatus → Bool
is_ready ready = true
is_ready _ = false

-- FlowRepository.bump.
abbrev pub bump : FlowRun → FlowRun
bump run = record run { revision = suc run.revision }

module _ {ℓ} {A : Type ℓ} where
  -- `rows[i] = row`, for the changes of the row at a position.
  abbrev pub put_at : ℕ → A → List A → List A
  put_at i row [] = []
  put_at zero row (r ∷ rs) = row ∷ rs
  put_at (suc i) row (r ∷ rs) = r ∷ put_at i row rs

abbrev pub put_attempt : FlowAttempt → List FlowAttempt → List FlowAttempt
put_attempt a [] = []
put_attempt a (b ∷ bs) = let rest = put_attempt a bs in if b.id == a.id then a ∷ bs else b ∷ rest

-- The changes of a transaction: the run, its current row and, perhaps, an attempt.
abbrev pub set_row : Flow → FlowRun → FlowStep → Flow
set_row f run row = record f { run = run; steps = put_at f.run.step_index row f.steps }

abbrev pub set_all : Flow → FlowRun → FlowStep → FlowAttempt → Flow
set_all f run row a = record f {
  run = run;
  steps = put_at f.run.step_index row f.steps;
  attempts = put_attempt a f.attempts;
}

abbrev pub set_attempt : Flow → FlowRun → FlowAttempt → Flow
set_attempt f run a = record f { run = run; attempts = put_attempt a f.attempts }

-- `run.status, run.error, run.next_action_at = "failed", error, None`.
abbrev pub fail_run : FlowRun → Option String → FlowRun
fail_run run error = record run { status = failed; error = error; next_action_at = none }

abbrev pub fail_row : FlowStep → FlowStep
fail_row row = record row { status = step_failed }
