-- ===== src/Flow/Results.antt =====
-- flows/runtime.py, `apply`: the result of a worker on a run that is still at the planned revision.
-- No code deletes an attempt, so the one that an action names is found.
use autohub.Base.{
  ℕ, suc, ◌+◌, Bool, Option, none, some, String, Result, ok, raise, require, project_error, ◌>>=◌,
  if◌then◌else◌, ◌==◌, first, get_elem?,
}
use autohub.Flow.Model.{
  Value, StepSpec, task_step, queued, running, waiting, canceled, step_running, step_completed,
  step_canceled, AttemptStatus, ready, observing, attempt_completed, attempt_failed,
  attempt_canceled, FlowStep, FlowAttempt, Flow,
}
use autohub.Flow.Contract.{contract, definition, validate, output_value}
use autohub.Flow.Runtime.{
  WorkerAction, WorkerStatus, WorkerResult, pending, worker_completed, worker_failed,
  worker_canceled, not_found, is_canceling, bump, set_all, set_attempt, fail_run, fail_row,
}
use autohub.Run.Lease.{seconds}

-- `apply` while the run is canceling.
abbrev pub settle_canceled : Flow → FlowStep → FlowAttempt → AttemptStatus → WorkerResult → Flow
settle_canceled f row a status result =
    set_all f (record f.run { status = canceled; next_action_at = none })
      (record row { status = step_canceled })
      (record a { status = status; output = result.output; error = result.error })

abbrev pub apply_canceling :
    Flow → FlowStep → FlowAttempt → WorkerStatus → WorkerResult → (now : ℕ) → Flow
apply_canceling f row a worker_canceled result now = settle_canceled f row a attempt_canceled result
apply_canceling f row a worker_completed result now =
    settle_canceled f row a attempt_completed result
apply_canceling f row a worker_failed result now = settle_canceled f row a attempt_failed result
apply_canceling f row a _ result now = record f {
  run = record f.run { next_action_at = some (now + seconds 5) };
}

abbrev pub error_or : Option String → String → Option String
error_or none text = some text
error_or (some e) text = some e

-- A worker that failed or canceled on its own.
abbrev pub settle_failed :
    Flow → FlowStep → FlowAttempt → AttemptStatus → Option Value → Option String → Flow
settle_failed f row a status output error =
    set_all f (fail_run f.run error) (fail_row row)
      (record a { status = status; output = output; error = error })

-- A completed worker, its output checked.
abbrev pub settle_completed :
    Flow → FlowStep → FlowAttempt → Option Value → (now : ℕ) → Result (Unit {0}) → Flow
settle_completed f row a output now (raise e) =
    settle_failed f row a attempt_failed a.output (some "worker-output-invalid")
settle_completed f row a output now (ok _) =
    set_all f
      (record f.run {
        step_index = suc f.run.step_index;
        status = queued;
        error = none;
        next_action_at = some now;
      })
      (record row { status = step_completed; output = output })
      (record a { status = attempt_completed; output = output })

abbrev pub apply_completed :
    (valid : ℕ → Value → Bool)
    → Option StepSpec
    → Flow
    → FlowStep
    → FlowAttempt
    → WorkerResult
    → (now : ℕ) → Result Flow
apply_completed valid (some (task_step spec)) f row a result now = ok (
    settle_completed f row a result.output now (
      definition f.run.release spec.task >>= λ d.
      validate valid d.output_schema (output_value result.output)))
apply_completed valid _ f row a result now = raise (project_error 500 "AssertionError")

-- The rest of `apply`.
abbrev pub apply_status :
    (valid : ℕ → Value → Bool)
    → Option StepSpec
    → Flow
    → FlowStep
    → FlowAttempt
    → WorkerStatus
    → WorkerResult
    → (now : ℕ) → Result Flow
apply_status valid spec f row a not_found result now = ok (
    set_all f (record f.run { status = running; error = none; next_action_at = some now })
      (record row { status = step_running }) (record a { status = ready }))
apply_status valid spec f row a pending result now = ok (
    set_attempt f
      (record f.run {
        status = waiting;
        error = result.error;
        next_action_at = some (now + seconds 5);
      })
      (record a { status = observing; output = result.output; error = result.error }))
apply_status valid spec f row a worker_failed result now =
    ok (settle_failed f row a attempt_failed result.output (error_or result.error "worker-failed"))
apply_status valid spec f row a worker_canceled result now =
    ok (
      settle_failed f row a attempt_canceled result.output
        (error_or result.error "worker-canceled"))
apply_status valid spec f row a worker_completed result now =
    apply_completed valid spec f row a result now

abbrev pub apply_result :
    (valid : ℕ → Value → Bool)
    → Option StepSpec
    → Flow
    → FlowStep
    → FlowAttempt
    → WorkerResult
    → (now : ℕ) → Result Flow
apply_result valid spec f row a result now =
    if is_canceling f.run.status
    then ok (apply_canceling f row a result.status result now)
    else apply_status valid spec f row a result.status result now

-- FlowRuntime.apply.
unfoldable pub apply :
    (valid : ℕ → Value → Bool) → Flow → WorkerAction → WorkerResult → (now : ℕ) → Result Flow
apply valid f action result now = contract f.run >>= λ c.
    require (get_elem? f.steps f.run.step_index) 500 "IndexError" >>= λ row.
    require (first (λ a. a.id == action.attempt_id) f.attempts) 500 "AttributeError" >>= λ a.
    apply_result valid (get_elem? c.steps f.run.step_index) (record f { run = bump f.run }) row a
      result now
