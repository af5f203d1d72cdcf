-- ===== src/Flow/Runtime.antt =====
-- flows/runtime.py, FlowRuntime: how a run is planned, and how a worker's result is applied. Each
-- function is one transaction on the locked run, whose `bump` therefore finds the revision it read.
-- `valid` is the JSON Schema library, `fresh` a new id. An exception that is no FlowError has the
-- status 500. The attempts are kept newest first, so the last one of a step comes first here.
pub mod Changes
pub use Changes.*
use autohub.Base.{
  ℕ, zero, suc, ◌+◌, Bool, true, false, not, Option, none, some, List, [], ◌∷◌, String, Result, ok,
  raise, project_error, ProjectError, ◌>>=◌, if◌then◌else◌, ◌==◌, first, leb, length, get_elem?,
}
use autohub.Flow.Model.{
  Value, object, Fields, no_fields, field, TaskRef, TaskStep, ApprovalStep, StepSpec, task_step,
  approval_step, RunStatus, queued, running, waiting, canceling, completed, failed, StepStatus,
  step_queued, step_running, step_waiting, step_failed, AttemptStatus, intent, ready,
  attempt_failed, FlowRun, FlowStep, FlowAttempt, Flow,
}
use autohub.Flow.Contract.{
  Contract, contract, definition, validate, resolve_all, row_with, output_value,
}
use autohub.Run.Lease.{seconds}

-- `plan` behind the last step.
abbrev pub finish : FlowRun → Option Value → Result (Unit {0}) → FlowRun
finish run output (ok _) = record run {
  status = completed;
  output = output;
  error = none;
  next_action_at = none;
}
finish run output (raise e) = fail_run run (some "flow-output-invalid")

abbrev pub plan_end : (valid : ℕ → Value → Bool) → Contract → Flow → Result Flow
plan_end valid c f = do
  row ← row_with c.result_step f.steps
  ok (record f {
    run = finish f.run row.output (validate valid c.output_schema (output_value row.output));
  })

-- `plan` at an approval, whose deadline is set.
abbrev pub await : Flow → FlowStep → (deadline now : ℕ) → Flow
await f row deadline now =
    if leb deadline now
    then set_row f (fail_run f.run (some "approval-deadline")) (fail_row row)
    else set_row f (record f.run { status = waiting; next_action_at = some deadline })
        (record row { status = step_waiting })

abbrev pub deadline_of : FlowStep → ApprovalStep → (now : ℕ) → Option ℕ → ℕ
deadline_of row spec now none = now + seconds spec.deadline_seconds
deadline_of row spec now (some t) = t

abbrev pub plan_approval : Flow → FlowStep → ApprovalStep → (now : ℕ) → Flow
plan_approval f row spec now =
    let deadline = deadline_of row spec now row.deadline in
    await f (record row { deadline = some deadline }) deadline now

-- The dictionary of a task's inputs, as a value.
abbrev pub as_fields : List (ℕ × Value) → Fields
as_fields [] = no_fields
as_fields ((key, v) ∷ rest) = field key v (as_fields rest)

abbrev pub is_flow_error : ProjectError → Bool
is_flow_error e = not (e.status == 500)

-- The inner `try` of `plan`: the inputs, and the code of the FlowError that it caught.
abbrev pub checked :
    List (ℕ × Value) → Result (Unit {0}) → Result (List (ℕ × Value) × Option String)
checked inputs (ok _) = ok (inputs, none)
checked inputs (raise e) = ok (inputs, some e.detail)

abbrev pub try_inputs :
    (valid : ℕ → Value → Bool)
    → Flow
    → TaskStep
    → Result (List (ℕ × Value))
    → Result (List (ℕ × Value) × Option String)
try_inputs valid f spec (raise e) = if is_flow_error e then ok ([], some e.detail) else raise e
try_inputs valid f spec (ok inputs) = checked inputs (
    definition f.run.release spec.task >>= λ d.
    validate valid d.input_schema (object (as_fields inputs)))

-- The new attempt of a row whose count includes it.
abbrev pub start_attempt :
    Flow
    → FlowStep
    → TaskStep
    → (fresh : ℕ) → List (ℕ × Value)
    → Option String
    → Flow × Option WorkerAction
start_attempt f row spec fresh inputs (some error) = (
  record (set_row f (fail_run f.run (some error)) (fail_row row)) {
    attempts =
        record {
          id = fresh;
          step_id = row.id;
          number = row.attempt_count;
          status = attempt_failed;
          inputs = inputs;
          output = none;
          error = some error;
        }
        ∷ f.attempts;
  },
  none,
)
start_attempt f row spec fresh inputs none = (
  record (set_row f (record f.run { status = running; error = none })
      (record row { status = step_running })) {
        attempts =
            record {
              id = fresh;
              step_id = row.id;
              number = row.attempt_count;
              status = intent;
              inputs = inputs;
              output = none;
              error = none;
            }
            ∷ f.attempts;
      },
  some (record {
    attempt_id = fresh;
    revision = f.run.revision;
    operation = submit;
    task = spec.task;
    inputs = inputs;
  }),
)

-- `plan` at a task whose row is queued.
abbrev pub plan_queued :
    (valid : ℕ → Value → Bool)
    → Flow
    → FlowStep
    → TaskStep
    → (fresh : ℕ) → Result (Flow × Option WorkerAction)
plan_queued valid f row spec fresh =
    if leb spec.max_attempts row.attempt_count
    then ok (set_row f (fail_run f.run (some "attempt-limit")) (fail_row row), none)
    else (try_inputs valid f spec (
          resolve_all spec.inputs f.run (
            put_at f.run.step_index (record row { attempt_count = suc row.attempt_count }) f.steps))
        >>= λ (inputs, error). ok (
            start_attempt f (record row { attempt_count = suc row.attempt_count }) spec fresh inputs
              error))

abbrev pub operation_for : FlowRun → FlowAttempt → Operation
operation_for run a =
    if is_canceling run.status then cancel else if is_ready a.status then submit else inspect

-- `plan` at a task with the last attempt of its row.
abbrev pub plan_existing :
    Flow → TaskStep → Option FlowAttempt → Result (Flow × Option WorkerAction)
plan_existing f spec none = raise (project_error 500 "running flow step has no durable attempt")
plan_existing f spec (some a) = ok (
  f,
  some (record {
    attempt_id = a.id;
    revision = f.run.revision;
    operation = operation_for f.run a;
    task = spec.task;
    inputs = a.inputs;
  }),
)

abbrev pub plan_at :
    (valid : ℕ → Value → Bool)
    → Flow
    → (fresh now : ℕ) → Option FlowStep
    → Option StepSpec
    → Result (Flow × Option WorkerAction)
plan_at valid f fresh now (some row) (some (approval_step spec)) =
    ok (plan_approval f row spec now, none)
plan_at valid f fresh now (some row) (some (task_step spec)) =
    if is_queued row.status
    then plan_queued valid f row spec fresh
    else plan_existing f spec (first (λ a. a.step_id == row.id) f.attempts)
plan_at valid f fresh now _ _ = raise (project_error 500 "IndexError")

abbrev pub plan_active :
    (valid : ℕ → Value → Bool)
    → Contract
    → Flow
    → (fresh now : ℕ) → Result (Flow × Option WorkerAction)
plan_active valid c f fresh now =
    if leb (length f.steps) f.run.step_index
    then (plan_end valid c f >>= λ g. ok (g, none))
    else plan_at valid f fresh now (get_elem? f.steps f.run.step_index)
        (get_elem? c.steps f.run.step_index)

-- FlowRuntime.plan.
unfoldable pub plan :
    (valid : ℕ → Value → Bool) → Flow → (fresh now : ℕ) → Result (Flow × Option WorkerAction)
plan valid f fresh now = contract f.run >>= λ c.
    if is_active f.run.status
    then plan_active valid c (record f { run = bump f.run }) fresh now
    else ok (f, none)
