-- ===== src/Flow/Commands.antt =====
-- flows/runtime.py, `command_transition`: what people do to a run.
use autohub.Base.{
  ℕ, zero, suc, Bool, true, false, ◌&&◌, Option, none, some, List, [], ◌∷◌, Result, ok, raise,
  raise_if, require, project_error, ◌>>=◌, ◌>>◌, if◌then◌else◌, ◌==◌, leb, any, get_elem?,
}
use autohub.Flow.Model.{
  TaskStep, ApprovalStep, StepSpec, task_step, approval_step, RunStatus, queued, waiting, canceling,
  completed, failed, canceled, StepStatus, step_queued, step_waiting, step_completed, step_failed,
  step_canceled, AttemptStatus, intent, ready, attempt_running, observing, FlowRun, FlowStep, Flow,
}
use autohub.Flow.Contract.{Contract, contract}
use autohub.Flow.Declared.{spec_id}
use autohub.Flow.Runtime.{put_at, set_row}

pub data Action : Type 0 where
  approve revise cancel resume : Action

abbrev pub is_cancel : Action → Bool
is_cancel cancel = true
is_cancel _ = false

abbrev pub is_resume : Action → Bool
is_resume resume = true
is_resume _ = false

-- `run.status not in ("completed", "canceled", "canceling")`.
abbrev pub can_cancel : RunStatus → Bool
can_cancel completed = false
can_cancel canceled = false
can_cancel canceling = false
can_cancel _ = true

-- `item.status in ("intent", "ready", "running", "observing")`.
abbrev pub is_open : AttemptStatus → Bool
is_open intent = true
is_open ready = true
is_open attempt_running = true
is_open observing = true
is_open _ = false

abbrev pub run_waits : RunStatus → Bool
run_waits waiting = true
run_waits _ = false

abbrev pub run_failed : RunStatus → Bool
run_failed failed = true
run_failed _ = false

abbrev pub row_waits : StepStatus → Bool
row_waits step_waiting = true
row_waits _ = false

abbrev pub row_failed : StepStatus → Bool
row_failed step_failed = true
row_failed _ = false

abbrev pub cancel_idle : Flow → Option FlowStep → Flow
cancel_idle f none = record f { run = record f.run { status = canceled; next_action_at = none } }
cancel_idle f (some row) =
    set_row f (record f.run { status = canceled; next_action_at = none })
      (record row { status = step_canceled; deadline = none })

-- The action "cancel".
abbrev pub cancel_run : Flow → Option FlowStep → (now : ℕ) → Flow
cancel_run f row now =
    if any (λ a. is_open a.status) f.attempts
    then record f { run = record f.run { status = canceling; next_action_at = some now } }
    else cancel_idle f row

-- `run.status, run.error, run.next_action_at = "queued", None, now`.
abbrev pub requeue : FlowRun → (now : ℕ) → FlowRun
requeue run now = record run { status = queued; error = none; next_action_at = some now }

module _ {ℓ} {A : Type ℓ} where
  abbrev pub index_of : (A → Bool) → List A → Option ℕ
  index_of p [] = none
  index_of p (x ∷ xs) =
      let rest = index_of p xs in
      if p x then some 0 else elim rest [ none ↦ none | some i ↦ some (suc i) ]

abbrev pub reset : FlowStep → FlowStep
reset row = record row { status = step_queued; output = none; deadline = none }

-- `for item in rows[target:]`.
abbrev pub reset_from : ℕ → List FlowStep → List FlowStep
reset_from i [] = []
reset_from zero (r ∷ rs) = reset r ∷ reset_from zero rs
reset_from (suc i) (r ∷ rs) = r ∷ reset_from i rs

abbrev pub send_back : Flow → FlowStep → (target now : ℕ) → Flow
send_back f row target now = record f {
  run = record (requeue f.run now) { step_index = target };
  steps =
      reset_from target
        (put_at f.run.step_index (record row { rework_count = suc row.rework_count }) f.steps);
}

-- The action "revise".
abbrev pub revise_run :
    Contract → Flow → FlowStep → ApprovalStep → (now : ℕ) → Option ℕ → Result Flow
revise_run c f row spec now none = raise (project_error 409 "revision-limit")
revise_run c f row spec now (some id) =
    raise_if (leb spec.max_revisions row.rework_count) 409 "revision-limit"
    >> (require (index_of (λ s. spec_id s == id) c.steps) 500 "StopIteration" >>= λ target.
        ok (send_back f row target now))

abbrev pub approve_row : Flow → FlowStep → (now : ℕ) → Flow
approve_row f row now =
    set_row f (record (requeue f.run now) { step_index = suc f.run.step_index })
      (record row { status = step_completed; deadline = none })

abbrev pub decide : Contract → Flow → FlowStep → ApprovalStep → Action → (now : ℕ) → Result Flow
decide c f row spec approve now = ok (approve_row f row now)
decide c f row spec revise now = revise_run c f row spec now spec.revise_to
decide c f row spec _ now = raise (project_error 409 "invalid-command")

abbrev pub is_past : Option ℕ → (now : ℕ) → Bool
is_past none now = false
is_past (some t) now = leb t now

abbrev pub resume_run : Flow → FlowStep → TaskStep → (now : ℕ) → Result Flow
resume_run f row spec now =
    raise_if (leb spec.max_attempts row.attempt_count) 409 "attempt-limit"
    >> ok (set_row f (requeue f.run now) (record row { status = step_queued; output = none }))

-- `command_transition` behind the action "cancel".
abbrev pub command_at :
    Contract → Flow → Option FlowStep → Option StepSpec → Action → (now : ℕ) → Result Flow
command_at c f (some row) (some (approval_step spec)) action now =
    if row_waits row.status && run_waits f.run.status
    then (raise_if (is_past row.deadline now) 409 "approval-expired"
        >> decide c f row spec action now)
    else raise (project_error 409 "invalid-command")
command_at c f (some row) (some (task_step spec)) action now =
    if is_resume action && (run_failed f.run.status && row_failed row.status)
    then resume_run f row spec now
    else raise (project_error 409 "invalid-command")
command_at c f _ _ action now = raise (project_error 409 "invalid-command")

-- `specs[run.step_index] if row else None`.
abbrev pub spec_at : Contract → ℕ → Option FlowStep → Result (Option StepSpec)
spec_at c i none = ok none
spec_at c i (some row) = require (get_elem? c.steps i) 500 "IndexError" >>= λ s. ok (some s)

unfoldable pub command_transition : Flow → Action → (now : ℕ) → Result Flow
command_transition f action now = contract f.run >>= λ c.
    spec_at c f.run.step_index (get_elem? f.steps f.run.step_index) >>= λ spec.
    if is_cancel action && can_cancel f.run.status
    then ok (cancel_run f (get_elem? f.steps f.run.step_index) now)
    else command_at c f (get_elem? f.steps f.run.step_index) spec action now
