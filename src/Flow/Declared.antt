-- ===== src/Flow/Declared.antt =====
-- packages/sdk/src/autohub_sdk/flow.py, `FlowSpec.check_graph`: what the SDK accepts as the steps of
-- a flow. A ValueError carries the status 422 here.
use autohub.Base.{
  ℕ, Bool, true, not, Option, none, some, List, [], ◌∷◌, Result, ok, raise_if, ◌>>=◌, ◌>>◌, ◌==◌,
  any,
}
use autohub.Flow.Model.{ValueBinding, step_ref, StepSpec, task_step, approval_step}

abbrev pub spec_id : StepSpec → ℕ
spec_id (task_step s) = s.id
spec_id (approval_step s) = s.id

abbrev pub contains : ℕ → List ℕ → Bool
contains id ids = any (λ k. k == id) ids

abbrev pub refers_earlier : List ℕ → ValueBinding → Bool
refers_earlier tasks (step_ref id path) = contains id tasks
refers_earlier tasks _ = true

-- The loop over `step.inputs.values()`.
abbrev pub check_inputs : List ℕ → List (ℕ × ValueBinding) → Result (Unit {0})
check_inputs tasks [] = ok tt
check_inputs tasks ((key, b) ∷ bs) =
    raise_if (not (refers_earlier tasks b)) 422 "Step input must reference an earlier task"
    >> check_inputs tasks bs

abbrev pub revises_earlier : List ℕ → Option ℕ → Bool
revises_earlier tasks none = true
revises_earlier tasks (some id) = contains id tasks

-- The loop over the steps, with `identifiers` and `previous_tasks`. It returns the latter.
abbrev pub check_each : (identifiers previous_tasks : List ℕ) → List StepSpec → Result (List ℕ)
check_each ids tasks [] = ok tasks
check_each ids tasks (task_step s ∷ steps) =
    raise_if (contains s.id ids) 422 "Duplicate step ID"
    >> (check_inputs tasks s.inputs >> check_each (s.id ∷ ids) (s.id ∷ tasks) steps)
check_each ids tasks (approval_step s ∷ steps) =
    raise_if (contains s.id ids) 422 "Duplicate step ID"
    >> (raise_if (not (revises_earlier tasks s.revise_to)) 422
          "revise_to must reference an earlier task"
        >> check_each (s.id ∷ ids) tasks steps)

-- `FlowSpec.check_graph`.
unfoldable pub check_graph : List StepSpec → (result_step : ℕ) → Result (Unit {0})
check_graph steps result_step = check_each [] [] steps >>= λ tasks.
    raise_if (not (contains result_step tasks)) 422 "result_step must reference a task"
