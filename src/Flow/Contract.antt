-- ===== src/Flow/Contract.antt =====
-- flows/validation.py and the first part of runtime.py: the contract of a run. A FlowError is an
-- error with its status and its code; what the JSON Schema library says of a value is `valid`.
use autohub.Base.{
  ℕ, Bool, not, ◌&&◌, Option, none, some, List, [], ◌∷◌, Result, ok, raise_if, require, ◌>>=◌,
  if◌then◌else◌, ◌==◌, first,
}
use autohub.Flow.Model.{
  Value, null, object, Fields, no_fields, field, TaskRef, ValueBinding, literal_value, run_ref,
  step_ref, StepSpec, task_step, Definition, Release, FlowRun, FlowStep,
}

abbrev pub same_ref : TaskRef → Definition → Bool
same_ref ref d = d.key == ref.key && d.contract_version == ref.contract_version

-- `definition`.
unfoldable pub definition : Release → TaskRef → Result Definition
definition release ref = require (first (same_ref ref) release.definitions) 404 "task-not-found"

pub record Contract : Type 0 where
  pub steps : List StepSpec
  pub result_step : ℕ
  pub output_schema : ℕ

-- The step id "task".
abbrev pub task_step_id : ℕ
task_step_id = 0

-- `{key: LiteralValue(value) for key, value in inputs.items()}`.
abbrev pub literals : Fields → List (ℕ × ValueBinding)
literals no_fields = []
literals (field key v rest) = (key, literal_value v) ∷ literals rest

abbrev pub steps_of : Definition → TaskRef → Fields → Option (List StepSpec × ℕ) → Contract
steps_of d ref inputs (some (steps, result_step)) = record {
  steps = steps;
  result_step = result_step;
  output_schema = d.output_schema;
}
steps_of d ref inputs none = record {
  steps =
      task_step
        (record { id = task_step_id; task = ref; inputs = literals inputs; max_attempts = 1 })
      ∷ [];
  result_step = task_step_id;
  output_schema = d.output_schema;
}

-- `steps_for`.
unfoldable pub steps_for : Release → TaskRef → Fields → Result Contract
steps_for release ref inputs = do d ← definition release ref; ok (steps_of d ref inputs d.flow)

-- `contract`.
unfoldable pub contract : FlowRun → Result Contract
contract run = steps_for run.release run.task run.inputs

-- `validate`.
abbrev pub validate : (valid : ℕ → Value → Bool) → ℕ → Value → Result (Unit {0})
validate valid schema value = raise_if (not (valid schema value)) 422 "schema-invalid"

abbrev pub lookup : ℕ → Fields → Option Value
lookup key no_fields = none
lookup key (field k v rest) = let later = lookup key rest in if k == key then some v else later

abbrev pub field_of : Value → ℕ → Option Value
field_of (object fields) key = lookup key fields
field_of _ key = none

-- The loop over the path of a reference.
abbrev pub follow : List ℕ → Value → Result Value
follow [] value = ok value
follow (key ∷ path) value =
    require (field_of value key) 422 "input-reference" >>= λ v. follow path v

abbrev pub output_value : Option Value → Value
output_value none = null
output_value (some v) = v

-- `next(row for row in rows if row.step_key == key)`.
abbrev pub row_with : ℕ → List FlowStep → Result FlowStep
row_with key rows = require (first (λ r. r.step_key == key) rows) 500 "StopIteration"

-- `resolve`.
unfoldable pub resolve : ValueBinding → FlowRun → List FlowStep → Result Value
resolve (literal_value v) run rows = ok v
resolve (run_ref path) run rows = follow path (object run.inputs)
resolve (step_ref step_id path) run rows =
    row_with step_id rows >>= λ row. follow path (output_value row.output)

-- `{key: resolve(binding, run, rows) for key, binding in spec.inputs.items()}`.
unfoldable pub resolve_all :
    List (ℕ × ValueBinding) → FlowRun → List FlowStep → Result (List (ℕ × Value))
resolve_all [] run rows = ok []
resolve_all ((key, b) ∷ bs) run rows =
    resolve b run rows >>= λ v. resolve_all bs run rows >>= λ rest. ok ((key, v) ∷ rest)
