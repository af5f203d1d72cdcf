-- ===== src/Flow/Soundness/Earlier.antt =====
-- packages/sdk/src/autohub_sdk/flow.py: where the accepted approvals send back to.
use autohub.Base.{
  ℕ, zero, suc, ◌<◌, ◌≡◌, refl, sym, ◌∙◌, ◌⊎◌, inl, inr, true, false, not, Bool-cases, Option, some,
  none, List, [], ◌∷◌, arith, Result, ok, raise_if_passed, bind_returned, get_elem?, ◌==◌, ◌>>◌,
  some_injective,
}
use autohub.Flow.Model.{ValueBinding, StepSpec, task_step, approval_step, ApprovalStep}
use autohub.Flow.Declared.{
  spec_id, contains, refers_earlier, check_inputs, revises_earlier, check_each, check_graph,
}
use autohub.Flow.Commands.{index_of}

-- A step with this id is among the first `i` steps.
abbrev IsBefore : ℕ → ℕ → List StepSpec → Type 0
IsBefore i id steps = (j : ℕ) × (index_of (λ s. spec_id s == id) steps ≡ some j) × (j < i)

IsBefore-next :
    (i id : ℕ) (s : StepSpec) (steps : List StepSpec)
    → IsBefore i id steps
    → IsBefore (suc i) id (s ∷ steps)
IsBefore-next i id s steps (j, found, lt) = elim (Bool-cases (spec_id s == id)) [
  | inl here ↦ (0, rw here refl, omega arith)
  | inr other ↦ (suc j, rw (other, found) refl, omega arith)
]

task-IsBefore :
    (i id : ℕ) (tasks : List ℕ) (s : StepSpec) (steps : List StepSpec)
    → (contains id (spec_id s ∷ tasks) ≡ true) ⊎ IsBefore i id steps
    → (contains id tasks ≡ true) ⊎ IsBefore (suc i) id (s ∷ steps)
task-IsBefore i id tasks s steps (inr before) = inr (IsBefore-next i id s steps before)
task-IsBefore i id tasks s steps (inl known) = elim (Bool-cases (spec_id s == id)) [
  | inl here ↦ inr (0, rw here refl, omega arith)
  | inr other ↦ inl (rw other at known)
]

approval-IsBefore :
    (i id : ℕ) (tasks : List ℕ) (s : StepSpec) (steps : List StepSpec)
    → (contains id tasks ≡ true) ⊎ IsBefore i id steps
    → (contains id tasks ≡ true) ⊎ IsBefore (suc i) id (s ∷ steps)
approval-IsBefore i id tasks s steps (inl known) = inl known
approval-IsBefore i id tasks s steps (inr before) = inr (IsBefore-next i id s steps before)

inputs_passed :
    (tasks : List ℕ) (inputs : List (ℕ × ValueBinding)) (rest : Result (List ℕ)) {after : List ℕ}
    → (check_inputs tasks inputs >> rest) ≡ ok after
    → rest ≡ ok after
inputs_passed tasks [] rest h = h
inputs_passed tasks ((key, b) ∷ bs) rest h = elim (Bool-cases (refers_earlier tasks b)) [
  | inl early ↦ inputs_passed tasks bs rest (rw early at h)
  | inr late ↦ let wrong = rw late at h in cc
]

revises_known :
    (tasks : List ℕ) (to : Option ℕ) (id : ℕ)
    → to ≡ some id
    → not (revises_earlier tasks to) ≡ false
    → contains id tasks ≡ true
revises_known tasks none id e h = cc
revises_known tasks (some k) id e h = rw (some_injective (sym e)) (ground (arith, h))

returns-IsBefore :
    (ids tasks : List ℕ) (steps : List StepSpec) {after : List ℕ}
    → check_each ids tasks steps ≡ ok after
    → (i : ℕ) (s : ApprovalStep) (id : ℕ) → get_elem? steps i ≡ some (approval_step s)
    → s.revise_to ≡ some id
    → (contains id tasks ≡ true) ⊎ IsBefore i id steps
returns-IsBefore ids tasks [] h i s id at_i to = cc
returns-IsBefore ids tasks (task_step t ∷ steps) h zero s id at_i to = cc
returns-IsBefore ids tasks (task_step t ∷ steps) h (suc i) s id at_i to =
    let fresh = raise_if_passed (contains t.id ids) 422 "Duplicate step ID" _ h in
    task-IsBefore i id tasks (task_step t) steps (
      returns-IsBefore (t.id ∷ ids) (t.id ∷ tasks) steps (inputs_passed tasks t.inputs _ fresh.1) i
        s id at_i to)
returns-IsBefore ids tasks (approval_step t ∷ steps) h zero s id at_i to =
    let fresh = raise_if_passed (contains t.id ids) 422 "Duplicate step ID" _ h in
    let early =
      raise_if_passed (not (revises_earlier tasks t.revise_to)) 422
        "revise_to must reference an earlier task" _ fresh.1 in
    let same : t ≡ s = cc in inl (revises_known tasks t.revise_to id (rw same to) early.0)
returns-IsBefore ids tasks (approval_step t ∷ steps) h (suc i) s id at_i to =
    let fresh = raise_if_passed (contains t.id ids) 422 "Duplicate step ID" _ h in
    let early =
      raise_if_passed (not (revises_earlier tasks t.revise_to)) 422
        "revise_to must reference an earlier task" _ fresh.1 in
    approval-IsBefore i id tasks (approval_step t) steps
      (returns-IsBefore (t.id ∷ ids) tasks steps early.1 i s id at_i to)

-- Whatever the SDK accepts, an approval sends back to a step before it.
pub check_graph-earlier :
    (steps : List StepSpec) (result_step : ℕ)
    → check_graph steps result_step ≡ ok tt
    → (i : ℕ) (s : ApprovalStep) (id target : ℕ) → get_elem? steps i ≡ some (approval_step s)
    → s.revise_to ≡ some id
    → index_of (λ spec. spec_id spec == id) steps ≡ some target
    → target < i
unfolding check_graph
check_graph-earlier steps result_step h i s id target at_i to found =
    let passed = bind_returned (check_each [] [] steps) _ h in
    elim (returns-IsBefore [] [] steps passed.1 i s id at_i to) [
      | inl known ↦ cc
      | inr (j, there, lt) ↦ rw (some_injective (sym found ∙ there)) lt
    ]
