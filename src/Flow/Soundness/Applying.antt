-- ===== src/Flow/Soundness/Applying.antt =====
-- flows/runtime.py, `apply`: the result of a current action, whatever it is.
use autohub.Base.{
  ℕ, ◌≡◌, sym, subst, ◌∙◌, inl, inr, Bool, Returns, Returns-bind, require-some, some, List, ◌∷◌,
  arith, Result, ok, raise, some_injective, require, get_elem?, first, ◌==◌,
}
use autohub.Flow.Model.{Value, Flow, FlowAttempt}
use autohub.Flow.Contract.{Contract, contract}
use autohub.Flow.Runtime.{WorkerAction, WorkerResult, bump}
use autohub.Flow.Results.{apply_result, apply}
use autohub.Flow.Soundness.{IsSound}
use autohub.Flow.Soundness.Planned.{IsCurrent, newest_id}
use autohub.Flow.Soundness.Planning.{IsStep}
use autohub.Flow.Soundness.Applied.{IsOutcome, result-IsOutcome}

first_id :
    (a : FlowAttempt) (rest : List FlowAttempt) (id : ℕ)
    → a.id ≡ id
    → first (λ x. x.id == id) (a ∷ rest) ≡ some a
first_id a rest id h = ground arith

outcome-IsStep :
    (c : Contract) (f : Flow) (m : Result Flow)
    → Returns (IsOutcome c (record f { run = bump f.run })) m
    → Returns (IsStep c f) m
outcome-IsStep c f (raise e) h = tt
outcome-IsStep c f (ok out) h = (h.0, h.1, inr (ground (arith, h)))

found_newest :
    (a b : FlowAttempt) (items rest : List FlowAttempt) (id : ℕ)
    → items ≡ a ∷ rest
    → newest_id items ≡ some id
    → first (λ x. x.id == id) items ≡ some b
    → a ≡ b
found_newest a b items rest id split newest found =
    let same : some a.id ≡ some id = rw split at newest in
    let there : first (λ x. x.id == id) (a ∷ rest) ≡ some b = rw split at found in
    some_injective (sym (first_id a rest id (some_injective same)) ∙ there)

-- The result of a current action's worker, at the revision that it was planned at.
pub apply-IsStep :
    (valid : ℕ → Value → Bool) (c : Contract) (f : Flow) (action : WorkerAction)
    (result : WorkerResult) (now : ℕ)
    → IsSound c f
    → IsCurrent c f action
    → f.run.revision ≡ action.revision
    → Returns (IsStep c f) (apply valid f action result now)
unfolding apply contract
apply-IsStep valid c f action result now sound (inl old) same = absurd (omega arith)
apply-IsStep valid c f action result now sound (inr (e, on, working, newest)) same =
    let (r, s, a, rest, at_r, busy, at_spec, split, belongs, closed) = working in
    Returns-bind (IsStep c f) (contract f.run) _ (λ d e_d.
      Returns-bind (IsStep c f) (require (get_elem? f.steps f.run.step_index) 500 "IndexError") _
        (λ row e_row.
          Returns-bind (IsStep c f)
            (require (first (λ x. x.id == action.attempt_id) f.attempts) 500 "AttributeError") _
            (λ b e_b.
              let spec = get_elem? d.steps f.run.step_index in
              let g = record f { run = bump f.run } in
              let same_row : r ≡ row =
                some_injective (sym at_r ∙ require-some _ 500 "IndexError" e_row) in
              let same_attempt =
                found_newest a b f.attempts rest action.attempt_id split newest
                  (require-some _ 500 "AttributeError" e_b) in
              subst (λ x. Returns (IsStep c f) (apply_result valid spec g x b result now)) same_row
                (subst (λ x. Returns (IsStep c f) (apply_result valid spec g r x result now))
                  same_attempt
                  (outcome-IsStep c f _ (
                    result-IsOutcome c g sound r s a rest at_r busy at_spec split belongs closed
                      valid spec result now on))))))
