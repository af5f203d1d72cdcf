-- ===== src/Flow/Attempts/Commanded.antt =====
-- flows/runtime.py, `command_transition`: commands neither make attempts nor change their counts.
use autohub.Base.{
  ℕ, refl, ◌≡◌, ◌∙◌, ◌&&◌, if-both, Returns, Returns-bind, Returns-guard, Option, some, none, ok,
  require, get_elem?, ◌==◌, any, leb,
}
use autohub.Flow.Model.{Flow, FlowStep, StepSpec, task_step, approval_step, ApprovalStep}
use autohub.Flow.Contract.{Contract, contract}
use autohub.Flow.Declared.{spec_id}
use autohub.Flow.Commands.{
  Action, approve, revise, cancel, resume, command_transition, command_at, cancel_run, decide,
  revise_run, index_of, send_back, spec_at, is_past, row_waits, run_waits, row_failed, run_failed,
  is_resume, is_cancel, can_cancel, is_open,
}
use autohub.Flow.Attempts.Made.{IsKept, row-tally, map-reset_from-tallied}

cancel_run-IsKept :
    (f : Flow) (row : Option FlowStep) (now : ℕ)
    → get_elem? f.steps f.run.step_index ≡ row
    → IsKept f (cancel_run f row now)
cancel_run-IsKept f none now at_r =
    if-both (IsKept f) (any (λ a. is_open a.status) f.attempts) _ _ (λ _. (refl, refl))
      (λ _. (refl, refl))
cancel_run-IsKept f (some r) now at_r =
    if-both (IsKept f) (any (λ a. is_open a.status) f.attempts) _ _ (λ _. (refl, refl))
      (λ _. (row-tally f r at_r _ refl, refl))

module _ (c : Contract) (f : Flow) (r : FlowStep)
    (at_r : get_elem? f.steps f.run.step_index ≡ some r) where
  revise_run-IsKept :
      (spec : ApprovalStep) (now : ℕ) (to : Option ℕ)
      → Returns (IsKept f) (revise_run c f r spec now to)
  revise_run-IsKept spec now none = tt
  revise_run-IsKept spec now (some id) =
      Returns-guard (IsKept f) (leb spec.max_revisions r.rework_count) 409 "revision-limit" _ (λ _.
        Returns-bind (IsKept f)
          (require (index_of (λ s. spec_id s == id) c.steps) 500 "StopIteration")
          (λ target. ok (send_back f r target now))
          (λ target _. (map-reset_from-tallied target _ ∙ row-tally f r at_r _ refl, refl)))

  decide-IsKept :
      (spec : ApprovalStep) (action : Action) (now : ℕ)
      → Returns (IsKept f) (decide c f r spec action now)
  decide-IsKept spec approve now = (row-tally f r at_r _ refl, refl)
  decide-IsKept spec revise now = revise_run-IsKept spec now spec.revise_to
  decide-IsKept spec cancel now = tt
  decide-IsKept spec resume now = tt

command_at-IsKept :
    (c : Contract) (f : Flow) (row : Option FlowStep) (spec : Option StepSpec) (action : Action)
    (now : ℕ)
    → get_elem? f.steps f.run.step_index ≡ row
    → Returns (IsKept f) (command_at c f row spec action now)
command_at-IsKept c f none spec action now at_r = tt
command_at-IsKept c f (some r) none action now at_r = tt
command_at-IsKept c f (some r) (some (approval_step s)) action now at_r =
    if-both (Returns (IsKept f)) (row_waits r.status && run_waits f.run.status) _ _
      (λ _.
        Returns-guard (IsKept f) (is_past r.deadline now) 409 "approval-expired" _
          (λ _. decide-IsKept c f r at_r s action now))
      (λ _. tt)
command_at-IsKept c f (some r) (some (task_step s)) action now at_r =
    if-both (Returns (IsKept f))
      (is_resume action && (run_failed f.run.status && row_failed r.status)) _ _
      (λ _.
        Returns-guard (IsKept f) (leb s.max_attempts r.attempt_count) 409 "attempt-limit" _
          (λ _. (row-tally f r at_r _ refl, refl)))
      (λ _. tt)

pub command_transition-IsKept :
    (f : Flow) (action : Action) (now : ℕ) → Returns (IsKept f) (command_transition f action now)
unfolding command_transition
command_transition-IsKept f action now = Returns-bind (IsKept f) (contract f.run) _ (λ c _.
    Returns-bind (IsKept f) (spec_at c f.run.step_index (get_elem? f.steps f.run.step_index)) _
      (λ spec _.
        if-both (Returns (IsKept f)) (is_cancel action && can_cancel f.run.status) _ _
          (λ _. cancel_run-IsKept f _ now refl)
          (λ _. command_at-IsKept c f _ spec action now refl)))
