-- ===== src/Flow/Worker/Stale.antt =====
-- flows/worker.py and flows/services.py: a worker's result that comes after a command.
use autohub.Base.{
  ℕ, ◌≤◌, ◌≡◌, ◌≢◌, refl, subst, Bool, false, not, ◌||◌, ◌&&◌, if-both, Option, none, some, ok,
  require, Returns, Returns-bind, Returns-guard, returned, bind_returned, raise_if_passed,
  ok_injective, arith, leb, first, ◌==◌, get_elem?, any,
}
use autohub.Flow.Model.{Value, Flow, FlowStep, StepSpec, task_step, approval_step, ApprovalStep}
use autohub.Flow.Contract.{Contract, contract}
use autohub.Flow.Declared.{spec_id}
use autohub.Flow.Runtime.{WorkerAction, WorkerResult, bump}
use autohub.Flow.Commands.{
  Action, approve, revise, cancel, resume, command_transition, command_at, cancel_run, decide,
  revise_run, index_of, send_back, spec_at, is_past, row_waits, run_waits, row_failed, run_failed,
  is_resume, is_cancel, can_cancel, is_open,
}
use autohub.Flow.Service.{Ledger, RunCommand, command}
use autohub.Flow.Worker.{settle, is_fenced}

abbrev KeepsRevision : Flow → Flow → Type 0
KeepsRevision g h = h.run.revision ≡ g.run.revision

cancel_run-revision :
    (g : Flow) (row : Option FlowStep) (now : ℕ) → KeepsRevision g (cancel_run g row now)
cancel_run-revision g none now =
    if-both (KeepsRevision g) (any (λ a. is_open a.status) g.attempts) _ _ (λ _. refl) (λ _. refl)
cancel_run-revision g (some row) now =
    if-both (KeepsRevision g) (any (λ a. is_open a.status) g.attempts) _ _ (λ _. refl) (λ _. refl)

revise_run-revision :
    (c : Contract) (g : Flow) (row : FlowStep) (spec : ApprovalStep) (now : ℕ) (to : Option ℕ)
    → Returns (KeepsRevision g) (revise_run c g row spec now to)
revise_run-revision c g row spec now none = tt
revise_run-revision c g row spec now (some id) =
    Returns-guard (KeepsRevision g) (leb spec.max_revisions row.rework_count) 409 "revision-limit" _
      (λ _.
        Returns-bind (KeepsRevision g)
          (require (index_of (λ s. spec_id s == id) c.steps) 500 "StopIteration")
          (λ target. ok (send_back g row target now)) (λ _ _. refl))

decide-revision :
    (c : Contract) (g : Flow) (row : FlowStep) (spec : ApprovalStep) (action : Action) (now : ℕ)
    → Returns (KeepsRevision g) (decide c g row spec action now)
decide-revision c g row spec approve now = refl
decide-revision c g row spec revise now = revise_run-revision c g row spec now spec.revise_to
decide-revision c g row spec cancel now = tt
decide-revision c g row spec resume now = tt

command_at-revision :
    (c : Contract) (g : Flow) (row : Option FlowStep) (spec : Option StepSpec) (action : Action)
    (now : ℕ)
    → Returns (KeepsRevision g) (command_at c g row spec action now)
command_at-revision c g none spec action now = tt
command_at-revision c g (some row) none action now = tt
command_at-revision c g (some row) (some (approval_step s)) action now =
    if-both (Returns (KeepsRevision g)) (row_waits row.status && run_waits g.run.status) _ _
      (λ _.
        Returns-guard (KeepsRevision g) (is_past row.deadline now) 409 "approval-expired" _
          (λ _. decide-revision c g row s action now))
      (λ _. tt)
command_at-revision c g (some row) (some (task_step s)) action now =
    if-both (Returns (KeepsRevision g))
      (is_resume action && (run_failed g.run.status && row_failed row.status)) _ _
      (λ _.
        Returns-guard (KeepsRevision g) (leb s.max_attempts row.attempt_count) 409 "attempt-limit" _
          (λ _. refl))
      (λ _. tt)

command_transition-revision :
    (g : Flow) (action : Action) (now : ℕ)
    → Returns (KeepsRevision g) (command_transition g action now)
unfolding command_transition
command_transition-revision g action now = Returns-bind (KeepsRevision g) (contract g.run) _ (λ c _.
    Returns-bind (KeepsRevision g) (spec_at c g.run.step_index (get_elem? g.steps g.run.step_index))
      _
      (λ spec _.
        if-both (Returns (KeepsRevision g)) (is_cancel action && can_cancel g.run.status) _ _
          (λ _. cancel_run-revision g (get_elem? g.steps g.run.step_index) now)
          (λ _. command_at-revision c g _ spec action now)))

settle_stale :
    (valid : ℕ → Value → Bool) (f : Flow) (action : WorkerAction) (token : ℕ)
    (outcome : Option WorkerResult) (now : ℕ)
    → f.run.revision ≢ action.revision
    → settle valid f action token outcome now ≡ ok (f, false)
unfolding settle
settle_stale valid f action token outcome now ne =
    if-both (λ m. m ≡ ok (f, false))
      (not (is_fenced f token now) || not (f.run.revision == action.revision)) _ _ (λ _. refl)
      (λ same. absurd (ground (arith, same, ne)))

-- After a command with a new id was accepted, whatever a worker brings for an action that was planned
-- before changes nothing and is not applied, also while its lease lasts.
pub settle-command :
    (valid : ℕ → Value → Bool) (digest : ℕ → ℕ) (l : Ledger) (body : RunCommand)
    (request_digest actor now : ℕ) (out : Ledger × Flow) (action : WorkerAction) (token : ℕ)
    (outcome : Option WorkerResult) (later : ℕ)
    → first (λ c. c.command_key == body.command_id) l.commands ≡ none
    → command digest l body request_digest actor now ≡ ok out
    → action.revision ≤ l.flow.run.revision
    → settle valid out.0.flow action token outcome later ≡ ok (out.0.flow, false)
unfolding command
settle-command valid digest l body request_digest actor now out action token outcome later new h
      old =
    let fresh =
      raise_if_passed (not (l.flow.run.revision == body.expected_revision)) 409 "stale-revision" _
        (rw new at h) in
    let g = record l.flow { run = bump l.flow.run } in
    let (after, moved, done) = bind_returned (command_transition g body.action now) _ fresh.1 in
    let raised =
      returned (KeepsRevision g) _ (command_transition-revision g body.action now) moved in
    subst (λ o. settle valid o.0.flow action token outcome later ≡ ok (o.0.flow, false))
      (ok_injective done)
      (settle_stale valid after action token outcome later
        (λ same. omega (arith, raised, same, old)))
