-- ===== src/Flow/Soundness/Planning.antt =====
-- flows/runtime.py, `plan`: all its branches together.
use autohub.Base.{
  ℕ, suc, ◌<◌, ◌≡◌, refl, sym, subst, ◌∙◌, ◌⊎◌, inl, inr, Bool, true, false, if-both, Returns,
  Returns-bind, Option, some, none, List, ◌∷◌, arith, Result, ok, raise, ok_injective, length,
  get_elem?, leb, first, ◌==◌, ◌>>=◌, if◌then◌else◌, String,
}
use autohub.Flow.Model.{
  Value, Flow, FlowStep, FlowAttempt, StepSpec, task_step, approval_step, TaskStep, StepStatus,
}
use autohub.Flow.Contract.{Contract, contract, row_with, validate, output_value, resolve_all}
use autohub.Flow.Runtime.{
  WorkerAction, is_active, is_queued, put_at, operation_for, plan, plan_active, plan_at, finish,
  deadline_of, plan_queued, start_attempt, try_inputs, fail_run, fail_row, bump,
}
use autohub.Flow.Rows.{IsSplit-undone, is_done, get_elem?-lt}
use autohub.Flow.Soundness.{
  IsSound, IsResting, IsWorking, rests, IsAgreed, is_running, row_change-view,
}
use autohub.Flow.Soundness.Planned.{
  IsDispatched, IsPlanned, phase-going, await-IsPlanned, start-IsPlanned, rests-IsPlanned,
  finish-IsPlanned,
}
use autohub.Flow.Progress.{Move, idle, breaks, view, phase_of, going}

running_queued : (s : StepStatus) → is_running s ≡ true → is_queued s ≡ false
running_queued s h = ground arith

pub newest_first :
    (a : FlowAttempt) (rest : List FlowAttempt) (id : ℕ)
    → a.step_id ≡ id
    → first (λ b. b.step_id == id) (a ∷ rest) ≡ some a
newest_first a rest id h = ground arith

module _ (valid : ℕ → Value → Bool) (c : Contract) (g : Flow) (sound : IsSound c g)
    (on : is_active g.run.status ≡ true) where
  module _
      (resting : IsResting g.run.status
        (get_elem? g.steps g.run.step_index)
        (get_elem? c.steps g.run.step_index)
        g.attempts) where
    at_still : phase_of g.run.status ≡ going
    at_still = phase-going g.run.status on resting.0

    queued-IsPlanned :
        (r : FlowStep) (spec : TaskStep) (fresh : ℕ)
        → get_elem? g.steps g.run.step_index ≡ some r
        → get_elem? c.steps g.run.step_index ≡ some (task_step spec)
        → is_done r.status ≡ false
        → Returns (IsPlanned c g) (plan_queued valid g r spec fresh)
    unfolding contract
    queued-IsPlanned r spec fresh at_r at_spec undone =
        if-both (Returns (IsPlanned c g)) (leb spec.max_attempts r.attempt_count) _ _
          (λ full.
            rests-IsPlanned c g sound on resting r (fail_row r) at_r refl refl
              (fail_run g.run (some "attempt-limit")) g.attempts sound.0 refl refl
              (refl, resting.1, rw at_spec refl)
              (breaks at_still (
                row_change-view c g sound r (fail_row r) (fail_run g.run (some "attempt-limit"))
                  g.attempts at_r refl refl refl)))
          (λ few.
            let counted = record r { attempt_count = suc r.attempt_count } in
            Returns-bind (IsPlanned c g)
              (try_inputs valid g spec
                (resolve_all spec.inputs g.run (put_at g.run.step_index counted g.steps)))
              (λ (inputs, error). ok (start_attempt g counted spec fresh inputs error))
              (λ (tried : List (ℕ × Value) × Option String) e.
                start-IsPlanned c g sound on resting r spec at_r at_spec few fresh tried.0 tried.1))

    -- `plan` at the current row of a run that rests.
    at-IsPlanned :
        (fresh now : ℕ) (row : Option FlowStep) (spec : Option StepSpec)
        → get_elem? g.steps g.run.step_index ≡ row
        → get_elem? c.steps g.run.step_index ≡ spec
        → rests g.run.status row spec ≡ true
        → Returns (IsPlanned c g) (plan_at valid g fresh now row spec)
    at-IsPlanned fresh now none spec at_r at_spec still = tt
    at-IsPlanned fresh now (some r) none at_r at_spec still = tt
    at-IsPlanned fresh now (some r) (some (approval_step spec)) at_r at_spec still =
        await-IsPlanned c g sound on resting r spec (deadline_of r spec now r.deadline) now at_r
          at_spec (IsSplit-undone g.run.step_index r g.steps sound.2 at_r) (ground (arith, still))
    at-IsPlanned fresh now (some r) (some (task_step spec)) at_r at_spec still =
        if-both (Returns (IsPlanned c g)) (is_queued r.status) _ _
          (λ q.
            queued-IsPlanned r spec fresh at_r at_spec
              (IsSplit-undone g.run.step_index r g.steps sound.2 at_r))
          (λ other. absurd (ground (arith, still, other, on)))

  -- `plan` at the row that a worker works for.
  existing_at :
      (fresh now : ℕ) (r : FlowStep) (s : TaskStep) (a : FlowAttempt) (rest : List FlowAttempt)
      → is_running r.status ≡ true
      → g.attempts ≡ a ∷ rest
      → a.step_id ≡ r.id
      → plan_at valid g fresh now (some r) (some (task_step s))
        ≡ ok (
          g,
          some (record {
            attempt_id = a.id;
            revision = g.run.revision;
            operation = operation_for g.run a;
            task = s.task;
            inputs = a.inputs;
          }),
        )
  existing_at fresh now r s a rest busy split belongs =
      rw (running_queued r.status busy, split, newest_first a rest r.id belongs) refl

  existing-IsPlanned :
      (fresh now : ℕ)
      → IsWorking
          (get_elem? g.steps g.run.step_index)
          (get_elem? c.steps g.run.step_index)
          g.attempts
      → Returns (IsPlanned c g) (
          plan_at valid g fresh now
            (get_elem? g.steps g.run.step_index)
            (get_elem? c.steps g.run.step_index))
  existing-IsPlanned fresh now working =
      let (r, s, a, rest, at_r, busy, at_spec, split, belongs, closed) = working in
      subst
        (λ row.
          Returns (IsPlanned c g)
            (plan_at valid g fresh now row (get_elem? c.steps g.run.step_index)))
        (sym at_r)
        (subst (λ spec. Returns (IsPlanned c g) (plan_at valid g fresh now (some r) spec))
          (sym at_spec)
          (subst (Returns (IsPlanned c g))
            (sym (existing_at fresh now r s a rest busy split belongs))
            (sound, idle refl, refl, inr (refl, on, working, rw split refl))))

  ended :
      IsResting g.run.status
        (get_elem? g.steps g.run.step_index)
        (get_elem? c.steps g.run.step_index)
        g.attempts
      → leb (length g.steps) g.run.step_index ≡ true
      → (found : Result FlowStep)
      → Returns (IsPlanned c g) (
          (found >>= λ row. ok (record g {
            run =
                finish g.run row.output (validate valid c.output_schema (output_value row.output));
          }))
          >>= λ h. ok (h, none))
  ended resting end (raise e) = tt
  ended resting end (ok row) =
      finish-IsPlanned c g sound on resting end row.output
        (validate valid c.output_schema (output_value row.output))

  worked_inside :
      leb (length g.steps) g.run.step_index ≡ true
      → ¬ IsWorking
          (get_elem? g.steps g.run.step_index)
          (get_elem? c.steps g.run.step_index)
          g.attempts
  worked_inside end working =
      let inside = get_elem?-lt g.run.step_index working.0 g.steps working.4 in
      ground (arith, end, inside)

  active-IsPlanned :
      (fresh now : ℕ)
      → IsAgreed g.run.status
          (get_elem? g.steps g.run.step_index)
          (get_elem? c.steps g.run.step_index)
          g.attempts
      → Returns (IsPlanned c g) (plan_active valid c g fresh now)
  active-IsPlanned fresh now (inl resting) =
      if-both (Returns (IsPlanned c g)) (leb (length g.steps) g.run.step_index) _ _
        (λ end. ended resting end (row_with c.result_step g.steps))
        (λ inside. at-IsPlanned resting fresh now _ _ refl refl resting.2)
  active-IsPlanned fresh now (inr working) =
      if-both (Returns (IsPlanned c g)) (leb (length g.steps) g.run.step_index) _ _
        (λ end. absurd (worked_inside end working.0))
        (λ inside. existing-IsPlanned fresh now working.0)

-- What a transaction on a run does: it keeps the run sound, makes a move of the contract, and raises
-- the revision unless it changes nothing.
abbrev pub IsStep : Contract → Flow → Flow → Type 0
IsStep c f h =
    IsSound c h × Move c.steps (view f) (view h) × ((h ≡ f) ⊎ (f.run.revision < h.run.revision))

abbrev pub IsPlanStep : Contract → Flow → Flow × Option WorkerAction → Type 0
IsPlanStep c f out = IsStep c f out.0 × IsDispatched c out.0 out.1

planned_step :
    (c : Contract) (f : Flow) (m : Result (Flow × Option WorkerAction))
    → Returns (IsPlanned c (record f { run = bump f.run })) m
    → Returns (IsPlanStep c f) m
planned_step c f (raise e) h = tt
planned_step c f (ok out) h = ((h.0, h.1, inr (ground (arith, h))), h.3)

pub plan-IsPlanStep :
    (valid : ℕ → Value → Bool) (c : Contract) (f : Flow) (fresh now : ℕ)
    → IsSound c f
    → Returns (IsPlanStep c f) (plan valid f fresh now)
unfolding plan contract
plan-IsPlanStep valid c f fresh now sound =
    Returns-bind (IsPlanStep c f) (contract f.run)
      (λ d.
        if is_active f.run.status
        then plan_active valid d (record f { run = bump f.run }) fresh now
        else ok (f, none))
      (λ d e.
        if-both (Returns (IsPlanStep c f)) (is_active f.run.status) _ _
          (λ on.
            subst
              (λ k.
                Returns (IsPlanStep c f)
                  (plan_active valid k (record f { run = bump f.run }) fresh now))
              (ok_injective (sym sound.0 ∙ e))
              (planned_step c f _ (
                active-IsPlanned valid c (record f { run = bump f.run }) sound on fresh now
                  sound.3)))
          (λ off. ((sound, idle refl, inl refl), tt)))
