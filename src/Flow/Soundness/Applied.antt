-- ===== src/Flow/Soundness/Applied.antt =====
-- flows/runtime.py, `apply`, on a sound run for an action that is still current.
use autohub.Base.{
  ℕ, suc, ◌+◌, ◌≡◌, refl, sym, subst, ◌∙◌, inl, inr, Bool, true, false, if-both, Returns, Option,
  some, none, List, ◌∷◌, arith, All, Result, ok, raise, get_elem?, String,
}
use autohub.Run.Lease.{seconds}
use autohub.Flow.Model.{
  Value, Flow, FlowRun, FlowStep, FlowAttempt, StepSpec, task_step, approval_step, TaskStep,
  AttemptStatus, RunStatus, queued, running, step_running, step_completed, step_canceled, ready,
  observing, attempt_completed, attempt_failed, attempt_canceled,
}
use autohub.Flow.Contract.{Contract, contract}
use autohub.Flow.Runtime.{
  WorkerResult, WorkerStatus, pending, worker_completed, worker_failed, worker_canceled, not_found,
  is_active, is_canceling, put_attempt, set_all, fail_run, fail_row,
}
use autohub.Flow.Results.{
  settle_canceled, apply_canceling, settle_failed, settle_completed, apply_status, apply_result,
  error_or,
}
use autohub.Flow.Commands.{is_open}
use autohub.Flow.Rows.{is_done}
use autohub.Flow.Soundness.{
  IsSound, IsClosed, is_running, row_change-IsSound, row_change-view, row_done-IsSound,
  row_done-Move,
}
use autohub.Flow.Soundness.Planned.{phase-going}
use autohub.Flow.Progress.{Move, idle, breaks, stop_acknowledged, view, phase_of, going, stopping}

put_newest :
    (a b : FlowAttempt) (rest : List FlowAttempt)
    → b.id ≡ a.id
    → put_attempt b (a ∷ rest) ≡ b ∷ rest
put_newest a b rest h = ground arith

phase-stopping : (s : RunStatus) → is_canceling s ≡ true → phase_of s ≡ stopping
phase-stopping s h = ground arith

abbrev pub IsOutcome : Contract → Flow → Flow → Type 0
IsOutcome c g h = IsSound c h × Move c.steps (view g) (view h) × (h.run.revision ≡ g.run.revision)

module _ (c : Contract) (g : Flow) (sound : IsSound c g) (r : FlowStep) (s : TaskStep)
    (a : FlowAttempt) (rest : List FlowAttempt) (at_r : get_elem? g.steps g.run.step_index ≡ some r)
    (busy : is_running r.status ≡ true)
    (at_spec : get_elem? c.steps g.run.step_index ≡ some (task_step s))
    (split : g.attempts ≡ a ∷ rest) (belongs : a.step_id ≡ r.id) (closed : All IsClosed rest) where
  closed_put :
      (b : FlowAttempt) → b.id ≡ a.id → IsClosed b → All IsClosed (put_attempt b g.attempts)
  closed_put b same shut = rw (split, put_newest a b rest same) (shut, closed)

  -- The worker goes on: the row stays running.
  goes_on :
      (run : FlowRun) (row : FlowStep) (b : FlowAttempt)
      → contract run ≡ ok c
      → run.step_index ≡ g.run.step_index
      → run.revision ≡ g.run.revision
      → is_active run.status ≡ true
      → phase_of run.status ≡ phase_of g.run.status
      → is_running row.status ≡ true
      → row.attempt_count ≡ r.attempt_count
      → row.rework_count ≡ r.rework_count
      → row.id ≡ r.id
      → b.id ≡ a.id
      → b.step_id ≡ a.step_id
      → IsOutcome c g (set_all g run row b)
  goes_on run row b same at_i revision on phase still tries reworks id_row id_b step_b = (
    row_change-IsSound c g sound r row run (put_attempt b g.attempts) at_r same at_i
        (ground (arith, still))
        (inr (
          (
            row,
            s,
            b,
            rest,
            refl,
            still,
            at_spec,
            rw split (put_newest a b rest id_b),
            step_b ∙ belongs ∙ sym id_row,
            closed,
          ),
          on,
        )),
    idle (
        row_change-view c g sound r row run (put_attempt b g.attempts) at_r at_i tries reworks
        ∙ rw phase refl),
    revision,
  )

  -- The worker is done, and the row is not completed.
  gives_up :
      (run : FlowRun) (row : FlowStep) (b : FlowAttempt)
      → contract run ≡ ok c
      → run.step_index ≡ g.run.step_index
      → run.revision ≡ g.run.revision
      → is_active run.status ≡ false
      → is_done row.status ≡ false
      → is_running row.status ≡ false
      → row.attempt_count ≡ r.attempt_count
      → row.rework_count ≡ r.rework_count
      → b.id ≡ a.id
      → IsClosed b
      → Move c.steps (view g) (record (view g) { phase = phase_of run.status })
      → IsOutcome c g (set_all g run row b)
  gives_up run row b same at_i revision off undone still tries reworks id_b shut move = (
    row_change-IsSound c g sound r row run (put_attempt b g.attempts) at_r same at_i undone (
        inl (ground (arith, off), closed_put b id_b shut, rw at_spec (ground (arith, off, still)))),
    subst (Move c.steps (view g))
        (sym
          (row_change-view c g sound r row run (put_attempt b g.attempts) at_r at_i tries reworks))
        move,
    revision,
  )

  -- The worker completed the row.
  goes_next :
      (run : FlowRun) (row : FlowStep) (b : FlowAttempt)
      → contract run ≡ ok c
      → run.step_index ≡ suc g.run.step_index
      → run.revision ≡ g.run.revision
      → run.status ≡ queued
      → phase_of g.run.status ≡ going
      → is_done row.status ≡ true
      → row.attempt_count ≡ r.attempt_count
      → row.rework_count ≡ r.rework_count
      → b.id ≡ a.id
      → IsClosed b
      → IsOutcome c g (set_all g run row b)
  goes_next run row b same at_i revision on live done tries reworks id_b shut = (
    row_done-IsSound c g sound r row run (put_attempt b g.attempts) at_r same at_i on done tries
        reworks (closed_put b id_b shut),
    row_done-Move c g sound r row run (put_attempt b g.attempts) at_r same at_i on done tries
        reworks (closed_put b id_b shut) live,
    revision,
  )

  failed-IsOutcome :
      (status : AttemptStatus) (output : Option Value) (error : Option String)
      → is_open status ≡ false
      → phase_of g.run.status ≡ going
      → IsOutcome c g (settle_failed g r a status output error)
  unfolding contract
  failed-IsOutcome status output error shut live =
      gives_up (fail_run g.run error) (fail_row r)
        (record a { status = status; output = output; error = error }) sound.0 refl refl refl refl
        refl refl refl refl shut (breaks live refl)

  completed-IsOutcome :
      (output : Option Value) (now : ℕ) (checked : Result (Unit {0}))
      → phase_of g.run.status ≡ going
      → IsOutcome c g (settle_completed g r a output now checked)
  unfolding contract
  completed-IsOutcome output now (raise e) live =
      failed-IsOutcome attempt_failed a.output (some "worker-output-invalid") refl live
  completed-IsOutcome output now (ok _) live =
      goes_next (settle_completed g r a output now (ok tt)).run
        (record r { status = step_completed; output = output })
        (record a { status = attempt_completed; output = output }) sound.0 refl refl refl live refl
        refl refl refl refl

  status-IsOutcome :
      (valid : ℕ → Value → Bool) (spec : Option StepSpec) (status : WorkerStatus)
      (result : WorkerResult) (now : ℕ)
      → phase_of g.run.status ≡ going
      → Returns (IsOutcome c g) (apply_status valid spec g r a status result now)
  unfolding contract
  status-IsOutcome valid spec not_found result now live =
      goes_on (record g.run { status = running; error = none; next_action_at = some now })
        (record r { status = step_running }) (record a { status = ready }) sound.0 refl refl refl
        (sym live) refl refl refl refl refl refl
  status-IsOutcome valid spec pending result now live = (
    (
      sound.0,
      sound.1,
      sound.2,
      inr (
        (
          r,
          s,
          record a { status = observing; output = result.output; error = result.error },
          rest,
          at_r,
          busy,
          at_spec,
          rw split (
              put_newest a
                (record a { status = observing; output = result.output; error = result.error }) rest
                refl),
          belongs,
          closed,
        ),
        refl,
      ),
    ),
    idle (rw live refl),
    refl,
  )
  status-IsOutcome valid spec worker_failed result now live =
      failed-IsOutcome attempt_failed result.output (error_or result.error "worker-failed") refl
        live
  status-IsOutcome valid spec worker_canceled result now live =
      failed-IsOutcome attempt_canceled result.output (error_or result.error "worker-canceled") refl
        live
  status-IsOutcome valid (some (task_step t)) worker_completed result now live =
      completed-IsOutcome result.output now _ live
  status-IsOutcome valid (some (approval_step t)) worker_completed result now live = tt
  status-IsOutcome valid none worker_completed result now live = tt

  canceled-IsOutcome :
      (status : AttemptStatus) (result : WorkerResult)
      → is_open status ≡ false
      → phase_of g.run.status ≡ stopping
      → IsOutcome c g (settle_canceled g r a status result)
  unfolding contract
  canceled-IsOutcome status result shut live =
      gives_up (settle_canceled g r a status result).run (record r { status = step_canceled })
        (record a { status = status; output = result.output; error = result.error }) sound.0 refl
        refl refl refl refl refl refl refl shut (stop_acknowledged live refl)

  waits-IsOutcome :
      (at : Option ℕ) → IsOutcome c g (record g { run = record g.run { next_action_at = at } })
  unfolding contract
  waits-IsOutcome at = (sound, idle refl, refl)

  canceling-IsOutcome :
      (status : WorkerStatus) (result : WorkerResult) (now : ℕ)
      → phase_of g.run.status ≡ stopping
      → IsOutcome c g (apply_canceling g r a status result now)
  canceling-IsOutcome worker_canceled result now live =
      canceled-IsOutcome attempt_canceled result refl live
  canceling-IsOutcome worker_completed result now live =
      canceled-IsOutcome attempt_completed result refl live
  canceling-IsOutcome worker_failed result now live =
      canceled-IsOutcome attempt_failed result refl live
  canceling-IsOutcome pending result now live = waits-IsOutcome (some (now + seconds 5))
  canceling-IsOutcome not_found result now live = waits-IsOutcome (some (now + seconds 5))

  pub result-IsOutcome :
      (valid : ℕ → Value → Bool) (spec : Option StepSpec) (result : WorkerResult) (now : ℕ)
      → is_active g.run.status ≡ true
      → Returns (IsOutcome c g) (apply_result valid spec g r a result now)
  result-IsOutcome valid spec result now on =
      if-both (Returns (IsOutcome c g)) (is_canceling g.run.status) _ _
        (λ off. canceling-IsOutcome result.status result now (phase-stopping g.run.status off))
        (λ live.
          status-IsOutcome valid spec result.status result now (phase-going g.run.status on live))
