-- ===== src/Flow/Soundness/Planned.antt =====
-- flows/runtime.py, `plan`, on a sound run.
use autohub.Base.{
  ℕ, zero, suc, ◌<◌, ◌≡◌, refl, ◌∙◌, ◌⊎◌, inl, inr, true, false, if-both, Option, some, none, List,
  [], ◌∷◌, arith, Result, ok, raise, length, get_elem?, leb, String,
}
use autohub.Flow.Model.{
  Value, Flow, FlowRun, FlowStep, FlowAttempt, task_step, approval_step, TaskStep, ApprovalStep,
  RunStatus, queued, running, waiting, canceling, completed, failed, canceled, step_running,
  step_waiting, step_failed,
}
use autohub.Flow.Contract.{Contract, contract}
use autohub.Flow.Runtime.{
  WorkerAction, is_active, is_canceling, put_at, finish, await, start_attempt, fail_run,
}
use autohub.Flow.Rows.{IsSplit-le, is_done, get_elem?-map, get_elem?-put_at}
use autohub.Flow.Soundness.{
  IsSound, IsResting, IsWorking, is_running, row_change-IsSound, row_change-view,
  row_change-view_try,
}
use autohub.Flow.Progress.{
  Move, idle, starts, breaks, finishes, view, phase_of, going, live_going, live_broken,
}

abbrev pub newest_id : List FlowAttempt → Option ℕ
newest_id [] = none
newest_id (a ∷ rest) = some a.id

-- The action was planned at an earlier revision, or the newest attempt works for it.
abbrev pub IsCurrent : Contract → Flow → WorkerAction → Type 0
IsCurrent c f action =
    (action.revision < f.run.revision)
    ⊎ ((action.revision ≡ f.run.revision)
        × (is_active f.run.status ≡ true)
        × IsWorking (get_elem? f.steps f.run.step_index) (get_elem? c.steps f.run.step_index)
            f.attempts
        × (newest_id f.attempts ≡ some action.attempt_id))

abbrev pub IsDispatched : Contract → Flow → Option WorkerAction → Type 0
IsDispatched c f none = Unit
IsDispatched c f (some action) = IsCurrent c f action

-- The outcome of planning, from a flow whose revision was raised.
abbrev pub IsPlanned : Contract → Flow → Flow × Option WorkerAction → Type 0
IsPlanned c g out =
    IsSound c out.0
    × Move c.steps (view g) (view out.0)
    × (out.0.run.revision ≡ g.run.revision)
    × IsDispatched c out.0 out.1

pub phase-going : (s : RunStatus) → is_active s ≡ true → is_canceling s ≡ false → phase_of s ≡ going
phase-going queued h e = refl
phase-going running h e = refl
phase-going waiting h e = refl
phase-going canceling h e = cc
phase-going completed h e = cc
phase-going failed h e = cc
phase-going canceled h e = cc

get_elem?-gone {ℓ} :
    {A : Type ℓ} (xs : List A) (i : ℕ) → leb (length xs) i ≡ true → get_elem? xs i ≡ none
get_elem?-gone [] i h = refl
get_elem?-gone (x ∷ xs) zero h = ground arith
get_elem?-gone (x ∷ xs) (suc i) h = get_elem?-gone xs i (ground arith)

module _ (c : Contract) (g : Flow) (sound : IsSound c g) (on : is_active g.run.status ≡ true) where
  module _
      (resting : IsResting g.run.status
        (get_elem? g.steps g.run.step_index)
        (get_elem? c.steps g.run.step_index)
        g.attempts) where
    at_going : phase_of g.run.status ≡ going
    at_going = phase-going g.run.status on resting.0

    -- The run, its rows and attempts where nothing but the status of the run changed.
    module _ (end : leb (length g.steps) g.run.step_index ≡ true) where
      pub finish-IsPlanned :
          (output : Option Value) (checked : Result (Unit {0}))
          → IsPlanned c g (record g { run = finish g.run output checked }, none)
      unfolding contract
      finish-IsPlanned output (ok _) =
          let at_end = get_elem?-gone g.steps g.run.step_index end in
          let below = IsSplit-le g.run.step_index g.steps sound.2 in
          (
            (sound.0, sound.1, sound.2, inl (refl, resting.1, rw at_end refl)),
            finishes at_going (ground (arith, end, below, sound)) refl,
            refl,
            tt,
          )
      finish-IsPlanned output (raise e) =
          let at_end = get_elem?-gone g.steps g.run.step_index end in
          (
            (sound.0, sound.1, sound.2, inl (refl, resting.1, rw at_end refl)),
            breaks at_going refl,
            refl,
            tt,
          )

    -- A change of the current row, after which the run rests again.
    module _ (r row : FlowStep) (at_r : get_elem? g.steps g.run.step_index ≡ some r)
        (undone : is_done row.status ≡ false) (reworks : row.rework_count ≡ r.rework_count) where
      pub rests-IsPlanned :
          (run : FlowRun) (attempts : List FlowAttempt)
          → contract run ≡ ok c
          → run.step_index ≡ g.run.step_index
          → run.revision ≡ g.run.revision
          → IsResting run.status (some row) (get_elem? c.steps g.run.step_index) attempts
          → Move c.steps (view g) (
              view (record {
                run = run;
                steps = put_at g.run.step_index row g.steps;
                attempts = attempts;
              }))
          → IsPlanned c g (
            record { run = run; steps = put_at g.run.step_index row g.steps; attempts = attempts },
            none,
          )
      rests-IsPlanned run attempts same at_i revision rest move = (
        row_change-IsSound c g sound r row run attempts at_r same at_i undone (inl rest),
        move,
        revision,
        tt,
      )

    pub await-IsPlanned :
        (r : FlowStep) (spec : ApprovalStep) (deadline now : ℕ)
        → get_elem? g.steps g.run.step_index ≡ some r
        → get_elem? c.steps g.run.step_index ≡ some (approval_step spec)
        → is_done r.status ≡ false
        → is_running r.status ≡ false
        → IsPlanned c g (await g (record r { deadline = some deadline }) deadline now, none)
    unfolding contract
    await-IsPlanned r spec deadline now at_r at_spec undone still =
        if-both (λ f. IsPlanned c g (f, none)) (leb deadline now) _ _
          (λ late.
            let failed_row = record r { deadline = some deadline; status = step_failed } in
            rests-IsPlanned r failed_row at_r refl refl (fail_run g.run (some "approval-deadline"))
              g.attempts sound.0 refl refl (refl, resting.1, rw at_spec refl)
              (breaks at_going (
                row_change-view c g sound r failed_row (fail_run g.run (some "approval-deadline"))
                  g.attempts at_r refl refl refl)))
          (λ early.
            let waiting_row = record r { deadline = some deadline; status = step_waiting } in
            let run = record g.run { status = waiting; next_action_at = some deadline } in
            rests-IsPlanned r waiting_row at_r refl refl run g.attempts sound.0 refl refl
              (refl, resting.1, rw at_spec refl)
              (idle (
                row_change-view c g sound r waiting_row run g.attempts at_r refl refl refl
                ∙ rw at_going refl)))

    -- A try of a queued task: the new attempt, which may have failed already.
    module _ (r : FlowStep) (spec : TaskStep) (at_r : get_elem? g.steps g.run.step_index ≡ some r)
        (at_spec : get_elem? c.steps g.run.step_index ≡ some (task_step spec))
        (few : leb spec.max_attempts r.attempt_count ≡ false) where
      pub start-IsPlanned :
          (fresh : ℕ) (inputs : List (ℕ × Value)) (error : Option String)
          → IsPlanned c g (
              start_attempt g
                (record r { attempt_count = suc r.attempt_count })
                spec
                fresh
                inputs
                error)
      unfolding contract
      start-IsPlanned fresh inputs (some error) =
          let attempts =
            (start_attempt g (record r { attempt_count = suc r.attempt_count }) spec fresh inputs
              (some error)).0.attempts in
          let failed_row = record r { attempt_count = suc r.attempt_count; status = step_failed } in
          rests-IsPlanned r failed_row at_r refl refl (fail_run g.run (some error)) attempts sound.0
            refl refl (refl, (refl, resting.1), rw at_spec refl)
            (starts spec r.attempt_count _ at_spec
              (get_elem?-map (λ x. x.attempt_count) g.run.step_index r g.steps at_r)
              (ground (arith, few)) at_going live_broken
              (row_change-view_try c g sound r failed_row (fail_run g.run (some error)) attempts
                at_r refl refl))
      start-IsPlanned fresh inputs none =
          let out =
            start_attempt g (record r { attempt_count = suc r.attempt_count }) spec fresh inputs
              none in
          let busy_row = record r { attempt_count = suc r.attempt_count; status = step_running } in
          let working : IsWorking (some busy_row) (get_elem? c.steps g.run.step_index)
              out.0.attempts =
            (busy_row, spec, _, g.attempts, refl, refl, at_spec, refl, refl, resting.1) in
          (
            row_change-IsSound c g sound r busy_row out.0.run out.0.attempts at_r sound.0 refl refl
                (inr (working, refl)),
            starts spec r.attempt_count _ at_spec
                (get_elem?-map (λ x. x.attempt_count) g.run.step_index r g.steps at_r)
                (ground (arith, few)) at_going live_going
                (row_change-view_try c g sound r busy_row out.0.run out.0.attempts at_r refl refl),
            refl,
            inr (
              refl,
              refl,
              rw (get_elem?-put_at g.run.step_index busy_row r g.steps at_r) working,
              refl,
            ),
          )
