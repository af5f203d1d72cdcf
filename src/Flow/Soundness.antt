-- ===== src/Flow/Soundness.antt =====
-- What holds of the rows, the attempts and the status of a run between two transactions.
pub mod Planned
pub mod Planning
pub mod Applied
pub mod Applying
pub mod Commanded
pub mod Commanding
pub mod Earlier
use autohub.Base.{
  ℕ, suc, ◌<◌, ◌≡◌, refl, sym, ◌⊎◌, inl, inr, Bool, true, false, not, ◌&&◌, ◌||◌, Option, some,
  none, List, [], ◌∷◌, arith, All, ok, length, get_elem?, ◌∙◌, map, ap,
}
use autohub.Flow.Model.{
  Flow, FlowRun, FlowStep, FlowAttempt, StepSpec, task_step, approval_step, TaskStep, RunStatus,
  queued, StepStatus, step_running, AttemptStatus,
}
use autohub.Flow.Contract.{Contract, contract}
use autohub.Flow.Runtime.{is_active, is_canceling, is_queued, put_at}
use autohub.Flow.Commands.{is_open}
use autohub.Flow.Rows.{
  is_done, get_elem?-put_at, IsSplit, length-put_at, put_at-IsSplit, map-put_at, map-put_at_same,
  put_at-IsSplit_next, queued_behind, get_elem?-lt,
}
use autohub.Flow.Progress.{Progress, Move, advances, view, phase_of, going}

abbrev pub is_running : StepStatus → Bool
is_running step_running = true
is_running _ = false

abbrev pub IsClosed : FlowAttempt → Type 0
IsClosed a = is_open a.status ≡ false

-- The current row of a run that no worker works for: if it is a task of an active run, it is queued.
abbrev pub rests : RunStatus → Option FlowStep → Option StepSpec → Bool
rests status (some row) (some (task_step s)) =
    not (is_running row.status) && (not (is_active status) || is_queued row.status)
rests status (some row) _ = not (is_running row.status)
rests status none _ = true

-- No attempt is open, and the run waits for none.
abbrev pub IsResting : RunStatus → Option FlowStep → Option StepSpec → List FlowAttempt → Type 0
IsResting status row spec items =
    (is_canceling status ≡ false) × All IsClosed items × (rests status row spec ≡ true)

-- The newest attempt belongs to the current row, a task, and the others are closed.
abbrev pub IsWorking : Option FlowStep → Option StepSpec → List FlowAttempt → Type 0
IsWorking row spec items =
    (r : FlowStep) × (s : TaskStep) × (a : FlowAttempt) × (rest : List FlowAttempt) × (row ≡ some r)
    × (is_running r.status ≡ true)
    × (spec ≡ some (task_step s))
    × (items ≡ a ∷ rest)
    × (a.step_id ≡ r.id)
    × All IsClosed rest

abbrev pub IsAgreed : RunStatus → Option FlowStep → Option StepSpec → List FlowAttempt → Type 0
IsAgreed status row spec items =
    IsResting status row spec items ⊎ (IsWorking row spec items × (is_active status ≡ true))

abbrev pub IsSound : Contract → Flow → Type 0
IsSound c f =
    (contract f.run ≡ ok c)
    × (length f.steps ≡ length c.steps)
    × IsSplit f.run.step_index f.steps
    × IsAgreed f.run.status (get_elem? f.steps f.run.step_index)
        (get_elem? c.steps f.run.step_index) f.attempts

-- A row that is queued may be the current one of a resting run.
pub queued_rests :
    (status : RunStatus) (row : Option FlowStep) (spec : Option StepSpec)
    → ((r : FlowStep) → row ≡ some r → is_queued r.status ≡ true)
    → rests status row spec ≡ true
queued_rests status none spec h = refl
queued_rests status (some r) none h = let q = h r refl in ground (arith, q)
queued_rests status (some r) (some (task_step s)) h = let q = h r refl in ground (arith, q)
queued_rests status (some r) (some (approval_step s)) h = let q = h r refl in ground (arith, q)

-- A change of the current row that does not complete it and keeps its counts.
module _ (c : Contract) (f : Flow) (sound : IsSound c f) (r row : FlowStep) (run : FlowRun)
    (attempts : List FlowAttempt) (at_r : get_elem? f.steps f.run.step_index ≡ some r) where
  pub row_change-IsSound :
      contract run ≡ ok c
      → run.step_index ≡ f.run.step_index
      → is_done row.status ≡ false
      → IsAgreed run.status (some row) (get_elem? c.steps f.run.step_index) attempts
      → IsSound c
          (record { run = run; steps = put_at f.run.step_index row f.steps; attempts = attempts })
  row_change-IsSound same at_i undone agreed = (
    same,
    length-put_at f.run.step_index row f.steps ∙ sound.1,
    rw at_i (put_at-IsSplit f.run.step_index row f.steps sound.2 undone),
    rw (at_i, get_elem?-put_at f.run.step_index row r f.steps at_r) agreed,
  )

  pub row_change-view :
      run.step_index ≡ f.run.step_index
      → row.attempt_count ≡ r.attempt_count
      → row.rework_count ≡ r.rework_count
      → view
          (record { run = run; steps = put_at f.run.step_index row f.steps; attempts = attempts })
        ≡ record (view f) { phase = phase_of run.status }
  row_change-view at_i tries reworks =
      rw
        (
          at_i,
          map-put_at_same (λ x. x.attempt_count) f.run.step_index row r f.steps at_r tries,
          map-put_at_same (λ x. x.rework_count) f.run.step_index row r f.steps at_r reworks,
        )
        refl

  pub row_change-view_try :
      run.step_index ≡ f.run.step_index
      → row.rework_count ≡ r.rework_count
      → view
          (record { run = run; steps = put_at f.run.step_index row f.steps; attempts = attempts })
        ≡ record (view f) {
          phase = phase_of run.status;
          tries = put_at f.run.step_index row.attempt_count (map (λ x. x.attempt_count) f.steps);
        }
  row_change-view_try at_i reworks =
      rw
        (
          at_i,
          map-put_at (λ x. x.attempt_count) f.run.step_index row f.steps,
          map-put_at_same (λ x. x.rework_count) f.run.step_index row r f.steps at_r reworks,
        )
        refl

  -- A change of the current row that completes it.
  module _ (same : contract run ≡ ok c) (at_i : run.step_index ≡ suc f.run.step_index)
      (on : run.status ≡ queued) (done : is_done row.status ≡ true)
      (tries : row.attempt_count ≡ r.attempt_count) (reworks : row.rework_count ≡ r.rework_count)
      (closed : All IsClosed attempts) where
    pub row_done-IsSound :
        IsSound c
          (record { run = run; steps = put_at f.run.step_index row f.steps; attempts = attempts })
    row_done-IsSound = (
      same,
      length-put_at f.run.step_index row f.steps ∙ sound.1,
      rw at_i (put_at-IsSplit_next f.run.step_index row r f.steps sound.2 at_r done),
      inl (
        rw on refl,
        closed,
        queued_rests run.status _ _
            (λ q at_q. queued_behind f.run.step_index row q f.steps sound.2 (rw at_i at at_q)),
      ),
    )

    pub row_done-Move :
        phase_of f.run.status ≡ going
        → Move c.steps (view f) (
            view (record {
              run = run;
              steps = put_at f.run.step_index row f.steps;
              attempts = attempts;
            }))
    row_done-Move live =
        advances live (rw (sym sound.1) (get_elem?-lt f.run.step_index r f.steps at_r)) (
          rw
            (
              at_i,
              on,
              live,
              map-put_at_same (λ x. x.attempt_count) f.run.step_index row r f.steps at_r tries,
              map-put_at_same (λ x. x.rework_count) f.run.step_index row r f.steps at_r reworks,
            )
            refl)
