-- ===== src/Flow/World/Outcomes.antt =====
-- The runs that `FlowService.start` creates, after any transactions.
use autohub.Base.{
  ℕ, suc, ◌≤◌, ◌≡◌, refl, sym, ◌∙◌, ◌⊎◌, inl, inr, subst, Bool, true, false, Option, List, [], ◌∷◌,
  arith, All, ok, length, count, map,
}
use autohub.Flow.Model.{
  Value, Fields, TaskRef, Release, StepSpec, Flow, FlowStep, FlowAttempt, RunStatus, completed,
}
use autohub.Flow.Contract.{Contract, steps_for}
use autohub.Flow.Declared.{check_graph}
use autohub.Flow.Runtime.{is_active}
use autohub.Flow.Commands.{is_open}
use autohub.Flow.Host.{new_flow, new_rows}
use autohub.Flow.Host.Requests.{new_flow-IsSound}
use autohub.Flow.Rows.{IsSplit, is_done}
use autohub.Flow.Service.{FlowPrLink}
use autohub.Flow.Soundness.{IsClosed}
use autohub.Flow.Soundness.Earlier.{check_graph-earlier}
use autohub.Flow.Progress.{Progress, Moves, view, phase_of, going, finished}
use autohub.Flow.Progress.Budget.{
  IsWithin, IsAffordable, try_limit, rework_limit, Moves-IsAffordable,
}
use autohub.Flow.Progress.Ends.{Moves-ends, Moves-over, is_over}
use autohub.Flow.Attempts.{attempts_made, attempts_made-tries}
use autohub.Flow.Attempts.Counted.{happen_all-IsCounted, new_flow-IsCounted}
use autohub.Flow.World.{World, Event, happen_all}
use autohub.Flow.World.Refinement.{IsOrderly, happen_all-IsOrderly, happen_all-Moves}

-- The state of the contract in which a run starts.
abbrev pub zeros : List StepSpec → List ℕ
zeros [] = []
zeros (s ∷ specs) = 0 ∷ zeros specs

abbrev pub start_progress : List StepSpec → Progress
start_progress specs = record {
  position = 0;
  phase = going;
  tries = zeros specs;
  reworks = zeros specs;
}

abbrev pub new_world : Flow → Option FlowPrLink → World
new_world f link = record { ledger = record { flow = f; commands = []; link = link }; actions = [] }

new_rows-tries :
    (ids : ℕ → ℕ) (position : ℕ) (specs : List StepSpec)
    → map (λ row. row.attempt_count) (new_rows ids position specs) ≡ zeros specs
new_rows-tries ids position [] = refl
new_rows-tries ids position (s ∷ specs) = rw (new_rows-tries ids (suc position) specs) refl

new_rows-reworks :
    (ids : ℕ → ℕ) (position : ℕ) (specs : List StepSpec)
    → map (λ row. row.rework_count) (new_rows ids position specs) ≡ zeros specs
new_rows-reworks ids position [] = refl
new_rows-reworks ids position (s ∷ specs) = rw (new_rows-reworks ids (suc position) specs) refl

zeros-IsWithin : (limit : StepSpec → ℕ) (specs : List StepSpec) → IsWithin limit specs (zeros specs)
zeros-IsWithin limit [] = tt
zeros-IsWithin limit (s ∷ specs) = (omega arith, zeros-IsWithin limit specs)

closed_none :
    (items : List FlowAttempt) → All IsClosed items → count (λ a. is_open a.status) items ≡ 0
closed_none [] h = refl
closed_none (a ∷ rest) h = rw (h.0, closed_none rest h.1) refl

all_done :
    (rows : List FlowStep) → IsSplit (length rows) rows → All (λ r. is_done r.status ≡ true) rows
all_done [] h = tt
all_done (r ∷ rs) h = (h.0, all_done rs h.1)

one_open :
    (a : FlowAttempt) (rest : List FlowAttempt)
    → All IsClosed rest
    → count (λ x. is_open x.status) (a ∷ rest) ≤ 1
one_open a rest h = let shut = closed_none rest h in ground (arith, shut)

abbrev pub is_completed : RunStatus → Bool
is_completed completed = true
is_completed _ = false

finished_phase : (s : RunStatus) → is_completed s ≡ true → phase_of s ≡ finished
finished_phase s h = ground arith

-- A run from its start through these transactions.
abbrev pub world_after :
    (valid : ℕ → Value → Bool) → (digest : ℕ → ℕ) → Flow → Option FlowPrLink → List Event → World
world_after valid digest f link es = happen_all valid digest (new_world f link) es

start-view :
    (release : Release) (task : TaskRef) (inputs : Fields) (run_id : ℕ) (ids : ℕ → ℕ)
    (specs : List StepSpec)
    → view (new_flow release task inputs run_id ids specs) ≡ start_progress specs
start-view release task inputs run_id ids specs =
    rw (new_rows-tries ids 0 specs, new_rows-reworks ids 0 specs) refl

module _ (valid : ℕ → Value → Bool) (digest : ℕ → ℕ) (release : Release) (task : TaskRef)
    (inputs : Fields) (run_id : ℕ) (ids : ℕ → ℕ) (c : Contract) (link : Option FlowPrLink)
    (es : List Event) (declared : steps_for release task inputs ≡ ok c)
    (checked : check_graph c.steps c.result_step ≡ ok tt) where
  begun : Flow
  begun = new_flow release task inputs run_id ids c.steps

  orderly : IsOrderly c (new_world begun link)
  unfolding begun
  orderly = (new_flow-IsSound release task inputs run_id ids c declared, tt)

  after-IsOrderly : IsOrderly c (world_after valid digest begun link es)
  after-IsOrderly =
      happen_all-IsOrderly valid digest c (check_graph-earlier c.steps c.result_step checked)
        (new_world begun link) es orderly

  pub flow_refines : Moves c.steps (start_progress c.steps) (
      view
        (world_after valid digest
          (new_flow release task inputs run_id ids c.steps)
          link
          es).ledger.flow)
  unfolding begun
  flow_refines =
      subst (λ p. Moves c.steps p (view (world_after valid digest begun link es).ledger.flow))
        (start-view release task inputs run_id ids c.steps)
        (happen_all-Moves valid digest c (check_graph-earlier c.steps c.result_step checked)
          (new_world begun link) es orderly)

  -- Through any transactions of a run whose steps have different ids, each task has at most as many
  -- FlowAttempt rows as its step allows attempts, reworks and resumptions included, and an approval
  -- has none. The counts of attempts and of revisions in the step rows keep within the limits of their
  -- steps too.
  pub flow-IsAffordable :
      ((i j : ℕ) → ids i ≡ ids j → i ≡ j)
      → IsWithin try_limit c.steps (
          attempts_made
            (world_after valid digest
              (new_flow release task inputs run_id ids c.steps)
              link
              es).ledger.flow)
        × IsAffordable c.steps (
            view
              (world_after valid digest
                (new_flow release task inputs run_id ids c.steps)
                link
                es).ledger.flow)
  unfolding begun
  flow-IsAffordable distinct =
      let affordable =
        Moves-IsAffordable c.steps (start_progress c.steps) _ flow_refines
          (zeros-IsWithin try_limit c.steps, zeros-IsWithin rework_limit c.steps) in
      let counted =
        happen_all-IsCounted valid digest (new_world begun link) es
          (new_flow-IsCounted ids distinct release task inputs run_id c.steps) in
      (
        subst (IsWithin try_limit c.steps)
            (sym (attempts_made-tries (world_after valid digest begun link es).ledger.flow counted))
            affordable.0,
        affordable,
      )

  -- If the run is completed, then all its steps are.
  pub flow_completed :
      is_completed
          (world_after valid digest
            (new_flow release task inputs run_id ids c.steps)
            link
            es).ledger.flow.run.status
        ≡ true
      → All
          (λ r. is_done r.status ≡ true)
          (world_after valid digest
            (new_flow release task inputs run_id ids c.steps)
            link
            es).ledger.flow.steps
  unfolding begun
  flow_completed done =
      elim (Moves-ends c.steps (start_progress c.steps) _ flow_refines (inl (λ e. cc))) [
        | inl other ↦ absurd (other (finished_phase _ done))
        | inr last ↦ all_done _ (
            subst (λ i. IsSplit i (world_after valid digest begun link es).ledger.flow.steps)
              (last ∙ sym after-IsOrderly.0.1) after-IsOrderly.0.2)
      ]

  -- At every time at most one attempt of the run is open, and none once the run has completed, failed
  -- or been canceled.
  pub flow_one_open :
      (count
          (λ a. is_open a.status)
          (world_after valid digest
            (new_flow release task inputs run_id ids c.steps)
            link
            es).ledger.flow.attempts
        ≤ 1)
      × ((is_active
              (world_after valid digest
                (new_flow release task inputs run_id ids c.steps)
                link
                es).ledger.flow.run.status
            ≡ true)
          ⊎ (count
                (λ a. is_open a.status)
                (world_after valid digest
                  (new_flow release task inputs run_id ids c.steps)
                  link
                  es).ledger.flow.attempts
              ≡ 0))
  unfolding begun
  flow_one_open = elim after-IsOrderly.0.3 [
    | inl resting ↦
        let none_open = closed_none _ resting.1 in (omega (arith, none_open), inr none_open)
    | inr working ↦ (rw working.0.7 (one_open working.0.2 working.0.3 working.0.9), inl working.1)
  ]

  -- Once the run has completed or been canceled, no transaction changes what `view` shows of it.
  pub flow_over :
      (more : List Event)
      → is_over (
          phase_of
            (world_after valid digest
              (new_flow release task inputs run_id ids c.steps)
              link
              es).ledger.flow.run.status)
        ≡ true
      → view
          (happen_all valid digest
            (world_after valid digest (new_flow release task inputs run_id ids c.steps) link es)
            more).ledger.flow
        ≡ view
            (world_after valid digest
              (new_flow release task inputs run_id ids c.steps)
              link
              es).ledger.flow
  unfolding begun
  flow_over more over =
      Moves-over c.steps _ _
        (happen_all-Moves valid digest c (check_graph-earlier c.steps c.result_step checked)
          (world_after valid digest begun link es) more after-IsOrderly)
        over
