-- ===== src/Flow/World/Refinement.antt =====
-- The transactions on a run, as moves of its contract.
use autohub.Base.{
  ℕ, ◌<◌, ◌≡◌, refl, sym, subst, ◌⊎◌, inl, inr, Bool, true, false, not, ◌||◌, if-both, Returns,
  Returns-bind, Returns-guard, returned, Option, none, some, List, [], ◌∷◌, arith, All, All-at,
  Result, ok, raise, get_elem?, ◌==◌, ◌>>=◌,
}
use autohub.Flow.Model.{StepSpec, Value, Flow, RunStatus}
use autohub.Flow.Contract.{Contract, contract}
use autohub.Flow.Runtime.{WorkerAction, WorkerResult, bump, is_active}
use autohub.Flow.Results.{apply}
use autohub.Flow.Commands.{command_transition}
use autohub.Flow.Worker.{
  claim, plan_fenced, settle, settle_with, release_lease, is_fenced, unless_canceling,
}
use autohub.Flow.Service.{Ledger, FlowCommand, RunCommand, command, command_or_replay, recorded}
use autohub.Flow.Soundness.{IsSound}
use autohub.Flow.Soundness.Planned.{IsCurrent}
use autohub.Flow.Soundness.Planning.{IsStep, IsPlanStep, plan-IsPlanStep}
use autohub.Flow.Soundness.Applying.{apply-IsStep}
use autohub.Flow.Soundness.Commanded.{IsObeyed, ReturnsEarlier}
use autohub.Flow.Soundness.Commanding.{command_transition-IsObeyed}
use autohub.Flow.Progress.{Progress, Move, Moves, idle, none_yet, then_moves, view, phase_of}
use autohub.Flow.World.{
  World, Event, claims, plans, settles, releases, commands, with_flow, planned_world, settled_world,
  commanded_world, settle_at, happen, happen_all,
}

-- A sound run, whose actions were planned at earlier revisions or are current.
abbrev pub IsOrderly : Contract → World → Type 0
IsOrderly c w = IsSound c w.ledger.flow × All (IsCurrent c w.ledger.flow) w.actions

still-IsCurrent :
    (c : Contract) (f h : Flow) (action : WorkerAction)
    → (h ≡ f) ⊎ (f.run.revision < h.run.revision)
    → IsCurrent c f action
    → IsCurrent c h action
still-IsCurrent c f h action (inl same) current =
    subst (λ k. IsCurrent c k action) (sym same) current
still-IsCurrent c f h action (inr later) (inl old) = inl (omega arith)
still-IsCurrent c f h action (inr later) (inr now) = inl (ground (arith, later, now))

all-IsCurrent :
    (c : Contract) (f h : Flow) (actions : List WorkerAction)
    → (h ≡ f) ⊎ (f.run.revision < h.run.revision)
    → All (IsCurrent c f) actions
    → All (IsCurrent c h) actions
all-IsCurrent c f h [] grown current = tt
all-IsCurrent c f h (a ∷ rest) grown current =
    (still-IsCurrent c f h a grown current.0, all-IsCurrent c f h rest grown current.1)

phase-unless : (s : RunStatus) → is_active s ≡ true → phase_of (unless_canceling s) ≡ phase_of s
phase-unless s h = ground arith

active-unless : (s : RunStatus) → is_active (unless_canceling s) ≡ true
active-unless s = ground arith

same_revision : (a : Bool) (m n : ℕ) → (a || not (m == n)) ≡ false → m ≡ n
same_revision a m n h = ground arith

-- What an event does.
abbrev IsEvent : Contract → World → World → Type 0
IsEvent c w v = IsOrderly c v × Move c.steps (view w.ledger.flow) (view v.ledger.flow)

bump-IsSound : (c : Contract) (f : Flow) → IsSound c f → IsSound c (record f { run = bump f.run })
unfolding contract
bump-IsSound c f sound = sound

module _ (valid : ℕ → Value → Bool) (digest : ℕ → ℕ) (c : Contract) (w : World)
    (orderly : IsOrderly c w) where
  unchanged : IsEvent c w w
  unchanged = (orderly, idle refl)

  stepped : (h : Flow) → IsStep c w.ledger.flow h → IsEvent c w (with_flow w h)
  stepped h step = ((step.0, all-IsCurrent c w.ledger.flow h w.actions step.2 orderly.1), step.1)

  claimed : (token now : ℕ) → IsEvent c w (with_flow w (claim w.ledger.flow token now).0)
  unfolding claim contract
  claimed token now =
      if-both (λ (out : Flow × Bool). IsEvent c w (with_flow w out.0)) _ _ _
        (λ free. ((orderly.0, orderly.1), idle refl)) (λ held. unchanged)

  released : (token : ℕ) → IsEvent c w (with_flow w (release_lease w.ledger.flow token))
  unfolding release_lease contract
  released token =
      if-both (λ h. IsEvent c w (with_flow w h)) _ _ _ (λ mine. ((orderly.0, orderly.1), idle refl))
        (λ other. unchanged)

  planned :
      (out : Result (Flow × Option WorkerAction))
      → Returns (IsPlanStep c w.ledger.flow) out
      → IsEvent c w (planned_world w out)
  planned (raise e) h = unchanged
  planned (ok (f, none)) h = stepped f h.0
  planned (ok (f, some action)) h =
      let grown = stepped f h.0 in ((grown.0.0, (h.1, grown.0.1)), grown.1)

  outcome-IsStep :
      (action : WorkerAction) (outcome : Option WorkerResult) (now : ℕ)
      → IsCurrent c w.ledger.flow action
      → w.ledger.flow.run.revision ≡ action.revision
      → Returns
          (λ o. IsStep c w.ledger.flow o.0)
          (settle_with valid w.ledger.flow action outcome now)
  unfolding contract
  outcome-IsStep action none now (inl old) same = absurd (omega arith)
  outcome-IsStep action none now (inr current) same =
      let sound = orderly.0 in
      (
        (sound.0, sound.1, sound.2, inr (current.2, active-unless w.ledger.flow.run.status)),
        idle (rw (phase-unless w.ledger.flow.run.status current.1) refl),
        inr (omega arith),
      )
  outcome-IsStep action (some result) now current same =
      Returns-bind (λ o. IsStep c w.ledger.flow o.0) (apply valid w.ledger.flow action result now)
        (λ h. ok (h, true))
        (λ h e.
          returned (IsStep c w.ledger.flow) _
            (apply-IsStep valid c w.ledger.flow action result now orderly.0 current same) e)

  settled_one :
      (action : WorkerAction) (token : ℕ) (outcome : Option WorkerResult) (now : ℕ)
      → IsCurrent c w.ledger.flow action
      → IsEvent c w (settled_world w (settle valid w.ledger.flow action token outcome now))
  unfolding settle
  settled_one action token outcome now current =
      let f = w.ledger.flow in
      if-both (λ out. IsEvent c w (settled_world w out))
        (not (is_fenced f token now) || not (f.run.revision == action.revision)) (ok (f, false))
        (settle_with valid f action outcome now) (λ stale. unchanged)
        (λ fenced. settled _ (
          outcome-IsStep action outcome now current
            (same_revision (not (is_fenced f token now)) f.run.revision action.revision fenced)))
    where
      settled :
          (out : Result (Flow × Bool))
          → Returns (λ o. IsStep c w.ledger.flow o.0) out
          → IsEvent c w (settled_world w out)
      settled (raise e) h = unchanged
      settled (ok (h, applied)) step = stepped h step

  obeyed :
      (out : Result (Ledger × Flow))
      → Returns (λ o. IsStep c w.ledger.flow o.0.flow) out
      → IsEvent c w (commanded_world w out)
  obeyed (raise e) h = unchanged
  obeyed (ok (l, receipt)) h =
      ((h.0, all-IsCurrent c w.ledger.flow l.flow w.actions h.2 orderly.1), h.1)

  ledger-IsStep :
      (body : RunCommand) (request_digest actor now : ℕ)
      → ReturnsEarlier c.steps
      → (prior : Option FlowCommand)
      → Returns
          (λ o. IsStep c w.ledger.flow o.0.flow)
          (command_or_replay digest w.ledger body request_digest actor now prior)
  ledger-IsStep body request_digest actor now earlier (some prior) =
      Returns-guard (λ (o : Ledger × Flow). IsStep c w.ledger.flow o.0.flow)
        (not (prior.digest == request_digest)) 409 "command-conflict" (ok (w.ledger, prior.receipt))
        (λ same. (orderly.0, idle refl, inl refl))
  ledger-IsStep body request_digest actor now earlier none =
      let f = w.ledger.flow in
      let g = record f { run = bump f.run } in
      Returns-guard (λ (o : Ledger × Flow). IsStep c f o.0.flow)
        (not (f.run.revision == body.expected_revision)) 409 "stale-revision"
        (command_transition g body.action now >>= λ h.
          ok (recorded digest w.ledger body request_digest actor h))
        (λ same.
          Returns-bind (λ o. IsStep c f o.0.flow) (command_transition g body.action now)
            (λ h. ok (recorded digest w.ledger body request_digest actor h))
            (λ h e.
              let done =
                returned (IsObeyed c g) _
                  (command_transition-IsObeyed c g (bump-IsSound c f orderly.0) earlier body.action
                    now)
                  e in
              (done.0, done.1, inr (ground (arith, done)))))

  settled_at :
      (action : Option WorkerAction) (index token : ℕ) (outcome : Option WorkerResult) (now : ℕ)
      → get_elem? w.actions index ≡ action
      → IsEvent c w (settle_at valid digest w action token outcome now)
  settled_at none index token outcome now at_i = unchanged
  settled_at (some action) index token outcome now at_i =
      settled_one action token outcome now
        (All-at (IsCurrent c w.ledger.flow) index w.actions orderly.1 at_i)

  happen-IsEvent : (e : Event) → ReturnsEarlier c.steps → IsEvent c w (happen valid digest w e)
  unfolding happen plan_fenced command
  happen-IsEvent (claims token now) earlier = claimed token now
  happen-IsEvent (plans token fresh now) earlier = planned _ (
      if-both (Returns (IsPlanStep c w.ledger.flow)) (is_fenced w.ledger.flow token now) _ _
        (λ mine. plan-IsPlanStep valid c w.ledger.flow fresh now orderly.0)
        (λ other. ((orderly.0, idle refl, inl refl), tt)))
  happen-IsEvent (settles index token outcome now) earlier =
      settled_at (get_elem? w.actions index) index token outcome now refl
  happen-IsEvent (releases token) earlier = released token
  happen-IsEvent (commands body request_digest actor now) earlier =
      obeyed _ (ledger-IsStep body request_digest actor now earlier _)

-- Moves that follow others.
Moves-on :
    (specs : List StepSpec) {p q r : Progress} → Moves specs p q → Moves specs q r → Moves specs p r
Moves-on specs first_moves none_yet = first_moves
Moves-on specs first_moves (then_moves more last) =
    then_moves (Moves-on specs first_moves more) last

module _ (valid : ℕ → Value → Bool) (digest : ℕ → ℕ) (c : Contract)
    (earlier : ReturnsEarlier c.steps) where
  pub happen_all-IsOrderly :
      (w : World) (es : List Event) → IsOrderly c w → IsOrderly c (happen_all valid digest w es)
  unfolding happen_all
  happen_all-IsOrderly w [] orderly = orderly
  happen_all-IsOrderly w (e ∷ es) orderly =
      happen_all-IsOrderly (happen valid digest w e) es
        (happen-IsEvent valid digest c w orderly e earlier).0

  pub happen_all-Moves :
      (w : World) (es : List Event)
      → IsOrderly c w
      → Moves c.steps (view w.ledger.flow) (view (happen_all valid digest w es).ledger.flow)
  unfolding happen_all
  happen_all-Moves w [] orderly = none_yet
  happen_all-Moves w (e ∷ es) orderly =
      let step = happen-IsEvent valid digest c w orderly e earlier in
      Moves-on c.steps (then_moves none_yet step.1)
        (happen_all-Moves (happen valid digest w e) es step.0)
