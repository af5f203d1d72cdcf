-- ===== src/Flow/Attempts/Counted.antt =====
-- The transactions on a run keep that each row counts its attempts.
use autohub.Base.{
  ℕ, suc, ◌<◌, ◌≡◌, ◌≢◌, refl, sym, subst, inl, inr, Bool, true, false, not, ◌||◌, if-both, Returns,
  Returns-bind, Returns-guard, returned, Option, some, none, List, [], ◌∷◌, arith, All, Result, ok,
  raise, map, get_elem?, ◌==◌, ◌>>=◌, first,
}
use autohub.Flow.Model.{Value, Flow, StepSpec, Release, TaskRef, Fields}
use autohub.Flow.Runtime.{WorkerAction, WorkerResult, bump, put_at}
use autohub.Flow.Results.{apply}
use autohub.Flow.Commands.{command_transition}
use autohub.Flow.Host.{new_flow, new_rows}
use autohub.Flow.Rows.{map-put_at_same, get_elem?-map}
use autohub.Flow.Service.{Ledger, FlowCommand, RunCommand, command, command_or_replay, recorded}
use autohub.Flow.Worker.{claim, plan_fenced, settle, settle_with, release_lease, is_fenced}
use autohub.Flow.World.{
  World, Event, claims, plans, settles, releases, commands, planned_world, settled_world,
  commanded_world, settle_at, happen, happen_all,
}
use autohub.Flow.Attempts.{tallied, tally, owners, AreApart, IsTallied, IsCounted, next-IsTallied}
use autohub.Flow.Attempts.Made.{IsKept, IsTried, IsMade, plan-IsMade, apply-IsKept}
use autohub.Flow.Attempts.Commanded.{command_transition-IsKept}

abbrev IsCountedBy : List (ℕ × ℕ) → List ℕ → Type 0
IsCountedBy rows steps = AreApart (map (λ x. x.0) rows) × All (IsTallied steps) rows

kept-IsCounted : (f h : Flow) → IsCounted f → IsKept f h → IsCounted h
kept-IsCounted f h counted (rows, steps) =
    subst (λ t. IsCountedBy t (owners h)) (sym rows)
      (subst (IsCountedBy (tally f)) (sym steps) counted)

tried-IsCounted : (f h : Flow) → IsCounted f → IsTried f h → IsCounted h
tried-IsCounted f h counted (r, at_r, rows, steps) =
    let i = f.run.step_index in
    let at_i = get_elem?-map tallied i r f.steps at_r in
    subst (λ t. IsCountedBy t (owners h)) (sym rows)
      (subst (IsCountedBy (put_at i (r.id, suc r.attempt_count) (tally f))) (sym steps) (
        subst AreApart
            (sym (
              map-put_at_same (λ x. x.0) i (r.id, suc r.attempt_count) (tallied r) (tally f) at_i
                refl))
            counted.0,
        next-IsTallied i r.id r.attempt_count (owners f) (tally f) counted.0 at_i counted.1,
      ))

made-IsCounted : (f h : Flow) → IsCounted f → IsMade f h → IsCounted h
made-IsCounted f h counted (inl kept) = kept-IsCounted f h counted kept
made-IsCounted f h counted (inr tried) = tried-IsCounted f h counted tried

module _ (valid : ℕ → Value → Bool) (digest : ℕ → ℕ) (w : World)
    (counted : IsCounted w.ledger.flow) where
  claimed : (token now : ℕ) → IsCounted (claim w.ledger.flow token now).0
  unfolding claim
  claimed token now =
      if-both (λ (out : Flow × Bool). IsCounted out.0) _ _ _ (λ _. counted) (λ _. counted)

  released : (token : ℕ) → IsCounted (release_lease w.ledger.flow token)
  unfolding release_lease
  released token = if-both IsCounted _ _ _ (λ _. counted) (λ _. counted)

  planned :
      (out : Result (Flow × Option WorkerAction))
      → Returns (λ o. IsMade w.ledger.flow o.0) out
      → IsCounted (planned_world w out).ledger.flow
  planned (raise e) h = counted
  planned (ok (f, none)) h = made-IsCounted w.ledger.flow f counted h
  planned (ok (f, some action)) h = made-IsCounted w.ledger.flow f counted h

  settled :
      (out : Result (Flow × Bool))
      → Returns (λ o. IsKept w.ledger.flow o.0) out
      → IsCounted (settled_world w out).ledger.flow
  settled (raise e) h = counted
  settled (ok (f, applied)) h = kept-IsCounted w.ledger.flow f counted h

  settle_with-IsKept :
      (action : WorkerAction) (outcome : Option WorkerResult) (now : ℕ)
      → Returns (λ o. IsKept w.ledger.flow o.0) (settle_with valid w.ledger.flow action outcome now)
  settle_with-IsKept action none now = (refl, refl)
  settle_with-IsKept action (some result) now =
      Returns-bind (λ o. IsKept w.ledger.flow o.0) (apply valid w.ledger.flow action result now)
        (λ h. ok (h, true))
        (λ h e.
          returned (IsKept w.ledger.flow) _ (apply-IsKept valid w.ledger.flow action result now) e)

  settled_at :
      (action : Option WorkerAction) (token : ℕ) (outcome : Option WorkerResult) (now : ℕ)
      → IsCounted (settle_at valid digest w action token outcome now).ledger.flow
  unfolding settle
  settled_at none token outcome now = counted
  settled_at (some action) token outcome now =
      let f = w.ledger.flow in
      settled _ (
        if-both (Returns (λ (o : Flow × Bool). IsKept f o.0))
          (not (is_fenced f token now) || not (f.run.revision == action.revision)) (ok (f, false))
          (settle_with valid f action outcome now) (λ stale. (refl, refl))
          (λ fenced. settle_with-IsKept action outcome now))

  obeyed :
      (out : Result (Ledger × Flow))
      → Returns (λ o. IsKept w.ledger.flow o.0.flow) out
      → IsCounted (commanded_world w out).ledger.flow
  obeyed (raise e) h = counted
  obeyed (ok (l, receipt)) h = kept-IsCounted w.ledger.flow l.flow counted h

  ledger-IsKept :
      (body : RunCommand) (request_digest actor now : ℕ) (prior : Option FlowCommand)
      → Returns
          (λ o. IsKept w.ledger.flow o.0.flow)
          (command_or_replay digest w.ledger body request_digest actor now prior)
  ledger-IsKept body request_digest actor now (some prior) =
      Returns-guard (λ (o : Ledger × Flow). IsKept w.ledger.flow o.0.flow)
        (not (prior.digest == request_digest)) 409 "command-conflict" (ok (w.ledger, prior.receipt))
        (λ same. (refl, refl))
  ledger-IsKept body request_digest actor now none =
      let g = record w.ledger.flow { run = bump w.ledger.flow.run } in
      Returns-guard (λ (o : Ledger × Flow). IsKept w.ledger.flow o.0.flow)
        (not (w.ledger.flow.run.revision == body.expected_revision)) 409 "stale-revision"
        (command_transition g body.action now >>= λ h.
          ok (recorded digest w.ledger body request_digest actor h))
        (λ same.
          Returns-bind (λ o. IsKept w.ledger.flow o.0.flow) (command_transition g body.action now)
            (λ h. ok (recorded digest w.ledger body request_digest actor h))
            (λ h e. returned (IsKept g) _ (command_transition-IsKept g body.action now) e))

  happen-IsCounted : (e : Event) → IsCounted (happen valid digest w e).ledger.flow
  unfolding happen plan_fenced command
  happen-IsCounted (claims token now) = claimed token now
  happen-IsCounted (plans token fresh now) = planned _ (
      if-both (Returns (λ (o : Flow × Option WorkerAction). IsMade w.ledger.flow o.0))
        (is_fenced w.ledger.flow token now) _ _ (λ mine. plan-IsMade valid w.ledger.flow fresh now)
        (λ other. inl (refl, refl)))
  happen-IsCounted (settles index token outcome now) =
      settled_at (get_elem? w.actions index) token outcome now
  happen-IsCounted (releases token) = released token
  happen-IsCounted (commands body request_digest actor now) =
      let prior = first (λ c. c.command_key == body.command_id) w.ledger.commands in
      obeyed (command_or_replay digest w.ledger body request_digest actor now prior)
        (ledger-IsKept body request_digest actor now prior)

pub happen_all-IsCounted :
    (valid : ℕ → Value → Bool) (digest : ℕ → ℕ) (w : World) (es : List Event)
    → IsCounted w.ledger.flow
    → IsCounted (happen_all valid digest w es).ledger.flow
unfolding happen_all
happen_all-IsCounted valid digest w [] counted = counted
happen_all-IsCounted valid digest w (e ∷ es) counted =
    happen_all-IsCounted valid digest (happen valid digest w e) es
      (happen-IsCounted valid digest w counted e)

-- The rows of a new run, whose ids are different.
module _ (ids : ℕ → ℕ) (distinct : (i j : ℕ) → ids i ≡ ids j → i ≡ j) where
  new_rows-behind :
      (i position : ℕ) (specs : List StepSpec)
      → i < position
      → All (λ other. ids i ≢ other) (map (λ x. x.0) (map tallied (new_rows ids position specs)))
  new_rows-behind i position [] lt = tt
  new_rows-behind i position (s ∷ specs) lt = (
    (λ same. omega (arith, distinct i position same, lt)),
    new_rows-behind i (suc position) specs (omega arith),
  )

  new_rows-IsCounted :
      (position : ℕ) (specs : List StepSpec)
      → IsCountedBy (map tallied (new_rows ids position specs)) []
  new_rows-IsCounted position [] = (tt, tt)
  new_rows-IsCounted position (s ∷ specs) =
      let rest = new_rows-IsCounted (suc position) specs in
      ((new_rows-behind position (suc position) specs (omega arith), rest.0), (refl, rest.1))

  pub new_flow-IsCounted :
      (release : Release) (task : TaskRef) (inputs : Fields) (run_id : ℕ) (specs : List StepSpec)
      → IsCounted (new_flow release task inputs run_id ids specs)
  new_flow-IsCounted release task inputs run_id specs = new_rows-IsCounted 0 specs
