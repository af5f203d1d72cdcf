-- ===== src/Run/Advance/Timing.antt =====
-- advancement.py: when the loop calls.
use autohub.Base.{
  ℕ, zero, suc, ◌≡◌, ◌≤◌, ◌⊎◌, Bool, true, false, ◌||◌, Option, none, some, List, [], ◌∷◌, ◌++◌,
  arith, All, refl, subst, sym, Bool-cases, inl, inr,
}
use autohub.Run.Model.{PipelineRunState, queued, dispatching, implementing, awaiting_ci, paused}
use autohub.Run.Advance.{
  RunView, Reply, returned, raised, timed_out, Lifecycle, Action, prepared, delivered,
  observed_pull, released, advance_max_steps, Turn, plans, delivers, watches, rests, turn, Outcome,
  reload, take, steps, must_wait, advance_until_wait, under_lease, is_due_later, waits_to_start,
  in_time,
}
use autohub.Run.Advance.Bounds.{
  reload_keeps, planned_keeps, watched_keeps, delivery_keeps, finally_releases,
}

-- The run has no time for its next action, or one that has come.
abbrev pub IsDue : RunView → ℕ → Type 0
IsDue run now = (run.next_action_at ≡ none) ⊎ ((t : ℕ) × (run.next_action_at ≡ some t) × (t ≤ now))

-- What is observed has been delivered, or waits for an approval.
abbrev pub IsWatched : RunView → Type 0
IsWatched run =
    (run.state ≡ implementing)
    ⊎ ((run.state ≡ awaiting_ci) ⊎ ((run.state ≡ paused) × (run.waiting_for_approval ≡ true)))

-- The call of a step is due, and is the one for the state of the run.
abbrev pub IsTimelyCall : Action → Type 0
IsTimelyCall (prepared run now) = (run.state ≡ queued) × IsDue run now
IsTimelyCall (delivered run now) = (run.state ≡ dispatching) × IsDue run now
IsTimelyCall (observed_pull run now) = IsWatched run × IsDue run now
IsTimelyCall released = Unit

-- The first call may observe early where due times are not respected.
abbrev pub IsTimelyFirst : (respect_due : Bool) → Action → Type 0
IsTimelyFirst respect_due (observed_pull run now) =
    IsWatched run × ((respect_due ≡ false) ⊎ IsDue run now)
IsTimelyFirst respect_due a = IsTimelyCall a

abbrev pub IsTimely : (First : Action → Type 0) → List Action → Type 0
IsTimely First [] = Unit
IsTimely First (a ∷ as') = First a × All IsTimelyCall as'

later_due :
    (o : Option ℕ) (now : ℕ)
    → is_due_later o now ≡ false
    → (o ≡ none) ⊎ ((t : ℕ) × (o ≡ some t) × (t ≤ now))
later_due none now h = inl refl
later_due (some t) now h = inr (t, refl, ground (arith, h))

must_wait-IsDue :
    (run : RunView) (now : ℕ) (respect_due later_step : Bool)
    → must_wait run now respect_due later_step ≡ false
    → (respect_due || (later_step || waits_to_start run.state)) ≡ true
    → IsDue run now
must_wait-IsDue run now respect_due later_step h guard =
    later_due run.next_action_at now (ground (arith, h, guard))

turn_watches :
    (s : PipelineRunState) (waiting : Bool)
    → turn s waiting ≡ watches
    → (s ≡ implementing) ⊎ ((s ≡ awaiting_ci) ⊎ ((s ≡ paused) × (waiting ≡ true)))
turn_watches s waiting h = ground (arith, h)

turn_plans : (s : PipelineRunState) (waiting : Bool) → turn s waiting ≡ plans → s ≡ queued
turn_plans s waiting h = ground (arith, h)

turn_delivers :
    (s : PipelineRunState) (waiting : Bool) → turn s waiting ≡ delivers → s ≡ dispatching
turn_delivers s waiting h = ground (arith, h)

module _ {W : Type 0} (life : Lifecycle W) (First : Action → Type 0) where
  -- A step makes at most the call of its turn, before those of the rest of the loop.
  take-IsTimely :
      (t : Turn) (token : ℕ) (observed : Bool) (w : W) (run : RunView)
      (next : Bool → W → RunView → Outcome W)
      → (t ≡ plans → First (prepared run (life.clock w)))
      → (t ≡ delivers → First (delivered run (life.clock w)))
      → (t ≡ watches → First (observed_pull run (life.clock w)))
      → ((o : Bool) (w' : W) (run' : RunView) → All IsTimelyCall (next o w' run').actions)
      → IsTimely First (take t life token observed w run next).actions
  take-IsTimely plans token observed w run next p d o h = (
    p refl,
    planned_keeps (All IsTimelyCall) tt life (life.prepare_implementation w token run.revision)
        (next observed) (h observed),
  )
  take-IsTimely delivers token observed w run next p d o h = (
    d refl,
    delivery_keeps (All IsTimelyCall) tt (life.dispatch_implementation w token) run observed,
  )
  take-IsTimely watches token observed w run next p d o h = (
    o refl,
    watched_keeps (All IsTimelyCall) tt (life.observe_run w token) run (next true) (h true),
  )
  take-IsTimely rests token observed w run next p d o h = tt

IsTimely-All : (calls : List Action) → IsTimely IsTimelyCall calls → All IsTimelyCall calls
IsTimely-All [] h = tt
IsTimely-All (a ∷ calls) h = h

module _ {W : Type 0} (life : Lifecycle W) (respect_due : Bool) where
  starting-IsDue :
      (run : RunView) (now : ℕ) (later_step : Bool)
      → must_wait run now respect_due later_step ≡ false
      → (waits_to_start run.state ≡ true)
      → IsDue run now
  starting-IsDue run now later_step goes starts =
      must_wait-IsDue run now respect_due later_step goes (ground (arith, starts))

  steps_later :
      (token n : ℕ) (observed : Bool) (w : W) (run : RunView)
      → All IsTimelyCall (steps life token respect_due n true observed w run).actions
  unfolding steps
  steps_later token zero observed w run = tt
  steps_later token (suc n) observed w run =
      elim (Bool-cases (must_wait run (life.clock w) respect_due true)) [
        | inl waits ↦ rw waits tt
        | inr goes ↦
            let due = must_wait-IsDue run (life.clock w) respect_due true goes (ground arith) in
            let s = run.state in
            let v = run.waiting_for_approval in
            rw goes (
              IsTimely-All _ (
                take-IsTimely life IsTimelyCall (turn s v) token observed w run _
                  (λ e. (turn_plans s v e, due)) (λ e. (turn_delivers s v e, due))
                  (λ e. (turn_watches s v e, due)) (λ o w' run'. steps_later token n o w' run')))
      ]

  steps_first :
      (token n : ℕ) (observed : Bool) (w : W) (run : RunView)
      → IsTimely
          (IsTimelyFirst respect_due)
          (steps life token respect_due n false observed w run).actions
  unfolding steps
  steps_first token zero observed w run = tt
  steps_first token (suc n) observed w run =
      elim (Bool-cases (must_wait run (life.clock w) respect_due false)) [
        | inl waits ↦ rw waits tt
        | inr goes ↦
            let now = life.clock w in
            let s = run.state in
            let v = run.waiting_for_approval in
            rw goes (
              take-IsTimely life (IsTimelyFirst respect_due) (turn s v) token observed w run _
                (λ e. (
                  turn_plans s v e,
                  starting-IsDue run now false goes (rw (turn_plans s v e) refl),
                ))
                (λ e. (
                  turn_delivers s v e,
                  starting-IsDue run now false goes (rw (turn_delivers s v e) refl),
                ))
                (λ e. (
                  turn_watches s v e,
                  elim (Bool-cases respect_due) [
                    | inl on ↦
                        inr (must_wait-IsDue run now respect_due false goes (ground (arith, on)))
                    | inr off ↦ inl off
                  ],
                ))
                (λ o w' run'. steps_later token n o w' run'))
      ]

  released-All :
      (calls : List Action) → All IsTimelyCall calls → All IsTimelyCall (calls ++ released ∷ [])
  released-All [] h = (tt, tt)
  released-All (a ∷ calls) h = (h.0, released-All calls h.1)

  released-IsTimely :
      (calls : List Action)
      → IsTimely (IsTimelyFirst respect_due) calls
      → IsTimely (IsTimelyFirst respect_due) (calls ++ released ∷ [])
  released-IsTimely [] h = (tt, tt)
  released-IsTimely (a ∷ calls) h = (h.0, released-All calls h.1)

  under_lease-IsTimely :
      (r : W × Reply ℕ)
      → IsTimely (IsTimelyFirst respect_due) (under_lease life respect_due r).actions
  under_lease-IsTimely (w, returned token) =
      let o =
        reload (life.get w)
          (λ w' run. steps life token respect_due advance_max_steps false false w' run) in
      subst (IsTimely (IsTimelyFirst respect_due))
        (sym (
          finally_releases life respect_due (life.release_lease o.world token) o.actions
            (in_time o.reply)))
        (released-IsTimely o.actions (
          reload_keeps (IsTimely (IsTimelyFirst respect_due)) tt (life.get w) _
            (λ w' run. steps_first token advance_max_steps false w' run)))
  under_lease-IsTimely (w, raised hold e) = tt
  under_lease-IsTimely (w, timed_out) = tt

-- In every call of the loop, whatever the lifecycle answers, it plans only a queued run, delivers only
-- a dispatching one and observes only one that is at work, checked or waiting for an approval, by the
-- run and the time that the step read; and each time the run's next action is due, but that the first
-- call may observe early where due times are not respected.
pub advance_until_wait-IsTimely :
    {W : Type 0} (life : Lifecycle W) (respect_due : Bool) (w : W)
    → IsTimely (IsTimelyFirst respect_due) (advance_until_wait life respect_due w).actions
unfolding advance_until_wait
advance_until_wait-IsTimely life respect_due w =
    under_lease-IsTimely life respect_due (life.acquire_lease w)
