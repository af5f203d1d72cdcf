-- ===== src/Run/Advance/Bounds.antt =====
-- advancement.py: the calls that the loop makes, and the release of its lease.
use autohub.Base.{
  ℕ, zero, suc, ◌≡◌, ◌≤◌, refl, Bool, true, false, List, [], ◌∷◌, ◌++◌, arith, length, Bool-cases,
  inl, inr, not, ◌||◌,
}
use autohub.Run.Advance.{
  RunView, Reply, returned, raised, timed_out, Lifecycle, Action, prepared, delivered,
  observed_pull, released, advance_max_steps, Turn, plans, delivers, watches, rests, turn, Outcome,
  reload, planned, delivery, watched, take, steps, must_wait, same_progress, finally,
  advance_until_wait,
}

-- At most `n` calls, none of them after a delivery, and none of them a release.
abbrev pub IsBounded : ℕ → List Action → Type 0
IsBounded n [] = Unit
IsBounded zero (a ∷ as') = 1 ≤ 0
IsBounded (suc n) (prepared run now ∷ as') = IsBounded n as'
IsBounded (suc n) (observed_pull run now ∷ as') = IsBounded n as'
IsBounded (suc n) (delivered run now ∷ as') = length as' ≤ 0
IsBounded (suc n) (released ∷ as') = 1 ≤ 0

-- What holds of no call, and of the calls of the rest of the loop, holds of the calls of a step.
module _ {W : Type 0} (P : List Action → Type 0) (nil : P []) where
  pub reload_keeps :
      (r : W × Reply RunView) (next : W → RunView → Outcome W)
      → ((w : W) (run : RunView) → P (next w run).actions)
      → P (reload r next).actions
  reload_keeps (w, returned run) next h = h w run
  reload_keeps (w, raised hold e) next h = nil
  reload_keeps (w, timed_out) next h = nil

  pub planned_keeps :
      (life : Lifecycle W) (r : W × Reply (Unit {0})) (next : W → RunView → Outcome W)
      → ((w : W) (run : RunView) → P (next w run).actions)
      → P (planned life r next).actions
  planned_keeps life (w, returned _) next h = reload_keeps (life.get w) next h
  planned_keeps life (w, raised hold e) next h = nil
  planned_keeps life (w, timed_out) next h = nil

  pub watched_keeps :
      (r : W × Reply RunView) (run : RunView) (next : W → RunView → Outcome W)
      → ((w : W) (run : RunView) → P (next w run).actions)
      → P (watched r run next).actions
  watched_keeps (w, returned run') run next h = elim (Bool-cases (same_progress run' run)) [
    | inl same ↦ rw same nil
    | inr moved ↦ rw moved (h w run')
  ]
  watched_keeps (w, raised hold e) run next h = nil
  watched_keeps (w, timed_out) run next h = nil

  pub delivery_keeps :
      (r : W × Reply RunView) (run : RunView) (observed : Bool)
      → P (delivery r run observed).actions
  delivery_keeps (w, returned run') run observed = nil
  delivery_keeps (w, raised hold e) run observed = elim (Bool-cases (not hold || not observed)) [
    | inl off ↦ rw off nil
    | inr on ↦ rw on nil
  ]
  delivery_keeps (w, timed_out) run observed = nil

module _ {W : Type 0} (n : ℕ) where
  take-IsBounded :
      (t : Turn) (life : Lifecycle W) (token : ℕ) (observed : Bool) (w : W) (run : RunView)
      (next : Bool → W → RunView → Outcome W)
      → ((o : Bool) (w : W) (run : RunView) → IsBounded n (next o w run).actions)
      → IsBounded (suc n) (take t life token observed w run next).actions
  take-IsBounded plans life token observed w run next h =
      planned_keeps (IsBounded n) tt life (life.prepare_implementation w token run.revision)
        (next observed) (h observed)
  take-IsBounded delivers life token observed w run next h =
      delivery_keeps (λ as'. length as' ≤ 0) (omega arith) (life.dispatch_implementation w token)
        run observed
  take-IsBounded watches life token observed w run next h =
      watched_keeps (IsBounded n) tt (life.observe_run w token) run (next true) (h true)
  take-IsBounded rests life token observed w run next h = tt

module _ {W : Type 0} (life : Lifecycle W) (respect_due : Bool) where
  steps-IsBounded :
      (token n : ℕ) (later observed : Bool) (w : W) (run : RunView)
      → IsBounded n (steps life token respect_due n later observed w run).actions
  unfolding steps
  steps-IsBounded token zero later observed w run = tt
  steps-IsBounded token (suc n) later observed w run =
      elim (Bool-cases (must_wait run (life.clock w) respect_due later)) [
        | inl waits ↦ rw waits tt
        | inr goes ↦ rw goes (
            take-IsBounded n (turn run.state run.waiting_for_approval) life token observed w run _
              (λ o w' run'. steps-IsBounded token n true o w' run'))
      ]

  pub finally_releases :
      (r : W × Reply (Unit {0})) (actions : List Action) (reply : Reply RunView)
      → (finally r actions reply).actions ≡ actions ++ released ∷ []
  finally_releases (w, returned _) actions reply = refl
  finally_releases (w, raised hold e) actions reply = refl
  finally_releases (w, timed_out) actions reply = refl

  loop : ℕ → W → Outcome W
  loop token w =
      reload (life.get w)
        (λ w' run. steps life token respect_due advance_max_steps false false w' run)

-- A call that gets the lease makes at most eight calls to plan, deliver or observe, none of them after
-- a delivery, and gives the lease back after them, whether they return, fail or run out of time.
pub advance_until_wait-IsBounded :
    {W : Type 0} (life : Lifecycle W) (respect_due : Bool) (w w' : W) (token : ℕ)
    → life.acquire_lease w ≡ (w', returned token)
    → (calls : List Action) × ((advance_until_wait life respect_due w).actions
        ≡ calls ++ released ∷ [])
      × IsBounded advance_max_steps calls
unfolding advance_until_wait
advance_until_wait-IsBounded life respect_due w w' token acquired = rw acquired (
  (loop life respect_due token w').actions,
  unfold loop in finally_releases life respect_due _ _ _,
  unfold loop in
      reload_keeps (IsBounded advance_max_steps) tt (life.get w') _
        (λ w2 run. steps-IsBounded life respect_due token advance_max_steps false false w2 run),
)
