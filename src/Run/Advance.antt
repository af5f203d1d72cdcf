-- ===== src/Run/Advance.antt =====
-- pipeline_runs/usecases/advancement.py: the bounded loop that a scheduler tick, a webhook or an
-- operator starts on one run. What the loop calls of the lifecycle is the interface `Lifecycle`.
pub mod Bounds
pub mod Timing
use autohub.Base.{
  ℕ, zero, suc, ◌+◌, Bool, true, false, not, ◌&&◌, ◌||◌, Option, none, some, List, [], ◌∷◌, ◌++◌,
  ProjectError, project_error, if◌then◌else◌, ◌==◌, ltb,
}
use autohub.Run.Model.{
  PipelineRunState, queued, dispatching, implementing, awaiting_ci, paused, blocked, completed,
  failed, canceled,
}

-- The part of `PipelineRunRead` that the loop reads; the last fields are of `sdd_progress`.
pub record RunView : Type 0 where
  pub state : PipelineRunState
  pub revision : ℕ
  pub next_action_at : Option ℕ
  pub waiting_for_approval : Bool
  pub stage_id : Option ℕ
  pub has_approval : Bool
  pub integrated : Option ℕ
  pub head_sha : Option ℕ
  pub base_sha : Option ℕ

-- How a call ends: with a value, with a ProjectError (marked where its code is CATALOG_HOLD_CODE),
-- or in the time budget's TimeoutError.
pub data Reply (A : Type 0) : Type 0 where
  returned : A → Reply A
  raised : (catalog_hold : Bool) → ProjectError → Reply A
  timed_out : Reply A

-- The lifecycle's operations on the world's state `W`, for one run and one owner.
pub record Lifecycle (W : Type 0) : Type 0 where
  pub clock : W → ℕ
  pub acquire_lease : W → W × Reply ℕ
  pub get : W → W × Reply RunView
  pub prepare_implementation : W → (token revision : ℕ) → W × Reply (Unit {0})
  pub dispatch_implementation : W → (token : ℕ) → W × Reply RunView
  pub observe_run : W → (token : ℕ) → W × Reply RunView
  pub release_lease : W → (token : ℕ) → W × Reply (Unit {0})

-- What the loop has called, in order: a call of a step with the run that it has read, and the time.
pub data Action : Type 0 where
  prepared delivered observed_pull : (run : RunView) → (now : ℕ) → Action
  released : Action

abbrev pub advance_max_steps : ℕ
advance_max_steps = 8

abbrev pub state_code : PipelineRunState → ℕ
state_code queued = 0
state_code dispatching = 1
state_code implementing = 2
state_code awaiting_ci = 3
state_code paused = 4
state_code blocked = 5
state_code completed = 6
state_code failed = 7
state_code canceled = 8

abbrev pub same_option : Option ℕ → Option ℕ → Bool
same_option none none = true
same_option (some a) (some b) = a == b
same_option _ _ = false

abbrev pub same_bool : Bool → Bool → Bool
same_bool true b = b
same_bool false b = not b

-- `progress_key(run) == progress_key(other)`.
abbrev pub same_progress : RunView → RunView → Bool
same_progress a b =
    state_code a.state == state_code b.state
    && (same_option a.stage_id b.stage_id
        && (same_bool a.has_approval b.has_approval
            && (same_option a.integrated b.integrated
                && (same_option a.head_sha b.head_sha && same_option a.base_sha b.base_sha))))

abbrev pub is_due_later : Option ℕ → (now : ℕ) → Bool
is_due_later none now = false
is_due_later (some t) now = ltb now t

abbrev pub waits_to_start : PipelineRunState → Bool
waits_to_start queued = true
waits_to_start dispatching = true
waits_to_start _ = false

-- The first guard of a step; `later_step` is `step > 0`.
abbrev pub must_wait : RunView → (now : ℕ) → (respect_due later_step : Bool) → Bool
must_wait run now respect_due later_step =
    is_due_later run.next_action_at now && (respect_due || (later_step || waits_to_start run.state))

-- What a step does with a run in a state.
pub data Turn : Type 0 where
  plans delivers watches rests : Turn

abbrev pub turn : PipelineRunState → (waiting_for_approval : Bool) → Turn
turn queued w = plans
turn dispatching w = delivers
turn implementing w = watches
turn awaiting_ci w = watches
turn paused w = if w then watches else rests
turn _ w = rests

pub record Outcome (W : Type 0) : Type 0 where
  pub world : W
  pub actions : List Action
  pub reply : Reply RunView

-- `except TimeoutError`.
abbrev pub in_time : Reply RunView → Reply RunView
in_time timed_out =
    raised false (
      project_error 504 "Pipeline advancement exceeded its time budget; reconcile on the next tick")
in_time reply = reply

module _ {W : Type 0} where
  abbrev pub ended : W → List Action → Reply RunView → Outcome W
  ended w actions reply = record { world = w; actions = actions; reply = reply }

  abbrev pub after : Action → Outcome W → Outcome W
  after action o = record o { actions = action ∷ o.actions }

  -- `run = await get(run_id)`, and the rest of the loop.
  abbrev pub reload : W × Reply RunView → (W → RunView → Outcome W) → Outcome W
  reload (w, returned run) next = next w run
  reload (w, raised hold e) next = ended w [] (raised hold e)
  reload (w, timed_out) next = ended w [] timed_out

  abbrev pub planned : Lifecycle W → W × Reply (Unit {0}) → (W → RunView → Outcome W) → Outcome W
  planned life (w, returned _) next = reload (life.get w) next
  planned life (w, raised hold e) next = ended w [] (raised hold e)
  planned life (w, timed_out) next = ended w [] timed_out

  -- A hold of the catalog ends a call that has observed; it is raised otherwise.
  abbrev pub delivery : W × Reply RunView → RunView → (observed : Bool) → Outcome W
  delivery (w, returned run') run observed = ended w [] (returned run')
  delivery (w, raised hold e) run observed =
      if not hold || not observed then ended w [] (raised hold e) else ended w [] (returned run)
  delivery (w, timed_out) run observed = ended w [] timed_out

  abbrev pub watched : W × Reply RunView → RunView → (W → RunView → Outcome W) → Outcome W
  watched (w, returned run') run next =
      let rest = next w run' in if same_progress run' run then ended w [] (returned run') else rest
  watched (w, raised hold e) run next = ended w [] (raised hold e)
  watched (w, timed_out) run next = ended w [] timed_out

  abbrev pub take :
      Turn
      → Lifecycle W
      → (token : ℕ) → (observed : Bool) → W
      → RunView
      → (Bool → W → RunView → Outcome W)
      → Outcome W
  take plans life token observed w run next =
      after (prepared run (life.clock w))
        (planned life (life.prepare_implementation w token run.revision) (next observed))
  take delivers life token observed w run next =
      after (delivered run (life.clock w))
        (delivery (life.dispatch_implementation w token) run observed)
  take watches life token observed w run next =
      after (observed_pull run (life.clock w)) (watched (life.observe_run w token) run (next true))
  take rests life token observed w run next = ended w [] (returned run)

  -- `for step in range(ADVANCE_MAX_STEPS)`, with the steps that are left.
  unfoldable pub steps :
      Lifecycle W
      → (token : ℕ) → (respect_due : Bool) → ℕ
      → (later_step observed : Bool) → W
      → RunView
      → Outcome W
  steps life token respect_due zero later_step observed w run = ended w [] (returned run)
  steps life token respect_due (suc n) later_step observed w run =
      let next =
        take (turn run.state run.waiting_for_approval) life token observed w run
          (λ o w' run'. steps life token respect_due n true o w' run') in
      if must_wait run (life.clock w) respect_due later_step
      then ended w [] (returned run)
      else next

  -- `finally`: an error of the release takes the place of the reply.
  abbrev pub finally : W × Reply (Unit {0}) → List Action → Reply RunView → Outcome W
  finally (w, returned _) actions reply = ended w (actions ++ released ∷ []) reply
  finally (w, raised hold e) actions reply = ended w (actions ++ released ∷ []) (raised hold e)
  finally (w, timed_out) actions reply = ended w (actions ++ released ∷ []) timed_out

  abbrev pub under_lease : Lifecycle W → (respect_due : Bool) → W × Reply ℕ → Outcome W
  under_lease life respect_due (w, returned token) =
      let o =
        reload (life.get w)
          (λ w' run. steps life token respect_due advance_max_steps false false w' run) in
      finally (life.release_lease o.world token) o.actions (in_time o.reply)
  under_lease life respect_due (w, raised hold e) = ended w [] (raised hold e)
  under_lease life respect_due (w, timed_out) = ended w [] timed_out

  unfoldable pub advance_until_wait : Lifecycle W → (respect_due : Bool) → W → Outcome W
  advance_until_wait life respect_due w = under_lease life respect_due (life.acquire_lease w)
