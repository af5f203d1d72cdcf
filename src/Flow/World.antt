-- ===== src/Flow/World.antt =====
-- A run with the actions that its workers hold, and the transactions that change it, one at a time
-- and in any order: those of flows/worker.py, by any number of workers, and those of
-- `FlowService.command`.
pub mod Refinement
pub mod Outcomes
use autohub.Base.{
  ℕ, Bool, true, false, Option, none, some, List, [], ◌∷◌, Result, ok, raise, get_elem?,
}
use autohub.Flow.Model.{Value, Flow}
use autohub.Flow.Runtime.{WorkerAction, WorkerResult}
use autohub.Flow.Worker.{claim, plan_fenced, settle, release_lease}
use autohub.Flow.Service.{Ledger, RunCommand, command}

pub record World : Type 0 where
  pub ledger : Ledger
  pub actions : List WorkerAction

-- `settles` gives the outcome of the action at an index, which some worker holds.
pub data Event : Type 0 where
  claims : (token now : ℕ) → Event
  plans : (token fresh now : ℕ) → Event
  settles : (index token : ℕ) → Option WorkerResult → (now : ℕ) → Event
  releases : (token : ℕ) → Event
  commands : RunCommand → (request_digest actor now : ℕ) → Event

abbrev pub with_flow : World → Flow → World
with_flow w f = record w { ledger = record w.ledger { flow = f } }

-- An exception rolls its transaction back.
abbrev pub planned_world : World → Result (Flow × Option WorkerAction) → World
planned_world w (raise e) = w
planned_world w (ok (f, none)) = with_flow w f
planned_world w (ok (f, some action)) = record (with_flow w f) { actions = action ∷ w.actions }

abbrev pub settled_world : World → Result (Flow × Bool) → World
settled_world w (raise e) = w
settled_world w (ok (f, applied)) = with_flow w f

abbrev pub commanded_world : World → Result (Ledger × Flow) → World
commanded_world w (raise e) = w
commanded_world w (ok (l, receipt)) = record w { ledger = l }

module _ (valid : ℕ → Value → Bool) (digest : ℕ → ℕ) where
  abbrev pub settle_at :
      World → Option WorkerAction → (token : ℕ) → Option WorkerResult → (now : ℕ) → World
  settle_at w none token outcome now = w
  settle_at w (some action) token outcome now =
      settled_world w (settle valid w.ledger.flow action token outcome now)

  unfoldable pub happen : World → Event → World
  happen w (claims token now) = with_flow w (claim w.ledger.flow token now).0
  happen w (plans token fresh now) =
      planned_world w (plan_fenced valid w.ledger.flow token fresh now)
  happen w (settles index token outcome now) =
      settle_at w (get_elem? w.actions index) token outcome now
  happen w (releases token) = with_flow w (release_lease w.ledger.flow token)
  happen w (commands body request_digest actor now) =
      commanded_world w (command digest w.ledger body request_digest actor now)

  unfoldable pub happen_all : World → List Event → World
  happen_all w [] = w
  happen_all w (e ∷ es) = happen_all (happen w e) es
