-- ===== src/Plans/Control.antt =====
-- work_plans/services.py, repos.py and execution.py: controlling a plan, and its completion. The locked
-- project makes each call alone. A completion is modelled for a plan whose stored items validate.
pub mod Final
pub mod Resumed
use autohub.Base.{
  ℕ, suc, ◌+◌, Bool, true, false, not, ◌&&◌, ◌||◌, Option, none, some, List, [], ◌∷◌, ◌++◌, Result,
  ok, raise, raise_if, require, project_error, ◌>>=◌, ◌>>◌, if◌then◌else◌, ◌==◌, first, select, any,
  all, map, opt_is, is_none, is_some,
}
use autohub.Plans.Graph.{Node, validate_graph}
use autohub.Plans.Model.{
  PlanState, draft, proposed, paused, active, completed, revoked, ItemState, item_waiting,
  item_succeeded, item_revoked, WorkPlan, WorkItemWrite, WorkItem, Project, Store,
}

abbrev pub find_plan : ℕ → List WorkPlan → Option WorkPlan
find_plan id plans = first (λ p. p.id == id) plans

abbrev pub put_plan : WorkPlan → List WorkPlan → List WorkPlan
put_plan p [] = []
put_plan p (q ∷ qs) = let rest = put_plan p qs in if q.id == p.id then p ∷ qs else q ∷ rest

-- WorkPlanRepository.items.
abbrev pub items_of : Store → ℕ → List WorkItem
items_of t plan_id = select (λ i. i.plan_id == plan_id) t.items

-- `WorkPlanService.get`.
abbrev pub get_plan : Store → (project_id plan_id : ℕ) → Result WorkPlan
get_plan t project_id plan_id =
    require (find_plan plan_id t.plans) 404 "Work plan not found" >>= λ p.
    raise_if (not (p.project_id == project_id)) 404 "Work plan not found" >> ok p

-- WorkPlanRepository.plan_graph.
abbrev pub plan_graph : Store → (project_id : ℕ) → List Node
plan_graph t project_id =
    map (λ p. (p.id, p.depends_on)) (select (λ p. p.project_id == project_id) t.plans)

-- `graph[key] = parents`.
abbrev pub with_node : ℕ → List ℕ → List Node → List Node
with_node key parents [] = (key, parents) ∷ []
with_node key parents ((k, ps) ∷ rest) =
    let later = with_node key parents rest in
    if k == key then (key, parents) ∷ rest else (k, ps) ∷ later

-- `WorkPlanService.validate_parents`.
unfoldable pub validate_parents :
    Store → (project_id plan_id : ℕ) → (parents : List ℕ) → Result (Unit {0})
validate_parents t project_id plan_id parents =
    validate_graph (with_node plan_id parents (plan_graph t project_id))

abbrev pub is_specified : WorkItemWrite → Bool
is_specified w = w.has_title && (w.has_description && w.has_acceptance)

abbrev pub is_nil : List WorkItemWrite → Bool
is_nil [] = true
is_nil (w ∷ ws) = false

-- `WorkPlanWrite.require_ready`.
abbrev pub require_ready : List WorkItemWrite → Result (Unit {0})
require_ready writes =
    raise_if (is_nil writes || any (λ w. not (is_specified w)) writes) 422
      "At least one item is required, with title, specification and acceptance for every item"

-- The graph of `WorkPlanWrite.dependencies`.
abbrev pub item_graph : List WorkItemWrite → List Node
item_graph writes = map (λ w. (w.key, w.depends_on)) writes

pub data PlanAction : Type 0 where
  pause resume revoke propose to_draft make_ready : PlanAction

-- `allowed`.
abbrev pub is_allowed : PlanState → PlanAction → Bool
is_allowed draft propose = true
is_allowed draft make_ready = true
is_allowed draft resume = true
is_allowed draft revoke = true
is_allowed proposed to_draft = true
is_allowed proposed make_ready = true
is_allowed proposed resume = true
is_allowed proposed revoke = true
is_allowed paused pause = true
is_allowed paused resume = true
is_allowed paused revoke = true
is_allowed active pause = true
is_allowed active resume = true
is_allowed active revoke = true
is_allowed _ _ = false

abbrev pub next_state : PlanAction → PlanState
next_state pause = paused
next_state resume = active
next_state revoke = revoked
next_state propose = proposed
next_state to_draft = draft
next_state make_ready = paused

-- `data.action in ("propose", "ready", "resume")`.
abbrev pub needs_ready : PlanAction → Bool
needs_ready propose = true
needs_ready make_ready = true
needs_ready resume = true
needs_ready _ = false

abbrev pub is_revoke : PlanAction → Bool
is_revoke revoke = true
is_revoke _ = false

abbrev pub is_over : PlanState → Bool
is_over completed = true
is_over revoked = true
is_over _ = false

abbrev pub writes_of : Store → ℕ → List WorkItemWrite
writes_of t plan_id = map (λ i. i.spec) (items_of t plan_id)

-- A ValidationError, which the services do not turn into an answer.
abbrev pub validated : Result (Unit {0}) → Result (Unit {0})
validated (ok _) = ok tt
validated (raise e) = raise (project_error 500 "ValidationError")

-- The checks before a plan may go on.
abbrev pub check_ready : Store → Project → WorkPlan → Result (Unit {0})
check_ready t project p =
    raise_if
      (not (
        opt_is project.github_repository p.repository
        && opt_is project.github_connector_id p.connector_id))
      409 "Repository connection changed; restore it or register a new plan"
    >> (require_ready (writes_of t p.id) >> validate_parents t project.id p.id p.depends_on)

abbrev pub revoke_item : ℕ → WorkItem → WorkItem
revoke_item plan_id i =
    if (i.plan_id == plan_id) && is_none i.started_at then record i { state = item_revoked } else i

abbrev pub controlled : Store → WorkPlan → PlanAction → Store
controlled t p action = record {
  plans = put_plan (record p { state = next_state action; revision = suc p.revision }) t.plans;
  items = if is_revoke action then map (revoke_item p.id) t.items else t.items;
}

abbrev pub check_action : Store → Project → WorkPlan → PlanAction → Result (Unit {0})
check_action t project p action =
    let checks = check_ready t project p in if needs_ready action then checks else ok tt

-- `snapshot` of activity.py, so far as it can fail: it validates the stored items again.
abbrev pub snapshot : Store → WorkPlan → Result (Unit {0})
snapshot t p = validated (validate_graph (item_graph (writes_of t p.id)))

-- `WorkPlanService.control`.
unfoldable pub control : Store → Project → (plan_id expected : ℕ) → PlanAction → Result Store
control t project plan_id expected action = get_plan t project.id plan_id >>= λ p.
    raise_if (not (p.revision == expected)) 409 "Work plan changed; reload before modifying it"
    >> (raise_if (is_over p.state) 409 "Completed or revoked plans cannot be controlled"
        >> (raise_if (not (is_allowed p.state action)) 409 "Cannot do this to the plan"
            >> (snapshot t p >> (check_action t project p action >> ok (controlled t p action)))))

abbrev pub can_complete : PlanState → Bool
can_complete active = true
can_complete paused = true
can_complete _ = false

abbrev pub is_succeeded : ItemState → Bool
is_succeeded item_succeeded = true
is_succeeded _ = false

abbrev pub no_items : List WorkItem → Bool
no_items [] = true
no_items (i ∷ is) = false

-- Whether every item of an unfinished plan has succeeded.
abbrev pub is_finished : Store → WorkPlan → Bool
is_finished t p =
    can_complete p.state
    && (not (no_items (items_of t p.id)) && all (λ i. is_succeeded i.state) (items_of t p.id))

abbrev pub completed_plan : WorkPlan → (now : ℕ) → WorkPlan
completed_plan p now = record p {
  state = completed;
  completed_at = some now;
  revision = suc p.revision;
}

-- `WorkPlanExecution.complete_plan`.
unfoldable pub complete_plan : Store → WorkPlan → (now : ℕ) → Store
complete_plan t p now =
    if is_finished t p then record t { plans = put_plan (completed_plan p now) t.plans } else t
