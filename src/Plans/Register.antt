-- ===== src/Plans/Register.antt =====
-- work_plans/services.py, `create`: the registration of a plan. The locked project makes each call
-- alone; `digest` is the digest of a request's content without its group, sorted as the code does.
pub mod Ranked
use autohub.Base.{
  ℕ, Bool, true, false, not, ◌&&◌, ◌||◌, Option, none, some, List, [], ◌∷◌, ◌++◌, Result, ok, raise,
  raise_if, require, project_error, ◌>>=◌, ◌>>◌, if◌then◌else◌, ◌==◌, first, map, opt_is, is_none,
}
use autohub.Plans.Model.{
  PlanState, draft, WorkPlan, WorkItemWrite, WorkItem, item_waiting, Project, Store,
}
use autohub.Plans.Control.{require_ready, validate_parents}

-- `WorkPlanCreate`; a `WorkPlanWrite` has no request id and the state active.
pub record PlanWrite : Type 0 where
  pub request_id : Option ℕ
  pub state : PlanState
  pub group_key : Option ℕ
  pub base_branch : ℕ
  pub scheduled_at : Option ℕ
  pub depends_on : List ℕ
  pub items : List WorkItemWrite

abbrev pub is_draft : PlanState → Bool
is_draft draft = true
is_draft _ = false

-- WorkPlanRepository.by_request.
abbrev pub by_request : Store → (project_id request_id : ℕ) → Option WorkPlan
by_request t project_id request_id =
    first (λ p. (p.project_id == project_id) && opt_is p.registration_request_id request_id) t.plans

abbrev pub existing : Store → (project_id : ℕ) → Option ℕ → Option WorkPlan
existing t project_id none = none
existing t project_id (some request_id) = by_request t project_id request_id

abbrev pub digest_if : Option ℕ → ℕ → Option ℕ
digest_if none d = none
digest_if (some request_id) d = some d

abbrev pub new_plan :
    PlanWrite → (request_digest project_id repository connector_id plan_id : ℕ) → WorkPlan
new_plan body request_digest project_id repository connector_id plan_id = record {
  id = plan_id;
  project_id = project_id;
  registration_request_id = body.request_id;
  registration_digest = digest_if body.request_id request_digest;
  group_key = body.group_key;
  base_branch = body.base_branch;
  repository = repository;
  connector_id = connector_id;
  scheduled_at = body.scheduled_at;
  state = body.state;
  revision = 1;
  completed_at = none;
  depends_on = body.depends_on;
}

abbrev pub new_item : (plan_id : ℕ) → WorkItemWrite → WorkItem
new_item plan_id write = record {
  plan_id = plan_id;
  spec = write;
  state = item_waiting;
  started_at = none;
  completed_at = none;
}

abbrev pub registered : Store → WorkPlan → List WorkItemWrite → Store
registered t p writes = record {
  plans = p ∷ t.plans;
  items = map (new_item p.id) writes ++ t.items;
}

abbrev pub register_new :
    Store → Project → PlanWrite → (request_digest plan_id : ℕ) → Result (Store × WorkPlan)
register_new t project body request_digest plan_id = do
  repository ←
      require project.github_repository 422 "Connect a GitHub repository before adding work plans"
  connector_id ←
      require project.github_connector_id 422 "Connect a GitHub repository before adding work plans"
  validate_parents t project.id plan_id body.depends_on
  let p = new_plan body request_digest project.id repository connector_id plan_id
  ok (registered t p body.items, p)

abbrev pub register_or_find :
    Store
    → Project
    → PlanWrite
    → (request_digest plan_id : ℕ) → Option WorkPlan
    → Result (Store × WorkPlan)
register_or_find t project body request_digest plan_id (some p) =
    raise_if (not (opt_is p.registration_digest request_digest)) 409
      "Registration request ID was already used for different work"
    >> ok (t, p)
register_or_find t project body request_digest plan_id none =
    register_new t project body request_digest plan_id

abbrev pub ready_unless_draft : PlanWrite → Result (Unit {0})
ready_unless_draft body =
    let ready = require_ready body.items in if is_draft body.state then ok tt else ready

-- `WorkPlanService.create`.
unfoldable pub create :
    (digest : PlanWrite → ℕ)
    → Store
    → Project
    → PlanWrite
    → (plan_id : ℕ) → Result (Store × WorkPlan)
create digest t project body plan_id =
    ready_unless_draft body
    >> register_or_find t project body (digest body) plan_id (existing t project.id body.request_id)
