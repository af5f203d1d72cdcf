-- ===== src/Tests/Plans.antt =====
-- Two plans of a project, the second behind the first, with two items.
use autohub.Base.{
  arith, ℕ, ◌≡◌, ◌↔◌, ◌⊎◌, refl, true, some, none, List, [], ◌∷◌, ok, raise, project_error,
}
use autohub.Plans.Graph.{Node, keys, validate_graph}
use autohub.Plans.Graph.Order.{IsClosed, IsRanked}
use autohub.Plans.Graph.Verdict
use autohub.Plans.Model.{
  WorkPlan, WorkItemWrite, WorkItem, Project, Store, active, paused, revoked, item_waiting,
}
use autohub.Plans.Control.{
  control, complete_plan, validate_parents, find_plan, resume, pause, revoke,
}
use autohub.Plans.Control.Resumed
use autohub.Plans.Control.Resumed.{IsSentOn}
use autohub.Plans.Control.Final
use autohub.Plans.Register.{PlanWrite, create}
use autohub.Plans.Register.Ranked
use autohub.Plans.Register.Ranked.{IsOrdered}
use autohub.Plans.Control.Final.{PlanEvent, controls, completes, plan_event, plan_events}

program : Unit {0}
unfolding validate_graph validate_parents control create complete_plan plan_event plan_events
program = tt

abbrev graph : List Node
graph = (1, 3 ∷ []) ∷ (2, 1 ∷ 3 ∷ []) ∷ (3, []) ∷ []

validate_graph-IsRanked_example :
    (validate_graph graph ≡ ok tt)
    ↔ (IsClosed (keys graph) graph × ((rank : ℕ → ℕ) × IsRanked rank graph))
unfolding program
validate_graph-IsRanked_example = Verdict.validate_graph-IsRanked graph (refl, (refl, (refl, tt)))

graph_accepted : validate_graph graph ≡ ok tt
unfolding program
graph_accepted = refl

abbrev circle : List Node
circle = (1, 2 ∷ []) ∷ (2, 1 ∷ []) ∷ (3, []) ∷ []

circle_refused :
    validate_graph circle
    ≡ raise (project_error 422 "Dependencies must not contain cycles or self references")
unfolding program
circle_refused = refl

validate_graph-ends_example :
    (validate_graph circle ≡ ok tt)
    ⊎ ((validate_graph circle
          ≡ raise (project_error 422 "Dependency target does not exist in this scope"))
        ⊎ (validate_graph circle
            ≡ raise (project_error 422 "Dependencies must not contain cycles or self references")))
unfolding program
validate_graph-ends_example = Verdict.validate_graph-ends circle

abbrev write : ℕ → List ℕ → WorkItemWrite
write key parents = record {
  key = key;
  has_title = true;
  has_description = true;
  has_acceptance = true;
  attach_branch = none;
  depends_on = parents;
}

abbrev item : ℕ → List ℕ → WorkItem
item key parents = record {
  plan_id = 2;
  spec = write key parents;
  state = item_waiting;
  started_at = none;
  completed_at = none;
}

abbrev first_plan : WorkPlan
first_plan = record {
  id = 1;
  project_id = 7;
  registration_request_id = none;
  registration_digest = none;
  group_key = none;
  base_branch = 1;
  repository = 8;
  connector_id = 9;
  scheduled_at = none;
  state = revoked;
  revision = 4;
  completed_at = none;
  depends_on = [];
}

abbrev second_plan : WorkPlan
second_plan = record first_plan { id = 2; state = paused; revision = 1; depends_on = 1 ∷ [] }

abbrev store : Store
store = record { plans = first_plan ∷ second_plan ∷ []; items = item 5 (6 ∷ []) ∷ item 6 [] ∷ [] }

abbrev project : Project
project = record { id = 7; github_repository = some 8; github_connector_id = some 9 }

abbrev resumed : Store
resumed = record store {
  plans = first_plan ∷ record second_plan { state = active; revision = 2 } ∷ [];
}

control-IsSentOn_example : (p : WorkPlan) × IsSentOn store project 2 1 resume resumed p
unfolding program
control-IsSentOn_example =
    Resumed.control-IsSentOn store project 2 1 resume resumed refl refl (refl, (refl, tt))
      (refl, (refl, tt))

abbrev attempts : List PlanEvent
attempts =
    controls project 1 4 resume
    ∷ controls project 2 1 resume
    ∷ completes 1 50
    ∷ controls project 2 2 pause
    ∷ controls project 1 5 revoke
    ∷ []

plan_events_keep_example : find_plan 1 (plan_events store attempts).plans ≡ some first_plan
unfolding program
plan_events_keep_example = Final.plan_events_keep store 1 first_plan attempts refl refl

abbrev body : PlanWrite
body = record {
  request_id = some 30;
  state = active;
  group_key = none;
  base_branch = 1;
  scheduled_at = none;
  depends_on = 2 ∷ [];
  items = write 5 [] ∷ [];
}

abbrev third_plan : WorkPlan
third_plan = record {
  id = 3;
  project_id = 7;
  registration_request_id = some 30;
  registration_digest = some 40;
  group_key = none;
  base_branch = 1;
  repository = 8;
  connector_id = 9;
  scheduled_at = none;
  state = active;
  revision = 1;
  completed_at = none;
  depends_on = 2 ∷ [];
}

abbrev registered_store : Store
registered_store = record {
  plans = third_plan ∷ first_plan ∷ second_plan ∷ [];
  items = record (item 5 []) { plan_id = 3 } ∷ item 5 (6 ∷ []) ∷ item 6 [] ∷ [];
}

create-IsOrdered_example : IsOrdered registered_store 7
unfolding program
create-IsOrdered_example =
    Ranked.create-IsOrdered (λ b. 40) store project body 3 (registered_store, third_plan) refl
      ((refl, (refl, tt)), ((λ k. k), (tt, ((omega arith, tt), tt)))) refl
