-- ===== src/Plans/Register/Ranked.antt =====
-- work_plans/services.py, `create`: the dependencies between the plans of a project.
use autohub.Base.{
  ℕ, ◌≡◌, refl, false, not, Bool-cases, inl, inr, Option, some, none, List, [], ◌∷◌, ok, Returns,
  Returns-bind, Returns-guard, Returns-then, returned, require, ◌==◌, ==_refl, opt_is,
}
use autohub.Plans.Graph.{Node, has, keys}
use autohub.Plans.Graph.Order.{IsDict, IsRanked}
use autohub.Plans.Graph.Verdict.{validate_graph-IsRanked}
use autohub.Plans.Model.{WorkPlan, WorkItemWrite, Project, Store}
use autohub.Plans.Control.{plan_graph, with_node, validate_parents}
use autohub.Plans.Control.Resumed.{with_node-IsDict}
use autohub.Plans.Register.{
  PlanWrite, create, register_or_find, existing, ready_unless_draft, registered, new_plan,
}

-- The plans of a project are different and can be ranked by their dependencies.
abbrev pub IsOrdered : Store → (project_id : ℕ) → Type 0
IsOrdered t project_id =
    IsDict (plan_graph t project_id) × ((rank : ℕ → ℕ) × IsRanked rank (plan_graph t project_id))

-- A new key stands first or last.
new_first :
    (rank : ℕ → ℕ) (key : ℕ) (parents : List ℕ) (graph : List Node)
    → has key (keys graph) ≡ false
    → IsRanked rank (with_node key parents graph)
    → IsRanked rank ((key, parents) ∷ graph)
new_first rank key parents [] new h = h
new_first rank key parents ((k, ps) ∷ rest) new h = elim (Bool-cases (k == key)) [
  | inl here ↦ let known = rw here at new in cc
  | inr other ↦
      let both = rw other at h in
      let later = new_first rank key parents rest (rw other at new) both.1 in
      (later.0, (both.0, later.1))
]

registered-IsOrdered :
    (t : Store) (project_id : ℕ) (p : WorkPlan) (items : List WorkItemWrite)
    → p.project_id ≡ project_id
    → IsDict (plan_graph t project_id)
    → has p.id (keys (plan_graph t project_id)) ≡ false
    → validate_parents t project_id p.id p.depends_on ≡ ok tt
    → IsOrdered (registered t p items) project_id
unfolding validate_parents
registered-IsOrdered t project_id p items mine dict new h =
    let valid =
      (validate_graph-IsRanked _
          (with_node-IsDict p.id p.depends_on (plan_graph t project_id) dict)).0
        h in
    let (rank, ranked) = valid.1 in
    rw (mine, ==_refl project_id)
      ((new, dict), (rank, new_first rank p.id p.depends_on (plan_graph t project_id) new ranked))

-- Registering a plan under a new id, or finding the one that its request registered, keeps that the
-- plans of the project are different and can be ranked so that each comes after those it depends on.
pub create-IsOrdered :
    (digest : PlanWrite → ℕ) (t : Store) (project : Project) (body : PlanWrite) (plan_id : ℕ)
    (out : Store × WorkPlan)
    → create digest t project body plan_id ≡ ok out
    → IsOrdered t project.id
    → has plan_id (keys (plan_graph t project.id)) ≡ false
    → IsOrdered out.0 project.id
unfolding create
create-IsOrdered digest t project body plan_id out h ordered new =
    returned P _
      (Returns-then P (ready_unless_draft body) _
        (λ _. found (existing t project.id body.request_id)))
      h
  where
    P : Store × WorkPlan → Type 0
    P made = IsOrdered made.0 project.id

    found :
        (prior : Option WorkPlan)
        → Returns P (register_or_find t project body (digest body) plan_id prior)
    found (some p) =
        Returns-guard P (not (opt_is p.registration_digest (digest body))) 409
          "Registration request ID was already used for different work" (ok (t, p)) (λ _. ordered)
    found none =
        Returns-bind P
          (require project.github_repository 422
            "Connect a GitHub repository before adding work plans")
          _
          (λ repository _.
            Returns-bind P
              (require project.github_connector_id 422
                "Connect a GitHub repository before adding work plans")
              _
              (λ connector _.
                Returns-then P (validate_parents t project.id plan_id body.depends_on) _ (λ valid.
                  registered-IsOrdered t project.id
                    (new_plan body (digest body) project.id repository connector plan_id) body.items
                    refl ordered.0 new valid)))
