-- ===== src/Plans/Control/Resumed.antt =====
-- work_plans/services.py, `control`: what a plan has that an operator sends on.
use autohub.Base.{
  ℕ, suc, ◌≡◌, refl, ap, sym, subst, Bool, true, false, not, ◌||◌, Bool-cases, inl, inr, Option,
  some, none, List, [], ◌∷◌, Result, ok, raise, require, raise_if, raise_if_passed, bind_returned,
  ok_injective, ◌>>=◌, ◌>>◌, ◌==◌, ==_refl, ==_iff, first_sat, if-both, any, All, arith, String,
}
use autohub.Plans.Graph.{Node, has, keys}
use autohub.Plans.Graph.Order.{IsDict, IsRanked}
use autohub.Plans.Graph.Verdict.{validate_graph-IsRanked}
use autohub.Plans.Model.{WorkPlan, WorkItemWrite, Project, Store}
use autohub.Plans.Control.{
  find_plan, put_plan, get_plan, plan_graph, with_node, validate_parents, is_specified, is_nil,
  require_ready, item_graph, PlanAction, is_allowed, next_state, needs_ready, is_over, writes_of,
  check_ready, check_action, validated, snapshot, controlled, control,
}

first-put_plan :
    (p q : WorkPlan) (plans : List WorkPlan) (id : ℕ)
    → find_plan id plans ≡ some q
    → p.id ≡ id
    → find_plan id (put_plan p plans) ≡ some p
first-put_plan p q [] id h e = cc
first-put_plan p q (r ∷ rs) id h e = elim (Bool-cases (r.id == p.id)) [
  | inl here ↦ rw (here, e, ==_refl id) refl
  | inr other ↦ rw (other, rw e at other) (first-put_plan p q rs id (rw (rw e at other) at h) e)
]

then_passed :
    {B : Type 0} (step : Result (Unit {0})) (rest : Result B) {b : B}
    → (step >> rest) ≡ ok b
    → (step ≡ ok tt) × (rest ≡ ok b)
then_passed (ok _) rest h = (refl, h)
then_passed (raise e) rest h = cc

validated_passed : (step : Result (Unit {0})) → validated step ≡ ok tt → step ≡ ok tt
validated_passed (ok _) h = refl
validated_passed (raise e) h = cc

raise_if_ok :
    (test : Bool) (status : ℕ) (detail : String)
    → raise_if test status detail ≡ ok tt
    → test ≡ false
raise_if_ok true status detail h = cc
raise_if_ok false status detail h = refl

specified :
    (writes : List WorkItemWrite)
    → any (λ w. not (is_specified w)) writes ≡ false
    → All (λ w. is_specified w ≡ true) writes
specified [] h = tt
specified (w ∷ ws) h = let later = specified ws (ground (arith, h)) in (ground (arith, h), later)

-- What an accepted control has checked and done.
abbrev pub IsSentOn : Store → Project → ℕ → ℕ → PlanAction → Store → WorkPlan → Type 0
IsSentOn t project plan_id expected action after p =
    (find_plan plan_id t.plans ≡ some p)
    × (p.revision ≡ expected)
    × (is_allowed p.state action ≡ true)
    × (find_plan plan_id after.plans
        ≡ some (record p { state = next_state action; revision = suc p.revision }))
    × (is_nil (writes_of t plan_id) ≡ false)
    × All (λ w. is_specified w ≡ true) (writes_of t plan_id)
    × ((rank : ℕ → ℕ) × IsRanked rank (item_graph (writes_of t plan_id)))
    × ((rank : ℕ → ℕ) × IsRanked rank (with_node plan_id p.depends_on (plan_graph t project.id)))

with_node_key :
    (k key : ℕ) (parents : List ℕ) (graph : List Node)
    → has k (keys graph) ≡ false
    → (key == k) ≡ false
    → has k (keys (with_node key parents graph)) ≡ false
with_node_key k key parents [] h ne = rw ne refl
with_node_key k key parents ((j, ps) ∷ rest) h ne =
    let later = with_node_key k key parents rest in ground (arith, h, ne, later)

pub with_node-IsDict :
    (key : ℕ) (parents : List ℕ) (graph : List Node)
    → IsDict graph
    → IsDict (with_node key parents graph)
with_node-IsDict key parents [] h = (refl, tt)
with_node-IsDict key parents ((k, ps) ∷ rest) h =
    if-both IsDict (k == key) ((key, parents) ∷ rest) ((k, ps) ∷ with_node key parents rest)
      (λ here. (subst (λ j. has j (keys rest) ≡ false) ((==_iff k key).0 here) h.0, h.1))
      (λ other. (
        with_node_key k key parents rest h.0 (flip_test other),
        with_node-IsDict key parents rest h.1,
      ))
  where
    flip_test : (k == key) ≡ false → (key == k) ≡ false
    flip_test e = ground (arith, e)

pub get_plan-found :
    (t : Store) (project_id plan_id : ℕ) (p : WorkPlan)
    → get_plan t project_id plan_id ≡ ok p
    → find_plan plan_id t.plans ≡ some p
get_plan-found t project_id plan_id p h = found (find_plan plan_id t.plans) h
  where
    found :
        (o : Option WorkPlan)
        → (require o 404 "Work plan not found" >>= λ q.
            raise_if (not (q.project_id == project_id)) 404 "Work plan not found" >> ok q)
          ≡ ok p
        → o ≡ some p
    found none e = cc
    found (some q) e =
        let mine =
          raise_if_passed (not (q.project_id == project_id)) 404 "Work plan not found" (ok q) e in
        ap some (ok_injective mine.1)

-- The checks of `check_ready`, as what they establish.
ready_checked :
    (t : Store) (project : Project) (p : WorkPlan)
    → check_ready t project p ≡ ok tt
    → snapshot t p ≡ ok tt
    → IsDict (item_graph (writes_of t p.id))
    → IsDict (plan_graph t project.id)
    → (is_nil (writes_of t p.id) ≡ false)
      × All (λ w. is_specified w ≡ true) (writes_of t p.id)
      × ((rank : ℕ → ℕ) × IsRanked rank (item_graph (writes_of t p.id)))
      × ((rank : ℕ → ℕ) × IsRanked rank (with_node p.id p.depends_on (plan_graph t project.id)))
unfolding validate_parents
ready_checked t project p h valid items plans =
    let connected =
      raise_if_passed _ 409 "Repository connection changed; restore it or register a new plan" _
        h in
    let ready = then_passed (require_ready (writes_of t p.id)) _ connected.1 in
    let written =
      raise_if_ok (is_nil (writes_of t p.id) || any (λ w. not (is_specified w)) (writes_of t p.id))
        422 _ ready.0 in
    (
      or_left _ _ written,
      specified (writes_of t p.id) (or_right _ _ written),
      ((validate_graph-IsRanked _ items).0 (validated_passed _ valid)).1,
      ((validate_graph-IsRanked _
            (with_node-IsDict p.id p.depends_on (plan_graph t project.id) plans)).0
          ready.1).1,
    )
  where
    or_left : (a b : Bool) → (a || b) ≡ false → a ≡ false
    or_left a b e = ground arith

    or_right : (a b : Bool) → (a || b) ≡ false → b ≡ false
    or_right a b e = ground arith

sent_on :
    (t : Store) (project : Project) (p : WorkPlan) (expected : ℕ) (action : PlanAction)
    (after : Store)
    → find_plan p.id t.plans ≡ some p
    → (raise_if (not (p.revision == expected)) 409 "Work plan changed; reload before modifying it"
        >> (raise_if (is_over p.state) 409 "Completed or revoked plans cannot be controlled"
            >> (raise_if (not (is_allowed p.state action)) 409 "Cannot do this to the plan"
                >> (snapshot t p
                    >> (check_action t project p action >> ok (controlled t p action))))))
      ≡ ok after
    → needs_ready action ≡ true
    → IsDict (item_graph (writes_of t p.id))
    → IsDict (plan_graph t project.id)
    → IsSentOn t project p.id expected action after p
sent_on t project p expected action after found h ready items plans =
    let shown =
      raise_if_passed (not (p.revision == expected)) 409
        "Work plan changed; reload before modifying it" _ h in
    let open_plan =
      raise_if_passed (is_over p.state) 409 "Completed or revoked plans cannot be controlled" _
        shown.1 in
    let allowed =
      raise_if_passed (not (is_allowed p.state action)) 409 "Cannot do this to the plan" _
        open_plan.1 in
    let stored = then_passed (snapshot t p) _ allowed.1 in
    let checked = then_passed (check_action t project p action) _ stored.1 in
    let facts = ready_checked t project p (rw ready at checked.0) stored.0 items plans in
    subst (λ s. IsSentOn t project p.id expected action s p) (ok_injective checked.1)
      (
        found,
        (same_number p.revision expected shown.0),
        not_false (is_allowed p.state action) allowed.0,
        first-put_plan _ p t.plans p.id found refl,
        facts.0,
        facts.1,
        facts.2,
        facts.3,
      )
  where
    same_number : (m n : ℕ) → not (m == n) ≡ false → m ≡ n
    same_number m n e = ground arith

    not_false : (b : Bool) → not b ≡ false → b ≡ true
    not_false b e = ground arith

-- A plan that is accepted as proposed, ready or resumed was found at the revision that the operator
-- saw, in a state that allows it, and moves on by one revision. It has items, each with title,
-- specification and acceptance; its items, and the plans of its project, can be ranked so that each
-- comes after those it depends on. (The keys of the items, and the plans' ids, are different.)
pub control-IsSentOn :
    (t : Store) (project : Project) (plan_id expected : ℕ) (action : PlanAction) (after : Store)
    → control t project plan_id expected action ≡ ok after
    → needs_ready action ≡ true
    → IsDict (item_graph (writes_of t plan_id))
    → IsDict (plan_graph t project.id)
    → (p : WorkPlan) × IsSentOn t project plan_id expected action after p
unfolding control
control-IsSentOn t project plan_id expected action after h ready items plans =
    let (p, got, rest) = bind_returned (get_plan t project.id plan_id) _ h in
    let found = get_plan-found t project.id plan_id p got in
    let same = (==_iff p.id plan_id).0 (first_sat (λ q. q.id == plan_id) t.plans p found) in
    (
      p,
      subst (λ k. IsSentOn t project k expected action after p) same
          (sent_on t project p expected action after (rw (sym same) at found) rest ready
            (rw (sym same) at items) plans),
    )
