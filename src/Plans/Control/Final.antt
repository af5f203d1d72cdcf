-- ===== src/Plans/Control/Final.antt =====
-- work_plans/services.py and execution.py: any sequence of controls and completions.
use autohub.Base.{
  ℕ, ◌≡◌, ◌≢◌, refl, sym, ◌∙◌, subst, Bool, true, false, not, ◌&&◌, Option, some, none, List, [],
  ◌∷◌, Result, ok, raise, if-both, ◌==◌, ==_iff, first_sat, arith, some_injective, ℕ_discrete,
  Returns, Returns-bind, Returns-guard, Returns-then,
}
use autohub.Plans.Model.{WorkPlan, Project, Store, PlanState}
use autohub.Plans.Control.Resumed.{get_plan-found}
use autohub.Plans.Control.{
  snapshot, find_plan, put_plan, get_plan, PlanAction, is_allowed, is_over, can_complete,
  check_action, control, complete_plan, is_finished, completed_plan,
}

pub data PlanEvent : Type 0 where
  controls : Project → (plan_id expected : ℕ) → PlanAction → PlanEvent
  completes : (plan_id now : ℕ) → PlanEvent

abbrev pub kept_or : Store → Result Store → Store
kept_or t (raise e) = t
kept_or t (ok after) = after

abbrev pub complete_found : Store → Option WorkPlan → (now : ℕ) → Store
complete_found t none now = t
complete_found t (some p) now = complete_plan t p now

unfoldable pub plan_event : Store → PlanEvent → Store
plan_event t (controls project plan_id expected action) =
    kept_or t (control t project plan_id expected action)
plan_event t (completes plan_id now) = complete_found t (find_plan plan_id t.plans) now

unfoldable pub plan_events : Store → List PlanEvent → Store
plan_events t [] = t
plan_events t (e ∷ es) = plan_events (plan_event t e) es

find-put_ne :
    (p : WorkPlan) (plans : List WorkPlan) (id : ℕ)
    → p.id ≢ id
    → find_plan id (put_plan p plans) ≡ find_plan id plans
find-put_ne p [] id ne = refl
find-put_ne p (q ∷ qs) id ne = let later = find-put_ne p qs id ne in ground (arith, later, ne)

find-id : (id : ℕ) (plans : List WorkPlan) (p : WorkPlan) → find_plan id plans ≡ some p → p.id ≡ id
find-id id plans p h = (==_iff p.id id).0 (first_sat (λ q. q.id == id) plans p h)

completes-going : (s : PlanState) (b : Bool) → (can_complete s && b) ≡ true → is_over s ≡ false
completes-going s b h = ground arith

module _ (id : ℕ) (p : WorkPlan) (over : is_over p.state ≡ true) where
  -- An update of another plan, or of this one where it is not over.
  put_keeps :
      (t : Store) (q r : WorkPlan)
      → find_plan id t.plans ≡ some p
      → find_plan q.id t.plans ≡ some q
      → is_over q.state ≡ false
      → r.id ≡ q.id
      → find_plan id (put_plan r t.plans) ≡ some p
  put_keeps t q r h found going same = elim (ℕ_discrete q.id id) [
    | yes e ↦
        let here : q ≡ p =
          some_injective (sym (subst (λ k. find_plan k t.plans ≡ some q) e found) ∙ h) in
        let not_over : is_over p.state ≡ false = rw here at going in cc
    | no ne ↦ find-put_ne r t.plans id (λ e. ne (sym same ∙ e)) ∙ h
  ]

  control_keeps :
      (t : Store) (project : Project) (plan_id expected : ℕ) (action : PlanAction)
      → find_plan id t.plans ≡ some p
      → Returns
          (λ (after : Store). find_plan id after.plans ≡ some p)
          (control t project plan_id expected action)
  unfolding control
  control_keeps t project plan_id expected action h =
      let P = λ (after : Store). find_plan id after.plans ≡ some p in
      Returns-bind P (get_plan t project.id plan_id) _ (λ q got.
        let found = get_plan-found t project.id plan_id q got in
        Returns-guard P (not (q.revision == expected)) 409
          "Work plan changed; reload before modifying it" _
          (λ _.
            Returns-guard P (is_over q.state) 409 "Completed or revoked plans cannot be controlled"
              _
              (λ going.
                Returns-guard P (not (is_allowed q.state action)) 409 "Cannot do this to the plan" _
                  (λ _. Returns-then P (snapshot t q) _ (λ _.
                    Returns-then P (check_action t project q action) _ (λ _.
                      put_keeps t q _ h
                        (subst (λ k. find_plan k t.plans ≡ some q)
                          (sym (find-id plan_id t.plans q found)) found)
                        going refl))))))

  complete_keeps :
      (t : Store) (plan_id now : ℕ) (found : Option WorkPlan)
      → find_plan plan_id t.plans ≡ found
      → find_plan id t.plans ≡ some p
      → find_plan id (complete_found t found now).plans ≡ some p
  unfolding complete_plan
  complete_keeps t plan_id now none at_id h = h
  complete_keeps t plan_id now (some q) at_id h =
      if-both (λ (after : Store). find_plan id after.plans ≡ some p) (is_finished t q)
        (record t { plans = put_plan (completed_plan q now) t.plans }) t
        (λ ready.
          put_keeps t q (completed_plan q now) h
            (subst (λ k. find_plan k t.plans ≡ some q) (sym (find-id plan_id t.plans q at_id))
              at_id)
            (completes-going q.state _ ready) refl)
        (λ other. h)

  plan_event_keeps :
      (t : Store) (e : PlanEvent)
      → find_plan id t.plans ≡ some p
      → find_plan id (plan_event t e).plans ≡ some p
  unfolding plan_event
  plan_event_keeps t (controls project plan_id expected action) h =
      kept t (control t project plan_id expected action) h
        (control_keeps t project plan_id expected action h)
    where
      kept :
          (u : Store) (out : Result Store)
          → find_plan id u.plans ≡ some p
          → Returns (λ (after : Store). find_plan id after.plans ≡ some p) out
          → find_plan id (kept_or u out).plans ≡ some p
      kept u (raise e) k r = k
      kept u (ok after) k r = r
  plan_event_keeps t (completes plan_id now) h =
      complete_keeps t plan_id now (find_plan plan_id t.plans) refl h

-- A plan that is completed or revoked stays exactly as it is through any further controls and
-- completions, of it and of other plans.
pub plan_events_keep :
    (t : Store) (id : ℕ) (p : WorkPlan) (es : List PlanEvent)
    → find_plan id t.plans ≡ some p
    → is_over p.state ≡ true
    → find_plan id (plan_events t es).plans ≡ some p
unfolding plan_events
plan_events_keep t id p [] h over = h
plan_events_keep t id p (e ∷ es) h over =
    plan_events_keep (plan_event t e) id p es (plan_event_keeps id p over t e h) over
