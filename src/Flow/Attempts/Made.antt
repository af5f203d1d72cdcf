-- ===== src/Flow/Attempts/Made.antt =====
-- The transactions of flows/runtime.py: the attempts and the counts that they leave.
use autohub.Base.{
  ℕ, zero, suc, ◌≡◌, refl, sym, subst, ◌∙◌, ◌⊎◌, inl, inr, ap, Bool, if-both, Returns, returned,
  Returns-bind, Option, some, none, List, [], ◌∷◌, arith, String, Result, ok, raise, require,
  get_elem?, ◌==◌, first, first_sat, map, leb, length, Bool-cases,
}
use autohub.Flow.Model.{
  Value, Flow, FlowStep, FlowAttempt, StepSpec, task_step, approval_step, TaskStep,
}
use autohub.Flow.Contract.{Contract, contract, row_with, resolve_all}
use autohub.Flow.Runtime.{
  WorkerAction, WorkerResult, WorkerStatus, pending, worker_completed, worker_failed,
  worker_canceled, not_found, bump, is_active, is_canceling, is_queued, put_at, put_attempt, plan,
  plan_at, plan_end, plan_queued, plan_existing, await, deadline_of, try_inputs, start_attempt,
}
use autohub.Flow.Results.{
  apply, apply_result, apply_status, apply_canceling, apply_completed, settle_completed,
}
use autohub.Flow.Commands.{reset_from}
use autohub.Flow.Rows.{map-put_at, map-put_at_same}
use autohub.Flow.Attempts.{tallied, tally, owners}

-- The attempts and the counts are as before.
abbrev pub IsKept : Flow → Flow → Type 0
IsKept f h = (tally h ≡ tally f) × (owners h ≡ owners f)

-- The current row has one attempt more, and counts it.
abbrev pub IsTried : Flow → Flow → Type 0
IsTried f h =
    (r : FlowStep) × (get_elem? f.steps f.run.step_index ≡ some r)
    × (tally h ≡ put_at f.run.step_index (r.id, suc r.attempt_count) (tally f))
    × (owners h ≡ r.id ∷ owners f)

abbrev pub IsMade : Flow → Flow → Type 0
IsMade f h = IsKept f h ⊎ IsTried f h

some_eq {ℓ} : {A : Type ℓ} {x y : A} → some x ≡ some y → x ≡ y
some_eq e = cc

put_attempt-owners :
    (a b : FlowAttempt) (items : List FlowAttempt)
    → first (λ x. x.id == b.id) items ≡ some a
    → b.step_id ≡ a.step_id
    → map (λ x. x.step_id) (put_attempt b items) ≡ map (λ x. x.step_id) items
put_attempt-owners a b [] found own = refl
put_attempt-owners a b (x ∷ items) found own = elim (Bool-cases (x.id == b.id)) [
  | inl here ↦
      let it : x ≡ a = some_eq (rw here at found) in
      rw here (ap (λ k. k ∷ map (λ y. y.step_id) items) (own ∙ ap (λ y. y.step_id) (sym it)))
  | inr other ↦
      rw other (ap (λ l. x.step_id ∷ l) (put_attempt-owners a b items (rw other at found) own))
]

pub map-reset_from-tallied :
    (i : ℕ) (rows : List FlowStep) → map tallied (reset_from i rows) ≡ map tallied rows
map-reset_from-tallied i [] = refl
map-reset_from-tallied zero (r ∷ rs) = ap (λ l. tallied r ∷ l) (map-reset_from-tallied zero rs)
map-reset_from-tallied (suc i) (r ∷ rs) = ap (λ l. tallied r ∷ l) (map-reset_from-tallied i rs)

-- A change of the current row, that keeps its id and its count.
module _ (f : Flow) (r : FlowStep) (at_r : get_elem? f.steps f.run.step_index ≡ some r) where
  pub row-tally :
      (row : FlowStep)
      → tallied row ≡ tallied r
      → map tallied (put_at f.run.step_index row f.steps) ≡ tally f
  row-tally row same = map-put_at_same tallied f.run.step_index row r f.steps at_r same

  await-IsKept :
      (row : FlowStep) (deadline now : ℕ)
      → tallied row ≡ tallied r
      → IsKept f (await f row deadline now)
  await-IsKept row deadline now same =
      if-both (IsKept f) (leb deadline now) _ _ (λ late. (row-tally _ same, refl))
        (λ early. (row-tally _ same, refl))

  start_attempt-IsTried :
      (spec : TaskStep) (fresh : ℕ) (inputs : List (ℕ × Value)) (error : Option String)
      → IsTried f
          (start_attempt f
            (record r { attempt_count = suc r.attempt_count })
            spec
            fresh
            inputs
            error).0
  start_attempt-IsTried spec fresh inputs none =
      (r, at_r, map-put_at tallied f.run.step_index _ f.steps, refl)
  start_attempt-IsTried spec fresh inputs (some e) =
      (r, at_r, map-put_at tallied f.run.step_index _ f.steps, refl)

  plan_queued-IsMade :
      (valid : ℕ → Value → Bool) (spec : TaskStep) (fresh : ℕ)
      → Returns (λ o. IsMade f o.0) (plan_queued valid f r spec fresh)
  plan_queued-IsMade valid spec fresh =
      if-both (Returns (λ (o : Flow × Option WorkerAction). IsMade f o.0))
        (leb spec.max_attempts r.attempt_count) _ _ (λ full. inl (row-tally _ refl, refl))
        (λ room.
          Returns-bind (λ (o : Flow × Option WorkerAction). IsMade f o.0)
            (try_inputs valid f spec (
              resolve_all spec.inputs f.run (
                put_at f.run.step_index (record r { attempt_count = suc r.attempt_count })
                  f.steps)))
            (λ (inputs, error). ok (
              start_attempt f (record r { attempt_count = suc r.attempt_count }) spec fresh inputs
                error))
            (λ x _. inr (start_attempt-IsTried spec fresh x.0 x.1)))

plan_existing-IsMade :
    (f : Flow) (spec : TaskStep) (a : Option FlowAttempt)
    → Returns (λ o. IsMade f o.0) (plan_existing f spec a)
plan_existing-IsMade f spec none = tt
plan_existing-IsMade f spec (some a) = inl (refl, refl)

plan_at-IsMade :
    (valid : ℕ → Value → Bool) (f : Flow) (fresh now : ℕ) (row : Option FlowStep)
    (spec : Option StepSpec)
    → get_elem? f.steps f.run.step_index ≡ row
    → Returns (λ o. IsMade f o.0) (plan_at valid f fresh now row spec)
plan_at-IsMade valid f fresh now (some row) (some (approval_step spec)) at_r =
    let deadline = deadline_of row spec now row.deadline in
    inl (await-IsKept f row at_r (record row { deadline = some deadline }) deadline now refl)
plan_at-IsMade valid f fresh now (some row) (some (task_step spec)) at_r =
    if-both (Returns (λ (o : Flow × Option WorkerAction). IsMade f o.0)) (is_queued row.status) _ _
      (λ _. plan_queued-IsMade f row at_r valid spec fresh) (λ _. plan_existing-IsMade f spec _)
plan_at-IsMade valid f fresh now none spec at_r = tt
plan_at-IsMade valid f fresh now (some row) none at_r = tt

plan_end-IsKept :
    (valid : ℕ → Value → Bool) (c : Contract) (f : Flow) → Returns (IsKept f) (plan_end valid c f)
plan_end-IsKept valid c f =
    Returns-bind (IsKept f) (row_with c.result_step f.steps) _ (λ row _. (refl, refl))

pub plan-IsMade :
    (valid : ℕ → Value → Bool) (f : Flow) (fresh now : ℕ)
    → Returns (λ o. IsMade f o.0) (plan valid f fresh now)
unfolding plan
plan-IsMade valid f fresh now =
    Returns-bind (λ (o : Flow × Option WorkerAction). IsMade f o.0) (contract f.run) _
      (λ c _.
        if-both (Returns (λ (o : Flow × Option WorkerAction). IsMade f o.0))
          (is_active f.run.status) _ _
          (λ _.
            let g = record f { run = bump f.run } in
            if-both (Returns (λ (o : Flow × Option WorkerAction). IsMade f o.0))
              (leb (length g.steps) g.run.step_index) _ _
              (λ _.
                Returns-bind (λ (o : Flow × Option WorkerAction). IsMade f o.0) (plan_end valid c g)
                  _ (λ h e. inl (returned (IsKept f) _ (plan_end-IsKept valid c g) e)))
              (λ _. plan_at-IsMade valid g fresh now _ _ refl))
          (λ _. inl (refl, refl)))

-- A worker's result.
module _ (f : Flow) (r : FlowStep) (at_r : get_elem? f.steps f.run.step_index ≡ some r) (key : ℕ)
    (a : FlowAttempt) (found : first (λ x. x.id == key) f.attempts ≡ some a) where
  found_id : a.id ≡ key
  found_id = let it = first_sat (λ x. x.id == key) f.attempts a found in ground (arith, it)

  kept_owners :
      (b : FlowAttempt)
      → b.id ≡ a.id
      → b.step_id ≡ a.step_id
      → map (λ x. x.step_id) (put_attempt b f.attempts) ≡ owners f
  kept_owners b id own =
      put_attempt-owners a b f.attempts
        (subst (λ k. first (λ x. x.id == k) f.attempts ≡ some a) (sym (id ∙ found_id)) found) own

  settled-IsKept :
      (row : FlowStep) (b : FlowAttempt)
      → tallied row ≡ tallied r
      → b.id ≡ a.id
      → b.step_id ≡ a.step_id
      → (map tallied (put_at f.run.step_index row f.steps) ≡ tally f)
        × (map (λ x. x.step_id) (put_attempt b f.attempts) ≡ owners f)
  settled-IsKept row b same id own = (row-tally f r at_r row same, kept_owners b id own)

  canceling-IsKept :
      (status : WorkerStatus) (result : WorkerResult) (now : ℕ)
      → IsKept f (apply_canceling f r a status result now)
  canceling-IsKept worker_canceled result now = settled-IsKept _ _ refl refl refl
  canceling-IsKept worker_completed result now = settled-IsKept _ _ refl refl refl
  canceling-IsKept worker_failed result now = settled-IsKept _ _ refl refl refl
  canceling-IsKept pending result now = (refl, refl)
  canceling-IsKept not_found result now = (refl, refl)

  completed-IsKept :
      (output : Option Value) (now : ℕ) (checked : Result (Unit {0}))
      → IsKept f (settle_completed f r a output now checked)
  completed-IsKept output now (raise e) = settled-IsKept _ _ refl refl refl
  completed-IsKept output now (ok _) = settled-IsKept _ _ refl refl refl

  apply_completed-IsKept :
      (valid : ℕ → Value → Bool) (spec : Option StepSpec) (result : WorkerResult) (now : ℕ)
      → Returns (IsKept f) (apply_completed valid spec f r a result now)
  apply_completed-IsKept valid none result now = tt
  apply_completed-IsKept valid (some (approval_step s)) result now = tt
  apply_completed-IsKept valid (some (task_step s)) result now =
      completed-IsKept result.output now _

  status-IsKept :
      (valid : ℕ → Value → Bool) (spec : Option StepSpec) (status : WorkerStatus)
      (result : WorkerResult) (now : ℕ)
      → Returns (IsKept f) (apply_status valid spec f r a status result now)
  status-IsKept valid spec not_found result now = settled-IsKept _ _ refl refl refl
  status-IsKept valid spec pending result now = (refl, kept_owners _ refl refl)
  status-IsKept valid spec worker_failed result now = settled-IsKept _ _ refl refl refl
  status-IsKept valid spec worker_canceled result now = settled-IsKept _ _ refl refl refl
  status-IsKept valid spec worker_completed result now =
      apply_completed-IsKept valid spec result now

  result-IsKept :
      (valid : ℕ → Value → Bool) (spec : Option StepSpec) (result : WorkerResult) (now : ℕ)
      → Returns (IsKept f) (apply_result valid spec f r a result now)
  result-IsKept valid spec result now =
      if-both (Returns (IsKept f)) (is_canceling f.run.status) _ _
        (λ _. canceling-IsKept result.status result now)
        (λ _. status-IsKept valid spec result.status result now)

required {ℓ} :
    {A : Type ℓ} (o : Option A) (status : ℕ) (detail : String) {a : A}
    → require o status detail ≡ ok a
    → o ≡ some a
required none status detail h = cc
required (some b) status detail h = cc

pub apply-IsKept :
    (valid : ℕ → Value → Bool) (f : Flow) (action : WorkerAction) (result : WorkerResult) (now : ℕ)
    → Returns (IsKept f) (apply valid f action result now)
unfolding apply
apply-IsKept valid f action result now = Returns-bind (IsKept f) (contract f.run) _ (λ c _.
    Returns-bind (IsKept f) (require (get_elem? f.steps f.run.step_index) 500 "IndexError") _
      (λ r at_r.
        Returns-bind (IsKept f)
          (require (first (λ a. a.id == action.attempt_id) f.attempts) 500 "AttributeError") _
          (λ a found.
            result-IsKept (record f { run = bump f.run }) r (required _ _ _ at_r) action.attempt_id
              a (required _ _ _ found) valid _ result now)))
