-- ===== src/Run/Consistency/Steps.antt =====
-- usecases/control.py: the tables after an operation on a run.
use autohub.Base.{
  ℕ, ◌≤◌, ◌≡◌, refl, ◌∙◌, sym, Bool, true, false, Option, some, none, List, [], ◌∷◌, ok, arith,
  Result, require, ◌==◌, ◌&&◌, count, first, bind_returned, Bool-cases, inl, inr, ok_injective,
  raise_if_passed, subst, not, ap, ==_refl, ◌>>=◌,
}
use autohub.Run.Model.{PipelineRun, ExecutionAttempt, is_final, is_open}
use autohub.Run.Tables.{Tables, get_run, get_attempt, run_not_found, open_for}
use autohub.Run.Tables.Rows.{get_run-id}
use autohub.Run.Control.{
  pause_run, cancel_run, attach_pr, complete_attempt, Report, reports_completed, reports_failed,
  paused_run, canceled_run, attached_run, given_or, cancel_attempt, start_attempt, can_attach,
  report_attempt, report_run, attempt_of,
}
use autohub.Run.Consistency.{
  IsConsistent, Keeps, capacity, flush_run-IsConsistent, flush_settled-IsConsistent,
  flush_active-IsConsistent, flush_closed-IsConsistent,
}

run_ok : (o : Option PipelineRun) {run : PipelineRun} → run_not_found o ≡ ok run → o ≡ some run
run_ok none h = cc
run_ok (some r) h = cc

-- What an operator, a worker or an observation does to the run that it has locked.
pub data Op : Type 0 where
  pause : (reason : Option ℕ) → Op
  cancel : (now : ℕ) → Op
  attach :
      (projects : ℕ → Option (Option ℕ))
      → (url_of : Option ℕ → ℕ → ℕ) → (pull_number : ℕ) → (pull_url : Option ℕ) → Op
  complete : (attempt_id : ℕ) → Report → (now : ℕ) → Op

-- The tables after the operation on the run, if it is accepted.
unfoldable pub apply : Tables → ℕ → Op → Result Tables
apply t id (pause reason) = do x ← pause_run t id reason; ok x.0
apply t id (cancel now) = do x ← cancel_run t id now; ok x.0
apply t id (attach projects url_of n url) = do x ← attach_pr projects url_of t id n url; ok x.0
apply t id (complete attempt_id report now) = do
  x ← complete_attempt t id attempt_id report now
  ok x.0

first_counted :
    (aid rid : ℕ) (rows : List ExecutionAttempt) (a : ExecutionAttempt)
    → first (λ b. b.id == aid) rows ≡ some a
    → open_for rid a ≡ true
    → 1 ≤ count (λ b. open_for rid b && b.id == a.id) rows
first_counted aid rid [] a h is_open_a = ground arith
first_counted aid rid (b ∷ rows) a h is_open_a = elim (Bool-cases (b.id == aid)) [
  | inl here ↦
      let same : b ≡ a = some_eq (rw here at h) in
      rw same (rw is_open_a (rw (==_refl a.id) (omega arith)))
  | inr other ↦
      omega (arith, first_counted aid rid rows a (rw other at h) is_open_a, count_cons b rows)
]
  where
    some_eq : {x y : ExecutionAttempt} → some x ≡ some y → x ≡ y
    some_eq e = cc

    count_cons :
        (b : ExecutionAttempt) (rows : List ExecutionAttempt)
        → count (λ c. open_for rid c && c.id == a.id) rows
          ≤ count (λ c. open_for rid c && c.id == a.id) (b ∷ rows)
    count_cons b rows = ground arith

get_attempt_counted :
    (t : Tables) (aid rid : ℕ) (a : ExecutionAttempt)
    → get_attempt t aid ≡ some a
    → a.pipeline_run_id ≡ rid
    → is_open a.state ≡ true
    → 1 ≤ count (λ b. open_for rid b && b.id == a.id) t.attempts
unfolding get_attempt
get_attempt_counted t aid rid a found own open_a =
    first_counted aid rid t.attempts a found (rw own (rw (==_refl rid) open_a))

cancel_attempt-Keeps : (now : ℕ) → Keeps (cancel_attempt now)
cancel_attempt-Keeps now = record { id_kept = λ _. refl; run_kept = λ _. refl }

start_attempt-Keeps : Keeps start_attempt
start_attempt-Keeps = record { id_kept = λ _. refl; run_kept = λ _. refl }

attached_capacity : (run : PipelineRun) (n url : ℕ) → capacity (attached_run run n url).state ≡ 1
attached_capacity run n url = ground arith

paused_capacity : (run : PipelineRun) → capacity run.state ≤ 1
paused_capacity run = ground arith

module _ (t : Tables) (c : IsConsistent t) (id : ℕ) where
  pause_run-IsConsistent :
      (reason : Option ℕ) (x : Tables × PipelineRun)
      → pause_run t id reason ≡ ok x
      → IsConsistent x.0
  unfolding pause_run
  pause_run-IsConsistent reason x h =
      let (run, found, rest) = bind_returned (run_not_found (get_run t id)) _ h in
      let (_, done) = raise_if_passed (is_final run.state) _ _ _ rest in
      subst (λ y. IsConsistent y.0) (ok_injective done)
        (flush_run-IsConsistent t c id run (paused_run run reason) (run_ok (get_run t id) found)
          refl (paused_capacity run))

  cancel_run-IsConsistent :
      (now : ℕ) (x : Tables × PipelineRun) → cancel_run t id now ≡ ok x → IsConsistent x.0
  unfolding cancel_run
  cancel_run-IsConsistent now x h =
      let (run, found, rest) = bind_returned (run_not_found (get_run t id)) _ h in
      let (_, done) = raise_if_passed (is_final run.state) _ _ _ rest in
      subst (λ y. IsConsistent y.0) (ok_injective done)
        (flush_settled-IsConsistent t c id run (canceled_run run) (run_ok (get_run t id) found) refl
          (cancel_attempt now) (cancel_attempt-Keeps now) (λ _. refl))

  attach_pr-IsConsistent :
      (projects : ℕ → Option (Option ℕ)) (url_of : Option ℕ → ℕ → ℕ) (n : ℕ) (url : Option ℕ)
      (x : Tables × PipelineRun)
      → attach_pr projects url_of t id n url ≡ ok x
      → IsConsistent x.0
  unfolding attach_pr
  attach_pr-IsConsistent projects url_of n url x h =
      let (run, found, rest) = bind_returned (run_not_found (get_run t id)) _ h in
      let (_, late) = raise_if_passed (not (can_attach run.state)) _ _ _ rest in
      let (repository, _, done) =
        bind_returned (require (projects run.project_id) 404 "Project not found") _ late in
      let pull_url = given_or url (url_of repository n) in
      subst (λ y. IsConsistent y.0) (ok_injective done)
        (flush_active-IsConsistent t c id run (attached_run run n pull_url)
          (run_ok (get_run t id) found) refl start_attempt start_attempt-Keeps
          (attached_capacity run n pull_url))

  report_run-id : (report : Report) (run : PipelineRun) → (report_run report run).id ≡ run.id
  report_run-id reports_completed run = refl
  report_run-id (reports_failed a b) run = ground arith

  report_attempt-id :
      (report : Report) (now : ℕ) (a : ExecutionAttempt) → (report_attempt report now a).id ≡ a.id
  report_attempt-id reports_completed now a = refl
  report_attempt-id (reports_failed _ _) now a = refl

  report_attempt-closed :
      (report : Report) (now : ℕ) (a : ExecutionAttempt)
      → is_open (report_attempt report now a).state ≡ false
  report_attempt-closed reports_completed now a = refl
  report_attempt-closed (reports_failed _ _) now a = refl

  attempt_of_ok :
      (o : Option ExecutionAttempt) (run_id : ℕ) {a : ExecutionAttempt}
      → attempt_of o run_id ≡ ok a
      → (o ≡ some a) × (a.pipeline_run_id ≡ run_id)
  attempt_of_ok none run_id h = cc
  attempt_of_ok (some b) run_id {a} h = elim (Bool-cases (b.pipeline_run_id == run_id)) [
    | inl own ↦
        let same : b ≡ a = ok_injective (rw own at h) in (ap some same, ground (arith, own, same))
    | inr other ↦ cc (rw other at h)
  ]

  not-false : (b : Bool) → not b ≡ false → b ≡ true
  not-false b h = ground arith

  complete_attempt-IsConsistent :
      (attempt_id : ℕ) (report : Report) (now : ℕ) (x : Tables × ExecutionAttempt)
      → complete_attempt t id attempt_id report now ≡ ok x
      → IsConsistent x.0
  unfolding complete_attempt
  complete_attempt-IsConsistent attempt_id report now x h =
      let (run, found, rest) = bind_returned (run_not_found (get_run t id)) _ h in
      let (a, taken, rest1) = bind_returned (attempt_of (get_attempt t attempt_id) id) _ rest in
      let (_, rest2) = raise_if_passed (is_final run.state) _ _ _ rest1 in
      let (is_open_a, done) = raise_if_passed (not (is_open a.state)) _ _ _ rest2 in
      let (row, own) = attempt_of_ok (get_attempt t attempt_id) id taken in
      subst (λ y. IsConsistent y.0) (ok_injective done)
        (flush_closed-IsConsistent t c id run (report_run report run) (run_ok (get_run t id) found)
          (report_run-id report run) a (report_attempt report now a)
          (get_attempt_counted t attempt_id run.id a row
            (own ∙ sym (get_run-id t id run (run_ok (get_run t id) found)))
            (not-false (is_open a.state) is_open_a))
          (report_attempt-id report now a) (report_attempt-closed report now a))

  -- Where a run has at most one open attempt, none if it has ended, and attempts have different
  -- ids, pausing or cancelling a run, attaching a pull request and a worker's report on an attempt,
  -- where they are accepted, keep it so.
  pub apply-IsConsistent : (op : Op) (t' : Tables) → apply t id op ≡ ok t' → IsConsistent t'
  unfolding apply
  apply-IsConsistent (pause reason) t' h =
      let (x, done, same) = bind_returned (pause_run t id reason) _ h in
      subst IsConsistent (ok_injective same) (pause_run-IsConsistent reason x done)
  apply-IsConsistent (cancel now) t' h =
      let (x, done, same) = bind_returned (cancel_run t id now) _ h in
      subst IsConsistent (ok_injective same) (cancel_run-IsConsistent now x done)
  apply-IsConsistent (attach projects url_of n url) t' h =
      let (x, done, same) = bind_returned (attach_pr projects url_of t id n url) _ h in
      subst IsConsistent (ok_injective same) (attach_pr-IsConsistent projects url_of n url x done)
  apply-IsConsistent (complete a report now) t' h =
      let (x, done, same) = bind_returned (complete_attempt t id a report now) _ h in
      subst IsConsistent (ok_injective same) (complete_attempt-IsConsistent a report now x done)
