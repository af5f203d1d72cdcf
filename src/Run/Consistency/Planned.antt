-- ===== src/Run/Consistency/Planned.antt =====
-- usecases/lifecycle.py, `prepare_implementation`: the tables after an attempt is planned.
use autohub.Base.{
  ℕ, ◌≤◌, ◌≡◌, ◌≢◌, not, ◌||◌, Option, some, none, ◌∷◌, ok, arith, ◌==◌, count, bind_returned,
  ok_injective, raise_if_passed, subst, require, ap,
}
use autohub.Run.Model.{PipelineRun, ExecutionAttempt}
use autohub.Run.Tables.{Tables, get_run, active_attempt, open_for}
use autohub.Run.Tables.Rows.{get_run-id, latest-select-none}
use autohub.Run.Lease.{get_leased}
use autohub.Run.Prepare.{
  Requests, ProjectView, PrepareRequest, Prepared, prepare_implementation, prepare_with,
  existing_attempt, new_attempt, leased_run, planned_attempt, dispatching_run, is_queued,
  repository_of,
}
use autohub.Run.Consistency.{IsConsistent, Settled, settled_flush, open_count}

get_leased_found :
    (t : Tables) (id owner token now : ℕ) (run : PipelineRun)
    → get_leased t id owner token now ≡ some run
    → get_run t id ≡ some run
unfolding get_leased
get_leased_found t id owner token now run h = ground arith

leased_run_ok :
    (t : Tables) (id owner token now : ℕ) (run : PipelineRun)
    → leased_run t id owner token now ≡ ok run
    → get_leased t id owner token now ≡ some run
leased_run_ok t id owner token now run h = ground arith

module _ (requests : Requests) (t : Tables) (c : IsConsistent t) (id key : ℕ)
    (fresh : count (λ a. a.id == id) t.attempts ≡ 0) where
  planned_settled :
      (run : PipelineRun) (repository : ℕ)
      → open_count run.id t.attempts ≡ 0
      → Settled
          (planned_attempt requests t run repository id key ∷ t.attempts)
          (dispatching_run requests run)
  planned_settled run repository none_open = ground arith

  planned_ids :
      (run : PipelineRun) (repository k : ℕ)
      → count (λ a. a.id == k) (planned_attempt requests t run repository id key ∷ t.attempts) ≤ 1
  planned_ids run repository k = ground (arith, fresh, c.ids_unique k)

  planned_other :
      (run : PipelineRun) (repository k : ℕ)
      → k ≢ run.id
      → open_count k (planned_attempt requests t run repository id key ∷ t.attempts)
        ≤ open_count k t.attempts
  planned_other run repository k ne = ground arith

  new_attempt-IsConsistent :
      (run : PipelineRun) (project : ProjectView) (expected : ℕ) (x : Tables × Prepared)
      → active_attempt t run.id ≡ none
      → new_attempt requests t run project expected id key ≡ ok x
      → IsConsistent x.0
  unfolding active_attempt
  new_attempt-IsConsistent run project expected x gone h =
      let (_, rest) = raise_if_passed (not (run.revision == expected)) _ _ _ h in
      let (_, rest1) = raise_if_passed (not (is_queued run.state)) _ _ _ rest in
      let (repository, _, done) = bind_returned (repository_of requests project) _ rest1 in
      let none_open = latest-select-none (open_for run.id) t.attempts gone in
      subst (λ y. IsConsistent y.0) (ok_injective done)
        (record {
          settled =
              settled_flush t.attempts
                (planned_attempt requests t run repository id key ∷ t.attempts)
                (dispatching_run requests run) t.runs c.settled
                (planned_settled run repository none_open) (planned_other run repository);
          ids_unique = planned_ids run repository;
        })

  existing_attempt-IsConsistent :
      (run : PipelineRun) (a : ExecutionAttempt) (project : ProjectView) (x : Tables × Prepared)
      → existing_attempt requests t run a project ≡ ok x
      → IsConsistent x.0
  existing_attempt-IsConsistent run a project x h =
      let (repository, _, rest) = bind_returned (repository_of requests project) _ h in
      let (_, done) = raise_if_passed _ _ _ _ rest in
      subst (λ y. IsConsistent y.0) (ok_injective done) c

  prepare_with-IsConsistent :
      (run : PipelineRun) (project : ProjectView) (o : Option ExecutionAttempt) (expected : ℕ)
      (x : Tables × Prepared)
      → active_attempt t run.id ≡ o
      → prepare_with requests t run project o expected id key ≡ ok x
      → IsConsistent x.0
  prepare_with-IsConsistent run project (some a) expected x active h =
      existing_attempt-IsConsistent run a project x h
  prepare_with-IsConsistent run project none expected x gone h =
      new_attempt-IsConsistent run project expected x gone h

  -- Where a run has at most one open attempt, none if it has ended, and attempts have different ids,
  -- and the id of the attempt to plan is a new one, a call that plans an implementation attempt, or
  -- that returns the one already planned, keeps it so.
  pub prepare_implementation-IsConsistent :
      (project_row : Option ProjectView) (run_id : ℕ) (r : PrepareRequest) (now : ℕ)
      (x : Tables × Prepared)
      → prepare_implementation requests t project_row run_id r id key now ≡ ok x
      → IsConsistent x.0
  unfolding prepare_implementation
  prepare_implementation-IsConsistent project_row run_id r now x h =
      let (run, leased, rest) = bind_returned (leased_run t run_id r.owner r.token now) _ h in
      let (project, _, rest1) =
        bind_returned (require project_row 404 "Project not found") _ rest in
      let (_, done) =
        raise_if_passed (not project.enabled || not (project.revision == run.project_revision)) _ _
          _ rest1 in
      let found =
        get_leased_found t run_id r.owner r.token now run
          (leased_run_ok t run_id r.owner r.token now run leased) in
      prepare_with-IsConsistent run project (active_attempt t run_id) r.expected_run_revision x
        (ap (active_attempt t) (get_run-id t run_id run found)) done
