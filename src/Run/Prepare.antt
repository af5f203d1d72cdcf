-- ===== src/Run/Prepare.antt =====
-- pipeline_runs/usecases/lifecycle.py, `prepare_implementation`: a leased worker plans the attempt
-- of a queued run. The text of a request, its JSON and its SHA-256 digest are `Requests`.
use autohub.Base.{
  ℕ, ◌+◌, Bool, true, false, not, ◌||◌, Option, none, some, ◌∷◌, Result, ok, raise, raise_if,
  require, project_error, ◌>>=◌, ◌>>◌, ◌==◌,
}
use autohub.Run.Model.{
  PipelineRun, PipelineRunState, queued, dispatching, ImplementationRequest, ExecutionAttempt,
  implementation, planned,
}
use autohub.Run.Tables.{
  Tables, get_run, active_attempt, next_attempt_number, put_run, run_not_found,
}
use autohub.Run.Lease.{get_leased}

-- `build_implementation_request` for a run, a repository and an idempotency key, and the digest of
-- a request's canonical JSON.
pub record Requests : Type 0 where
  pub build : PipelineRun → (repository key : ℕ) → ImplementationRequest
  pub digest : ImplementationRequest → ℕ

-- A row of `projects`, as far as this code reads it.
pub record ProjectView : Type 0 where
  pub enabled : Bool
  pub revision : ℕ
  pub github_repository : Option ℕ

pub record PrepareRequest : Type 0 where
  pub owner : ℕ
  pub token : ℕ
  pub expected_run_revision : ℕ

pub record Prepared : Type 0 where
  pub attempt : ExecutionAttempt
  pub request : ImplementationRequest
  pub run_revision : ℕ
  pub created : Bool

abbrev pub is_queued : PipelineRunState → Bool
is_queued queued = true
is_queued _ = false

-- `get_leased`, and `raise_lease_conflict` where it returns nothing.
abbrev pub leased_run : Tables → (run_id owner token now : ℕ) → Result PipelineRun
leased_run t run_id owner token now = elim (get_leased t run_id owner token now) [
  | some run ↦ ok run
  | none ↦ run_not_found (get_run t run_id) >>= λ _.
      raise (project_error 409 "Pipeline run lease prepare attempt was rejected")
]

module _ (requests : Requests) where
  open requests use {build, digest}

  -- `_github_repository`.
  abbrev pub repository_of : ProjectView → Result ℕ
  repository_of project =
      require project.github_repository 422
        "Add a GitHub connection before preparing an implementation"

  -- A repeated call returns the attempt that is open, if it was planned from the same request.
  abbrev pub existing_attempt :
      Tables → PipelineRun → ExecutionAttempt → ProjectView → Result (Tables × Prepared)
  existing_attempt t run a project = do
    repository ← repository_of project
    raise_if (not (a.request_digest == digest (build run repository a.idempotency_key))) 409
        "The active attempt was prepared with a different request"
    ok (
      t,
      record {
        attempt = a;
        request = a.request_snapshot;
        run_revision = run.revision;
        created = false;
      },
    )

  abbrev pub planned_attempt : Tables → PipelineRun → (repository id key : ℕ) → ExecutionAttempt
  planned_attempt t run repository id key =
      let request = build run repository key in
      record {
        id = id;
        pipeline_run_id = run.id;
        attempt_number = next_attempt_number t run.id;
        epoch = run.epoch;
        kind = implementation;
        state = planned;
        request_snapshot = request;
        request_digest = digest request;
        idempotency_key = key;
        external_status = none;
        started_at = none;
        finished_at = none;
        failure_code = none;
        failure_detail = none;
      }

  abbrev pub dispatching_run : PipelineRun → PipelineRun
  dispatching_run run = record run { state = dispatching; revision = run.revision + 1 }

  abbrev pub new_attempt :
      Tables → PipelineRun → ProjectView → (expected id key : ℕ) → Result (Tables × Prepared)
  new_attempt t run project expected id key = do
    raise_if (not (run.revision == expected)) 409
        "Pipeline run changed; reload before preparing an attempt"
    raise_if (not (is_queued run.state)) 409
        "Pipeline run is not ready for an implementation attempt"
    repository ← repository_of project
    let a = planned_attempt t run repository id key
    ok (
      record { runs = put_run (dispatching_run run) t.runs; attempts = a ∷ t.attempts },
      record {
        attempt = a;
        request = a.request_snapshot;
        run_revision = run.revision + 1;
        created = true;
      },
    )

  abbrev pub prepare_with :
      Tables
      → PipelineRun
      → ProjectView
      → Option ExecutionAttempt
      → (expected id key : ℕ) → Result (Tables × Prepared)
  prepare_with t run project (some a) expected id key = existing_attempt t run a project
  prepare_with t run project none expected id key = new_attempt t run project expected id key

  -- `id` and `key` are the fresh UUIDs of a new attempt; `project` is the run's project, if it has
  -- one.
  unfoldable pub prepare_implementation :
      Tables
      → Option ProjectView
      → ℕ
      → PrepareRequest
      → (id key now : ℕ) → Result (Tables × Prepared)
  prepare_implementation t project_row run_id r id key now = do
    run ← leased_run t run_id r.owner r.token now
    project ← require project_row 404 "Project not found"
    raise_if (not project.enabled || not (project.revision == run.project_revision)) 409
        "Project changed after this pipeline run was enrolled"
    prepare_with t run project (active_attempt t run_id) r.expected_run_revision id key
