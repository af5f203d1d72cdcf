-- ===== src/Tests/Run.antt =====
-- Pipeline runs at work: one leased run with an open attempt, and one that has ended.
use autohub.Base.{ℕ, ◌≤◌, ◌≡◌, refl, true, Option, none, some, [], ◌∷◌, ok, arith, count, ◌==◌}
use autohub.Run.Model.{
  PipelineRun, PipelineRunState, implementing, completed, queued, ImplementationRequest,
  ExecutionAttempt, running, attempt_completed, ExecutionAttemptState, implementation,
}
use autohub.Run.Tables.{Tables, get_run, get_attempt, active_attempt, next_attempt_number}
use autohub.Run.Lease.{get_leased, acquire_lease, acquire, lease_grant}
use autohub.Run.Lease.Exclusion
use autohub.Run.Lease.Exclusion.{acquires, renews, releases, lease_step, lease_steps}
use autohub.Run.Control.{
  pause_run, cancel_run, attach_pr, complete_attempt, canceled_run, cancel_attempt,
}
use autohub.Run.Transitions.{finish_closed_pull}
use autohub.Run.Prepare
use autohub.Run.Prepare.{Requests, ProjectView, PrepareRequest, Prepared, prepare_implementation}
use autohub.Run.Consistency.{IsConsistent}
use autohub.Run.Consistency.Steps
use autohub.Run.Consistency.Steps.{Op, pause, cancel, attach, complete, apply}
use autohub.Run.Consistency.Final
use autohub.Run.Consistency.Final.{IsRefused}
use autohub.Run.Consistency.Observed
use autohub.Run.Consistency.Observed.{pull_closed, observe}
use autohub.Run.Consistency.Planned

-- What the runs below compute with.
program : Unit {0}
unfolding get_run get_attempt active_attempt next_attempt_number get_leased acquire_lease acquire
    lease_grant lease_step lease_steps pause_run cancel_run attach_pr complete_attempt apply
    finish_closed_pull observe prepare_implementation
program = tt

abbrev pub run_of : (id : ℕ) → PipelineRunState → (lease : Option ℕ) → PipelineRun
run_of id state lease = record {
  id = id;
  project_id = 1;
  ai_catalog_id = 1;
  requested_catalog_id = none;
  sdd_snapshot = none;
  sdd_progress = none;
  project_revision = 1;
  github_repository = some 5;
  github_connector_id = some 6;
  pull_number = 12;
  pull_url = 13;
  pull_snapshot = 14;
  state = state;
  pause_reason = none;
  branch = 15;
  revision = 3;
  epoch = 1;
  lease_owner = lease;
  lease_token = lease;
  lease_expires_at = lease;
  next_action_at = none;
  quota_block_count = 0;
  notified_revision = none;
  updated_at = 0;
}

abbrev request : ImplementationRequest
request = record {
  head_sha = 20;
  head_ref = 21;
  base_ref = 22;
  instructions = 23;
  correlation_marker = 24;
}

abbrev attempt_of : (id run_id : ℕ) → ExecutionAttemptState → ExecutionAttempt
attempt_of id run_id state = record {
  id = id;
  pipeline_run_id = run_id;
  attempt_number = id;
  epoch = 1;
  kind = implementation;
  state = state;
  request_snapshot = request;
  request_digest = 30;
  idempotency_key = id;
  external_status = none;
  started_at = none;
  finished_at = none;
  failure_code = none;
  failure_detail = none;
}

-- Run 1 is at work under the lease 50, run 2 has ended, run 3 waits under the lease 50.
abbrev tables : Tables
tables = record {
  runs = run_of 1 implementing (some 50) ∷ run_of 2 completed none ∷ run_of 3 queued (some 50) ∷ [];
  attempts = attempt_of 2 1 running ∷ attempt_of 1 1 attempt_completed ∷ [];
}

ids_unique_of : (id : ℕ) → count (λ a. a.id == id) tables.attempts ≤ 1
ids_unique_of id = ground arith

tables-IsConsistent : IsConsistent tables
tables-IsConsistent = record {
  settled = (omega arith, (omega arith, (omega arith, tt)));
  ids_unique = ids_unique_of;
}

lease_exclusive_example :
    get_leased (lease_steps tables (acquires 1 60 61 40 90 ∷ releases 1 60 61 45 ∷ [])) 1 50 50 49
    ≡ some (run_of 1 implementing (some 50))
unfolding program
lease_exclusive_example =
    Exclusion.lease_exclusive tables (acquires 1 60 61 40 90 ∷ releases 1 60 61 45 ∷ []) 1 50 50 50
      49 (run_of 1 implementing (some 50)) refl refl refl refl
      (omega arith, ((λ e. omega arith), tt)) (omega arith)

apply-IsConsistent_example : IsConsistent (record {
  runs =
      canceled_run (run_of 1 implementing (some 50))
      ∷ run_of 2 completed none
      ∷ run_of 3 queued (some 50)
      ∷ [];
  attempts = cancel_attempt 70 (attempt_of 2 1 running) ∷ attempt_of 1 1 attempt_completed ∷ [];
})
unfolding program
apply-IsConsistent_example =
    Steps.apply-IsConsistent tables tables-IsConsistent 1 (cancel 70) _ refl

final-apply_example : IsRefused 422 (apply tables 2 (pause none))
unfolding program
final-apply_example = Final.final-apply tables 2 (run_of 2 completed none) (pause none) refl refl

observe-IsConsistent_example :
    IsConsistent (observe tables (run_of 1 implementing (some 50)) (pull_closed true) 70)
unfolding program
observe-IsConsistent_example =
    Observed.observe-IsConsistent tables tables-IsConsistent 70 (run_of 1 implementing (some 50))
      refl (pull_closed true)

acquire_lease_grants_example :
    (t' : Tables) × (leased : PipelineRun) × (acquire_lease tables 1 60 10 61 55
      ≡ ok (
        t',
        record { run_id = 1; owner = 60; token = 61; expires_at = 10_000_055; run_revision = 3 },
      ))
    × (get_leased t' 1 60 61 10_000_054 ≡ some leased)
    × (leased.state ≡ implementing)
unfolding program
acquire_lease_grants_example =
    Exclusion.acquire_lease_grants tables 1 60 10 61 55 10_000_054 (run_of 1 implementing (some 50))
      refl refl (omega arith)

abbrev texts : Requests
texts = record {
  build = λ run repository key. record request { head_sha = key };
  digest = λ r. r.head_sha;
}

abbrev planned_tables : Tables
planned_tables = record {
  runs =
      run_of 1 implementing (some 50)
      ∷ run_of 2 completed none
      ∷ Prepare.dispatching_run texts (run_of 3 queued (some 50))
      ∷ [];
  attempts =
      Prepare.planned_attempt texts tables (run_of 3 queued (some 50)) 5 9 99 ∷ tables.attempts;
}

prepare_implementation-IsConsistent_example : IsConsistent planned_tables
unfolding program
prepare_implementation-IsConsistent_example =
    Planned.prepare_implementation-IsConsistent texts tables tables-IsConsistent 9 99 refl
      (some (record { enabled = true; revision = 1; github_repository = some 5 })) 3
      (record { owner = 50; token = 50; expected_run_revision = 3 }) 40 _ refl
