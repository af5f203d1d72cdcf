-- ===== src/Run/Control.antt =====
-- pipeline_runs/usecases/control.py: what an operator and an external worker do to a run. A value
-- that a message formats (the run's state) is left out of the message.
use autohub.Base.{
  ℕ, ◌+◌, Bool, true, false, not, Option, none, some, Result, ok, raise_if, require, ◌>>=◌, ◌>>◌,
  if◌then◌else◌, ◌==◌, is_some,
}
use autohub.Run.Model.{
  PipelineRun, PipelineRunState, queued, dispatching, implementing, awaiting_ci, paused, failed,
  canceled, is_final, Reason, manually_paused, manually_canceled, run_was_canceled,
  worker_reported_failure, given_reason, FailureCode, canceled_code, worker_failed, given_code,
  SddProgress, ExecutionAttempt, ExecutionAttemptState, planned, attempt_dispatching, running,
  attempt_completed, attempt_failed, is_open,
}
use autohub.Run.Tables.{Tables, get_run, get_attempt, active_attempt, flush, run_not_found}
use autohub.Run.Transitions.{map_attempt}

-- `{**run.sdd_progress, "waiting_for_approval": False}`.
abbrev pub stop_waiting : Option SddProgress → Option SddProgress
stop_waiting none = none
stop_waiting (some p) = some (record p { waiting_for_approval = false })

-- `request.reason if request and request.reason else "Manually paused by user"`.
abbrev pub pause_text : Option ℕ → Reason
pause_text none = manually_paused
pause_text (some text) = given_reason text

abbrev pub paused_run : PipelineRun → Option ℕ → PipelineRun
paused_run run reason = record run {
  state = paused;
  sdd_progress = stop_waiting run.sdd_progress;
  pause_reason = some (pause_text reason);
  lease_owner = none;
  lease_token = none;
  lease_expires_at = none;
  revision = run.revision + 1;
}

unfoldable pub pause_run : Tables → ℕ → Option ℕ → Result (Tables × PipelineRun)
pause_run t run_id reason = do
  run ← run_not_found (get_run t run_id)
  raise_if (is_final run.state) 422 "Cannot pause a run in its state"
  ok (flush t (paused_run run reason) none, paused_run run reason)

abbrev pub cancel_attempt : ℕ → ExecutionAttempt → ExecutionAttempt
cancel_attempt now attempt = record attempt {
  state = attempt_failed;
  failure_code = some canceled_code;
  failure_detail = some run_was_canceled;
  finished_at = some now;
}

abbrev pub canceled_run : PipelineRun → PipelineRun
canceled_run run = record run {
  state = canceled;
  pause_reason = some manually_canceled;
  lease_owner = none;
  lease_token = none;
  lease_expires_at = none;
  revision = run.revision + 1;
}

unfoldable pub cancel_run : Tables → ℕ → ℕ → Result (Tables × PipelineRun)
cancel_run t run_id now = do
  run ← run_not_found (get_run t run_id)
  raise_if (is_final run.state) 422 "Cannot cancel a run in its state"
  ok (
    flush t (canceled_run run) (map_attempt (cancel_attempt now) (active_attempt t run.id)),
    canceled_run run,
  )

abbrev pub can_attach : PipelineRunState → Bool
can_attach queued = true
can_attach dispatching = true
can_attach implementing = true
can_attach _ = false

-- An attempt that was planned or is being dispatched runs from now on.
abbrev pub started : ExecutionAttemptState → ExecutionAttemptState
started planned = running
started attempt_dispatching = running
started s = s

abbrev pub start_attempt : ExecutionAttempt → ExecutionAttempt
start_attempt attempt = record attempt { state = started attempt.state }

abbrev pub attached_run : PipelineRun → (pull_number pull_url : ℕ) → PipelineRun
attached_run run pull_number pull_url = record run {
  pull_number = pull_number;
  pull_url = pull_url;
  state = if is_some run.sdd_snapshot then implementing else awaiting_ci;
  revision = run.revision + 1;
}

-- `request.pull_url or ...`.
abbrev pub given_or : Option ℕ → ℕ → ℕ
given_or none n = n
given_or (some url) n = url

-- `projects` is the repository of the project of an id, where there is one; `url_of` formats the link
-- to a pull request of a repository, of "repo" for a project that has none.
unfoldable pub attach_pr :
    (projects : ℕ → Option (Option ℕ))
    → (url_of : Option ℕ → ℕ → ℕ) → Tables
    → ℕ
    → (pull_number : ℕ) → (pull_url : Option ℕ) → Result (Tables × PipelineRun)
attach_pr projects url_of t run_id pull_number url = do
  run ← run_not_found (get_run t run_id)
  raise_if (not (can_attach run.state)) 422 "Cannot attach PR to a run in its state"
  repository ← require (projects run.project_id) 404 "Project not found"
  let pull_url = given_or url (url_of repository pull_number)
  ok (
    flush t (attached_run run pull_number pull_url)
        (map_attempt start_attempt (active_attempt t run.id)),
    attached_run run pull_number pull_url,
  )

pub data Report : Type 0 where
  reports_completed : Report
  reports_failed : (failure_code failure_detail : Option ℕ) → Report

abbrev pub code_or : Option ℕ → FailureCode
code_or none = worker_failed
code_or (some c) = given_code c

abbrev pub detail_or : Option ℕ → Reason
detail_or none = worker_reported_failure
detail_or (some d) = given_reason d

abbrev pub report_attempt : Report → ℕ → ExecutionAttempt → ExecutionAttempt
report_attempt reports_completed now attempt = record attempt {
  state = attempt_completed;
  finished_at = some now;
}
report_attempt (reports_failed code detail) now attempt = record attempt {
  state = attempt_failed;
  finished_at = some now;
  failure_code = some (code_or code);
  failure_detail = some (detail_or detail);
}

abbrev pub is_working : PipelineRunState → Bool
is_working dispatching = true
is_working implementing = true
is_working _ = false

-- A reported failure fails a run that is with its agent.
abbrev pub report_run : Report → PipelineRun → PipelineRun
report_run reports_completed run = run
report_run (reports_failed code detail) run =
    if is_working run.state
    then record run {
      state = failed;
      pause_reason = some (detail_or detail);
      revision = run.revision + 1;
    }
    else run

abbrev pub attempt_of : Option ExecutionAttempt → ℕ → Result ExecutionAttempt
attempt_of none run_id = require none 404 "Execution attempt not found for this pipeline run"
attempt_of (some a) run_id =
    if a.pipeline_run_id == run_id
    then ok a
    else require none 404 "Execution attempt not found for this pipeline run"

unfoldable pub complete_attempt :
    Tables → (run_id attempt_id : ℕ) → Report → ℕ → Result (Tables × ExecutionAttempt)
complete_attempt t run_id attempt_id report now = do
  run ← run_not_found (get_run t run_id)
  attempt ← attempt_of (get_attempt t attempt_id) run_id
  raise_if (is_final run.state) 409 "Pipeline run is already final"
  raise_if (not (is_open attempt.state)) 409 "Execution attempt is already settled"
  let attempt' = report_attempt report now attempt
  ok (flush t (report_run report run) (some attempt'), attempt')
