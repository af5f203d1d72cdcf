-- ===== src/Run/Transitions.antt =====
-- pipeline_runs/usecases/transitions.py and lifecycle.py: transitions that the observation of a pull
-- request causes, on the run that the caller has locked.
use autohub.Base.{
  ℕ, ◌+◌, ◌*◌, Bool, true, false, not, ◌||◌, Option, none, some, if◌then◌else◌, ◌==◌,
}
use autohub.Run.Model.{
  PipelineRun, PipelineRunState, implementing, blocked, completed, canceled, Reason,
  closed_without_merge, project_changed, github_auth_wait, manually_paused, manually_canceled,
  superseded_by_resume, run_was_canceled, worker_reported_failure, question_dismissed_reason,
  decision_required, given_reason, ExecutionAttempt, attempt_completed, attempt_failed, pr_closed,
  project_changed_code, SddProgress, is_in_flight, is_attempt_dispatching,
}
use autohub.Run.Tables.{Tables, get_run, active_attempt, flush}

abbrev same_bool : Bool → Bool → Bool
same_bool true b = b
same_bool false b = not b

-- `==` on the texts of two reasons.
abbrev same_reason : Reason → Reason → Bool
same_reason manually_paused manually_paused = true
same_reason manually_canceled manually_canceled = true
same_reason closed_without_merge closed_without_merge = true
same_reason superseded_by_resume superseded_by_resume = true
same_reason run_was_canceled run_was_canceled = true
same_reason worker_reported_failure worker_reported_failure = true
same_reason github_auth_wait github_auth_wait = true
same_reason question_dismissed_reason question_dismissed_reason = true
same_reason (decision_required a) (decision_required b) = a == b
same_reason (project_changed a) (project_changed b) = same_bool a b
same_reason (given_reason a) (given_reason b) = a == b
same_reason _ _ = false

-- `pause_reason == reason`.
abbrev pub is_reason : Reason → Option Reason → Bool
is_reason reason none = false
is_reason reason (some r) = same_reason r reason

-- `wait_on_github`: the reason is announced once. The texts of ci.py are given reasons.
abbrev pub wait_on_github : PipelineRun → Reason → (now delay : ℕ) → PipelineRun
wait_on_github run reason now delay =
    let waiting = record run { next_action_at = some (now + delay) } in
    if is_reason reason run.pause_reason
    then waiting
    else record waiting { pause_reason = some reason; revision = run.revision + 1 }

-- The settled attempt of a closed pull request.
abbrev pub close_attempt : Bool → ℕ → ExecutionAttempt → ExecutionAttempt
close_attempt merged now attempt = record attempt {
  state = if merged then attempt_completed else attempt_failed;
  finished_at = some now;
  failure_code = if merged then none else some pr_closed;
  failure_detail = if merged then none else some closed_without_merge;
}

abbrev pub map_attempt :
    (ExecutionAttempt → ExecutionAttempt) → Option ExecutionAttempt → Option ExecutionAttempt
map_attempt f none = none
map_attempt f (some a) = some (f a)

-- `finish_closed_pull`.
unfoldable pub finish_closed_pull :
    Tables → PipelineRun → (merged : Bool) → ℕ → Tables × PipelineRun
finish_closed_pull t run merged now =
    let run' = record run {
      state = if merged then completed else canceled;
      pause_reason = if merged then none else some closed_without_merge;
      next_action_at = none;
      revision = run.revision + 1;
    } in
    (flush t run' (map_attempt (close_attempt merged now) (active_attempt t run.id)), run')

abbrev pub is_implementing : PipelineRunState → Bool
is_implementing implementing = true
is_implementing _ = false

abbrev pub dispatching_attempt : Option ExecutionAttempt → Bool
dispatching_attempt none = false
dispatching_attempt (some a) = is_attempt_dispatching a.state

abbrev pub fail_for_change : Reason → ℕ → ExecutionAttempt → ExecutionAttempt
fail_for_change reason now attempt = record attempt {
  state = attempt_failed;
  finished_at = some now;
  failure_code = some project_changed_code;
  failure_detail = some reason;
}

-- `block_for_project_change`: a delivery that may still be at work adds a warning to the reason.
unfoldable pub block_for_project_change : Tables → PipelineRun → ℕ → Tables × PipelineRun
block_for_project_change t run now =
    let attempt = active_attempt t run.id in
    let reason = project_changed (is_implementing run.state || dispatching_attempt attempt) in
    let run' = record run {
      state = blocked;
      pause_reason = some reason;
      next_action_at = none;
      revision = run.revision + 1;
    } in
    (flush t run' (map_attempt (fail_for_change reason now) attempt), run')

abbrev pub waits_for_approval : Option SddProgress → Bool
waits_for_approval none = false
waits_for_approval (some p) = p.waiting_for_approval

-- The kinds of failure of `wait_for_github`: rejected credentials, and a rate limit with the delay
-- that GitHub asked for.
pub data GitHubFailure : Type 0 where
  auth : GitHubFailure
  rate_limit : (retry_after : Option ℕ) → GitHubFailure

-- GITHUB_AUTH_RECHECK_DELAY, in microseconds.
abbrev pub github_auth_recheck_delay : ℕ
github_auth_recheck_delay = 900_000_000

-- `retry_after or DEFAULT_RATE_LIMIT_DELAY_SECONDS`, in microseconds.
abbrev pub rate_limit_delay : (default_seconds : ℕ) → Option ℕ → ℕ
rate_limit_delay default_seconds none = default_seconds * 1_000_000
rate_limit_delay default_seconds (some n) = (if n == 0 then default_seconds else n) * 1_000_000

abbrev pub hold_for_github : ℕ → GitHubFailure → PipelineRun → ℕ → PipelineRun
hold_for_github default_seconds auth run now =
    wait_on_github run github_auth_wait now github_auth_recheck_delay
hold_for_github default_seconds (rate_limit n) run now = record run {
  next_action_at = some (now + rate_limit_delay default_seconds n);
}

-- `wait_for_github`: a missing run, or one that neither moves by itself nor waits for an approval,
-- is left alone.
unfoldable pub wait_for_github : Tables → (run_id default_seconds : ℕ) → GitHubFailure → ℕ → Tables
wait_for_github t run_id default_seconds failure now = elim (get_run t run_id) [
  | none ↦ t
  | some run ↦
      if is_in_flight run.state || waits_for_approval run.sdd_progress
      then flush t (hold_for_github default_seconds failure run now) none
      else t
]

-- `clear_github_auth_wait`.
unfoldable pub clear_github_auth_wait : Tables → ℕ → Tables
clear_github_auth_wait t run_id = elim (get_run t run_id) [
  | none ↦ t
  | some run ↦
      if is_reason github_auth_wait run.pause_reason
      then flush t (record run { pause_reason = none; revision = run.revision + 1 }) none
      else t
]
