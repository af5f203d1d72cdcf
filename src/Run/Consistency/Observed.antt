-- ===== src/Run/Consistency/Observed.antt =====
-- usecases/transitions.py and lifecycle.py: the tables after an observation of a pull request.
use autohub.Base.{
  ℕ, ◌≤◌, ◌≡◌, ◌+◌, ◌||◌, refl, Bool, true, false, some, none, arith, if◌then◌else◌, Option-cases,
  inl, inr,
}
use autohub.Run.Model.{PipelineRun, ExecutionAttempt, is_in_flight, is_open, github_auth_wait}
use autohub.Run.Tables.{Tables, get_run, flush}
use autohub.Run.Transitions.{
  finish_closed_pull, block_for_project_change, wait_for_github, clear_github_auth_wait,
  GitHubFailure, auth, rate_limit, close_attempt, fail_for_change, hold_for_github,
  waits_for_approval, is_reason,
}
use autohub.Run.Consistency.{
  IsConsistent, flush_settled-IsConsistent, flush_run-IsConsistent, capacity,
}

hold_id :
    (d : ℕ) (f : GitHubFailure) (run : PipelineRun) (now : ℕ)
    → (hold_for_github d f run now).id ≡ run.id
hold_id d auth run now = ground arith
hold_id d (rate_limit n) run now = refl

hold_capacity :
    (d : ℕ) (f : GitHubFailure) (run : PipelineRun) (now : ℕ)
    → capacity run.state ≤ capacity (hold_for_github d f run now).state
hold_capacity d auth run now = ground arith
hold_capacity d (rate_limit n) run now = omega arith

closes :
    (merged : Bool) (now : ℕ) (a : ExecutionAttempt)
    → is_open (close_attempt merged now a).state ≡ false
closes true now a = refl
closes false now a = refl

-- What an observation does to the run that its worker has locked.
pub data Observation : Type 0 where
  pull_closed : (merged : Bool) → Observation
  project_changed : Observation
  github_failed : (default_seconds : ℕ) → GitHubFailure → Observation
  github_recovered : Observation

-- The tables after an observation, for the run that a query found.
unfoldable pub observe : Tables → PipelineRun → Observation → ℕ → Tables
observe t run (pull_closed merged) now = (finish_closed_pull t run merged now).0
observe t run project_changed now = (block_for_project_change t run now).0
observe t run (github_failed d f) now = wait_for_github t run.id d f now
observe t run github_recovered now = clear_github_auth_wait t run.id

module _ (t : Tables) (id d now : ℕ) (f : GitHubFailure) where
  wait_gone : get_run t id ≡ none → wait_for_github t id d f now ≡ t
  unfolding wait_for_github
  wait_gone gone = ground arith

  wait_found :
      (run : PipelineRun)
      → get_run t id ≡ some run
      → wait_for_github t id d f now ≡ (
          if is_in_flight run.state || waits_for_approval run.sdd_progress
          then flush t (hold_for_github d f run now) none
          else t)
  unfolding wait_for_github
  wait_found run found = ground arith

module _ (t : Tables) (id : ℕ) where
  clear_gone : get_run t id ≡ none → clear_github_auth_wait t id ≡ t
  unfolding clear_github_auth_wait
  clear_gone gone = ground arith

  clear_found :
      (run : PipelineRun)
      → get_run t id ≡ some run
      → clear_github_auth_wait t id ≡ (
          if is_reason github_auth_wait run.pause_reason
          then flush t (record run { pause_reason = none; revision = run.revision + 1 }) none
          else t)
  unfolding clear_github_auth_wait
  clear_found run found = ground arith

module _ (t : Tables) (c : IsConsistent t) (now : ℕ) where
  -- A flush that a test guards.
  if-IsConsistent : (b : Bool) (t' : Tables) → IsConsistent t' → IsConsistent (if b then t' else t)
  if-IsConsistent true t' h = h
  if-IsConsistent false t' h = c

  wait_for_github-IsConsistent :
      (id d : ℕ) (f : GitHubFailure) → IsConsistent (wait_for_github t id d f now)
  wait_for_github-IsConsistent id d f = elim (Option-cases (get_run t id)) [
    | inl gone ↦ rw (wait_gone t id d now f gone) c
    | inr (run, found) ↦ rw (wait_found t id d now f run found) (
        if-IsConsistent _ _ (
          flush_run-IsConsistent t c id run (hold_for_github d f run now) found
            (hold_id d f run now) (hold_capacity d f run now)))
  ]

  clear_github_auth_wait-IsConsistent : (id : ℕ) → IsConsistent (clear_github_auth_wait t id)
  clear_github_auth_wait-IsConsistent id = elim (Option-cases (get_run t id)) [
    | inl gone ↦ rw (clear_gone t id gone) c
    | inr (run, found) ↦ rw (clear_found t id run found) (
        if-IsConsistent _ _ (
          flush_run-IsConsistent t c id run
            (record run { pause_reason = none; revision = run.revision + 1 }) found refl
            (omega arith)))
  ]

  module _ (run : PipelineRun) (found : get_run t run.id ≡ some run) where
    finish_closed_pull-IsConsistent :
        (merged : Bool) → IsConsistent (finish_closed_pull t run merged now).0
    unfolding finish_closed_pull
    finish_closed_pull-IsConsistent merged =
        flush_settled-IsConsistent t c run.id run _ found refl (close_attempt merged now)
          (record { id_kept = λ _. refl; run_kept = λ _. refl }) (closes merged now)

    block_for_project_change-IsConsistent : IsConsistent (block_for_project_change t run now).0
    unfolding block_for_project_change
    block_for_project_change-IsConsistent =
        flush_settled-IsConsistent t c run.id run _ found refl (fail_for_change _ now)
          (record { id_kept = λ _. refl; run_kept = λ _. refl }) (λ _. refl)

    -- Settling a run for its closed or merged pull request, blocking it for a changed project,
    -- holding it for a GitHub failure and releasing it keep the tables consistent: a run has at
    -- most one open attempt, none if it has ended, and attempts have different ids.
    pub observe-IsConsistent : (o : Observation) → IsConsistent (observe t run o now)
    unfolding observe
    observe-IsConsistent (pull_closed merged) = finish_closed_pull-IsConsistent merged
    observe-IsConsistent project_changed = block_for_project_change-IsConsistent
    observe-IsConsistent (github_failed d f) = wait_for_github-IsConsistent run.id d f
    observe-IsConsistent github_recovered = clear_github_auth_wait-IsConsistent run.id
