-- ===== src/Run/Tables.antt =====
-- pipeline_runs/repos.py: the tables of runs and attempts, their queries, and the flush of a row.
pub mod Rows
use autohub.Base.{
  ℕ, ◌+◌, Bool, true, false, ◌&&◌, Option, none, some, List, [], ◌∷◌, if◌then◌else◌, ltb, ◌==◌,
  first, select, Result, require,
}
use autohub.Run.Model.{PipelineRun, ExecutionAttempt, is_open}

pub record Tables : Type 0 where
  pub runs : List PipelineRun
  pub attempts : List ExecutionAttempt

-- `get`.
unfoldable pub get_run : Tables → ℕ → Option PipelineRun
get_run t id = first (λ r. r.id == id) t.runs

-- `get_attempt`.
unfoldable pub get_attempt : Tables → ℕ → Option ExecutionAttempt
get_attempt t id = first (λ a. a.id == id) t.attempts

abbrev pub put_run : PipelineRun → List PipelineRun → List PipelineRun
put_run r [] = []
put_run r (q ∷ qs) = (if q.id == r.id then r else q) ∷ put_run r qs

abbrev pub put_attempt : ExecutionAttempt → List ExecutionAttempt → List ExecutionAttempt
put_attempt a [] = []
put_attempt a (b ∷ bs) = (if b.id == a.id then a else b) ∷ put_attempt a bs

-- An open attempt of the run.
abbrev pub open_for : ℕ → ExecutionAttempt → Bool
open_for run_id a = a.pipeline_run_id == run_id && is_open a.state

-- ORDER BY attempt_number DESC LIMIT 1.
abbrev pub later : ExecutionAttempt → Option ExecutionAttempt → Option ExecutionAttempt
later a none = some a
later a (some b) = if ltb b.attempt_number a.attempt_number then some a else some b

abbrev pub latest : List ExecutionAttempt → Option ExecutionAttempt
latest [] = none
latest (a ∷ as') = later a (latest as')

unfoldable pub active_attempt : Tables → ℕ → Option ExecutionAttempt
active_attempt t run_id = latest (select (open_for run_id) t.attempts)

-- `next_attempt_number`: one more than the largest number of the run's attempts.
abbrev pub number_of : Option ExecutionAttempt → ℕ
number_of none = 0
number_of (some a) = a.attempt_number

unfoldable pub next_attempt_number : Tables → ℕ → ℕ
next_attempt_number t run_id =
    number_of (latest (select (λ a. a.pipeline_run_id == run_id) t.attempts)) + 1

abbrev pub run_not_found : Option PipelineRun → Result PipelineRun
run_not_found o = require o 404 "Pipeline run not found"

-- The flush of a changed run, and of a changed attempt where there is one.
abbrev pub put_optional : Option ExecutionAttempt → List ExecutionAttempt → List ExecutionAttempt
put_optional none rows = rows
put_optional (some a) rows = put_attempt a rows

abbrev pub flush : Tables → PipelineRun → Option ExecutionAttempt → Tables
flush t run attempt = record {
  runs = put_run run t.runs;
  attempts = put_optional attempt t.attempts;
}
