-- ===== src/Run/Questions.antt =====
-- pipeline_runs/interaction_service.py, interaction_repo.py and usecases/interactions.py: questions to
-- the operator of a run, their answers, and the resume that an answer allows. Texts, actors and ids
-- are numbers; `decision_required` carries the question, of which the code keeps 500 characters.
pub mod Pending
pub mod Decisions
pub mod Asking
use autohub.Base.{
  ℕ, ◌+◌, Bool, true, false, not, ◌&&◌, ◌||◌, Option, none, some, List, [], ◌∷◌, Result, ok, raise,
  raise_if, require, project_error, ◌>>=◌, ◌>>◌, if◌then◌else◌, ◌==◌, opt_is, is_some, is_none,
  first,
}
use autohub.Run.Model.{
  PipelineRun, blocked, is_final, Reason, decision_required, question_dismissed_reason,
}
use autohub.Run.Tables.{put_run}
use autohub.Run.Control.{stop_waiting}

pub data QuestionState : Type 0 where
  opened answered dismissed applied : QuestionState

pub record RunQuestion : Type 0 where
  pub id : ℕ
  pub pipeline_run_id : ℕ
  pub execution_attempt_id : Option ℕ
  pub head_sha : ℕ
  pub question : ℕ
  pub actor : ℕ
  pub source : ℕ
  pub state : QuestionState
  pub resolution : Option (ℕ × ℕ)

pub record RunAnswer : Type 0 where
  pub id : ℕ
  pub question_id : ℕ
  pub answer : ℕ
  pub actor : ℕ
  pub applied_attempt_id : Option ℕ

-- The tables that the interactions read and write.
pub record Desk : Type 0 where
  pub runs : List PipelineRun
  pub questions : List RunQuestion
  pub answers : List RunAnswer

abbrev pub is_pending : QuestionState → Bool
is_pending opened = true
is_pending answered = true
is_pending _ = false

abbrev pub pending_for : ℕ → RunQuestion → Bool
pending_for run_id q = q.pipeline_run_id == run_id && is_pending q.state

unfoldable pub find_run : Desk → ℕ → Option PipelineRun
find_run d id = first (λ r. r.id == id) d.runs

unfoldable pub find_question : Desk → ℕ → Option RunQuestion
find_question d id = first (λ q. q.id == id) d.questions

unfoldable pub find_answer : Desk → ℕ → Option RunAnswer
find_answer d id = first (λ a. a.id == id) d.answers

-- `pending`.
unfoldable pub pending : Desk → ℕ → Option RunQuestion
pending d run_id = first (pending_for run_id) d.questions

abbrev pub put_question : RunQuestion → List RunQuestion → List RunQuestion
put_question q [] = []
put_question q (p ∷ ps) = (if p.id == q.id then q else p) ∷ put_question q ps

-- `check_revision`.
abbrev pub check_revision : PipelineRun → (expected : ℕ) → Result (Unit {0})
check_revision run expected =
    raise_if (not (run.revision == expected)) 409
      "Run changed; reload before applying this decision"
    >> raise_if (is_final run.state) 409 "The run has ended; register replacement work instead"

abbrev pub run_found : Option PipelineRun → Result PipelineRun
run_found o = require o 404 "Run not found"

abbrev pub asked_run : PipelineRun → (question : ℕ) → (invalidate_lease : Bool) → PipelineRun
asked_run run question invalidate = record run {
  state = blocked;
  sdd_progress = stop_waiting run.sdd_progress;
  pause_reason = some (decision_required question);
  next_action_at = none;
  lease_owner = if invalidate then none else run.lease_owner;
  lease_token = if invalidate then none else run.lease_token;
  lease_expires_at = if invalidate then none else run.lease_expires_at;
  revision = run.revision + 1;
}

-- What `ask` is given: `attempt_id` is the run's latest attempt.
pub record Question : Type 0 where
  pub request_id : ℕ
  pub question : ℕ
  pub actor : ℕ
  pub source : ℕ
  pub head_sha : ℕ
  pub attempt_id : Option ℕ
  pub invalidate_lease : Bool

abbrev pub question_row : PipelineRun → Question → RunQuestion
question_row run q = record {
  id = q.request_id;
  pipeline_run_id = run.id;
  execution_attempt_id = q.attempt_id;
  head_sha = q.head_sha;
  question = q.question;
  actor = q.actor;
  source = q.source;
  state = opened;
  resolution = none;
}

abbrev pub same_question : RunQuestion → PipelineRun → Question → Bool
same_question row run q =
    row.pipeline_run_id == run.id
    && (row.question == q.question && (row.actor == q.actor && row.head_sha == q.head_sha))

abbrev pub asked_again : Desk → RunQuestion → PipelineRun → Question → Result (Desk × RunQuestion)
asked_again d row run q =
    raise_if (not (same_question row run q)) 409
      "Question request ID was already used for different content"
    >> ok (d, row)

abbrev pub asked_first : Desk → PipelineRun → Question → Result (Desk × RunQuestion)
asked_first d run q =
    raise_if (is_some (pending d run.id)) 409 "Answer or dismiss the existing question first"
    >> ok (
      record d {
        runs = put_run (asked_run run q.question q.invalidate_lease) d.runs;
        questions = question_row run q ∷ d.questions;
      },
      question_row run q,
    )

-- `ask` of interaction_service.py, on the run that the caller has locked.
unfoldable pub ask : Desk → PipelineRun → Question → Result (Desk × RunQuestion)
ask d run q = elim (find_question d q.request_id) [
  | some row ↦ asked_again d row run q
  | none ↦ asked_first d run q
]

pub record AnswerWrite : Type 0 where
  pub request_id : ℕ
  pub expected_revision : ℕ
  pub answer : ℕ

abbrev pub answer_row : (question_id : ℕ) → AnswerWrite → (actor : ℕ) → RunAnswer
answer_row question_id w actor = record {
  id = w.request_id;
  question_id = question_id;
  answer = w.answer;
  actor = actor;
  applied_attempt_id = none;
}

abbrev pub owned_by : Option RunQuestion → (run_id : ℕ) → Bool
owned_by none run_id = false
owned_by (some q) run_id = q.pipeline_run_id == run_id

abbrev pub answered_again :
    Desk
    → (run_id question_id : ℕ) → RunAnswer
    → AnswerWrite
    → (actor : ℕ) → Result (Desk × RunAnswer)
answered_again d run_id question_id row w actor =
    raise_if
      (not (row.question_id == question_id && (row.answer == w.answer && row.actor == actor))
        || not (owned_by (find_question d row.question_id) run_id))
      409 "Answer request ID conflict"
    >> ok (d, row)

-- The run's pending question, if it is the one that the operator read.
abbrev pub pending_question : Desk → (run_id question_id : ℕ) → Result RunQuestion
pending_question d run_id question_id = do
  q ← require (pending d run_id) 409 "Question is no longer pending"
  raise_if (not (q.id == question_id)) 409 "Question is no longer pending"
  ok q

abbrev pub answered_first :
    Desk
    → PipelineRun
    → (run_id question_id : ℕ) → AnswerWrite
    → (actor : ℕ) → Result (Desk × RunAnswer)
answered_first d run run_id question_id w actor = do
  check_revision run w.expected_revision
  q ← pending_question d run_id question_id
  ok (
    record {
      runs = put_run (record run { revision = run.revision + 1 }) d.runs;
      questions = put_question (record q { state = answered }) d.questions;
      answers = answer_row question_id w actor ∷ d.answers;
    },
    answer_row question_id w actor,
  )

-- `answer` of usecases/interactions.py.
unfoldable pub answer :
    Desk → (run_id question_id : ℕ) → AnswerWrite → (actor : ℕ) → Result (Desk × RunAnswer)
answer d run_id question_id w actor = run_found (find_run d run_id) >>= λ run.
    elim (find_answer d w.request_id) [
      | some row ↦ answered_again d run_id question_id row w actor
      | none ↦ answered_first d run run_id question_id w actor
    ]

-- `dismiss`.
unfoldable pub dismiss :
    Desk → (run_id question_id expected_revision reason actor : ℕ) → Result (Desk × RunQuestion)
dismiss d run_id question_id expected_revision reason actor = do
  run ← run_found (find_run d run_id)
  check_revision run expected_revision
  q ← pending_question d run_id question_id
  let q' = record q { state = dismissed; resolution = some (actor, reason) }
  ok (
    record d {
      runs =
          put_run
            (record run {
              pause_reason = some question_dismissed_reason;
              revision = run.revision + 1;
            })
            d.runs;
      questions = put_question q' d.questions;
    },
    q',
  )

abbrev pub answer_fits :
    Option RunQuestion → Option RunAnswer → Result (Option (RunQuestion × RunAnswer))
answer_fits (some q) (some a) =
    raise_if (not (a.question_id == q.id) || is_some a.applied_attempt_id) 409
      "Answer does not belong to the current pending question"
    >> ok (some (q, a))
answer_fits _ _ = raise (project_error 409 "Answer does not belong to the current pending question")

-- `response_for_resume`.
unfoldable pub response_for_resume :
    Desk → PipelineRun → (answer_id : Option ℕ) → Result (Option (RunQuestion × RunAnswer))
response_for_resume d run none =
    raise_if (is_some (pending d run.id)) 409
      "Select a saved answer or dismiss the pending question before resuming"
    >> ok none
response_for_resume d run (some answer_id) =
    answer_fits (pending d run.id) (find_answer d answer_id)
