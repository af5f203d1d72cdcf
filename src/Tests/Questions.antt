-- ===== src/Tests/Questions.antt =====
-- A blocked run with one open question, answered by its operator.
use autohub.Base.{
  ℕ, ◌≡◌, ◌≤◌, refl, true, none, some, [], ◌∷◌, raise, project_error, count, ◌==◌, arith,
}
use autohub.Run.Model.{blocked}
use autohub.Run.Questions.{
  Desk, RunQuestion, opened, answered, AnswerWrite, answer, dismiss, ask, find_run, find_answer,
  find_question, pending, answer_row, pending_for, question_row,
}
use autohub.Run.Questions.Pending.{IsDesk}
use autohub.Run.Questions.Asking
use autohub.Run.Questions.Decisions
use autohub.Run.Questions.Decisions.{Decision, answers, decide}
use autohub.Tests.Run.{run_of}

program : Unit {0}
unfolding answer dismiss ask find_run find_answer find_question pending decide
program = tt

abbrev question : RunQuestion
question = record {
  id = 8;
  pipeline_run_id = 1;
  execution_attempt_id = none;
  head_sha = 20;
  question = 21;
  actor = 22;
  source = 23;
  state = opened;
  resolution = none;
}

abbrev desk : Desk
desk = record { runs = run_of 1 blocked none ∷ []; questions = question ∷ []; answers = [] }

abbrev reply : (id : ℕ) → AnswerWrite
reply id = record { request_id = id; expected_revision = 3; answer = 31 }

abbrev answered_desk : Desk
answered_desk = record {
  runs = record (run_of 1 blocked none) { revision = 4 } ∷ [];
  questions = record question { state = answered } ∷ [];
  answers = answer_row 8 (reply 30) 22 ∷ [];
}

desk-IsDesk : IsDesk desk
desk-IsDesk = record { one_pending = one_pending_of; ids_unique = ids_unique_of }
  where
    one_pending_of : (run_id : ℕ) → count (pending_for run_id) desk.questions ≤ 1
    one_pending_of run_id = ground arith

    ids_unique_of : (id : ℕ) → count (λ q. q.id == id) desk.questions ≤ 1
    ids_unique_of id = ground arith

decide-IsDesk_example : IsDesk answered_desk
unfolding program
decide-IsDesk_example =
    Decisions.decide-IsDesk desk (answers 1 8 (reply 30) 22) answered_desk desk-IsDesk refl

answer_once_example :
    (answer answered_desk 1 8 (reply 40) 22
      ≡ raise (project_error 409 "Run changed; reload before applying this decision"))
    × (dismiss answered_desk 1 8 3 50 22
        ≡ raise (project_error 409 "Run changed; reload before applying this decision"))
unfolding program
answer_once_example =
    Decisions.answer_once desk 1 8 (reply 30) 22 (answered_desk, answer_row 8 (reply 30) 22) 8
      (reply 40) 50 22 refl refl refl refl

abbrev link : Asking.ProjectLink
link = record { revision = 1; github_connector_id = some 6; github_repository = some 5 }

abbrev pull : Asking.PullRead
pull = Asking.pull_read (record { is_open = true; head_ref = some 15; head_sha = some 77 })

abbrev quiet_desk : Desk
quiet_desk = record { runs = run_of 1 blocked none ∷ []; questions = []; answers = [] }

abbrev write : Asking.QuestionWrite
write = record { request_id = 60; expected_revision = 3; question = 61 }

ask_question-IsCurrent_example : Asking.IsCurrent quiet_desk link link 1 write pull (
    question_row (run_of 1 blocked none) (record {
      request_id = 60;
      question = 61;
      actor = 22;
      source = 23;
      head_sha = 77;
      attempt_id = some 2;
      invalidate_lease = true;
    }))
unfolding program Asking.ask_question
ask_question-IsCurrent_example =
    Asking.ask_question-IsCurrent quiet_desk quiet_desk link link 1 write 22 23 pull (1 ∷ 2 ∷ []) _
      refl refl refl
