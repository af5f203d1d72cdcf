-- ===== src/Run/Questions/Decisions.antt =====
-- usecases/interactions.py: decisions and the revision that each of them shows.
use autohub.Base.{
  ℕ, ◌≡◌, ◌+◌, refl, true, false, Option, none, some, List, [], ◌∷◌, arith, ◌==◌, first, Bool-cases,
  inl, inr, ok, raise, project_error, Result, ◌∙◌, sym, subst, bind_returned, ok_injective, ◌>>◌,
  ◌>>=◌, ap,
}
use autohub.Run.Model.{PipelineRun, is_final}
use autohub.Run.Tables.{put_run}
use autohub.Run.Tables.Rows.{first-put_run}
use autohub.Run.Questions.{
  Desk, RunAnswer, Question, ask, AnswerWrite, answer, answered_first, pending_question, dismiss,
  find_run, find_answer, run_found, check_revision,
}
use autohub.Run.Questions.Pending.{IsDesk, ask-IsDesk, answer-IsDesk, dismiss-IsDesk}

-- What an accepted first answer leaves of the runs and the answers.
record Answered (d d' : Desk) (run_id : ℕ) (w : AnswerWrite) : Type 0 where
  run : PipelineRun
  found : find_run d run_id ≡ some run
  shown : (run.revision == w.expected_revision) ≡ true
  runs_after : d'.runs ≡ put_run (record run { revision = run.revision + 1 }) d.runs

pub revision_shown :
    {B : Type 0} (run : PipelineRun) (expected : ℕ) (rest : Result B) {b : B}
    → (check_revision run expected >> rest) ≡ ok b
    → ((run.revision == expected) ≡ true) × (rest ≡ ok b)
revision_shown run expected rest h = elim (Bool-cases (run.revision == expected)) [
  | inr stale ↦ cc (rw stale at h)
  | inl fresh ↦ elim (Bool-cases (is_final run.state)) [
    | inl ended ↦ let h' = rw fresh at h in cc (rw ended at h')
    | inr open' ↦ let h' = rw fresh at h in (fresh, rw open' at h')
  ]
]

run_ok : (o : Option PipelineRun) {run : PipelineRun} → run_found o ≡ ok run → o ≡ some run
run_ok none h = cc
run_ok (some r) h = cc

answered_first-Answered :
    (d : Desk) (run : PipelineRun) (run_id question_id : ℕ) (w : AnswerWrite) (actor : ℕ)
    (x : Desk × RunAnswer)
    → find_run d run_id ≡ some run
    → answered_first d run run_id question_id w actor ≡ ok x
    → Answered d x.0 run_id w
answered_first-Answered d run run_id question_id w actor x found h =
    let (shown, rest) = revision_shown run w.expected_revision _ h in
    let (q, pends, done) = bind_returned (pending_question d run_id question_id) _ rest in
    record {
      run = run;
      found = found;
      shown = shown;
      runs_after = sym (ap (λ y. y.0.runs) (ok_injective done));
    }

answer-Answered :
    (d : Desk) (run_id question_id : ℕ) (w : AnswerWrite) (actor : ℕ) (x : Desk × RunAnswer)
    → find_answer d w.request_id ≡ none
    → answer d run_id question_id w actor ≡ ok x
    → Answered d x.0 run_id w
unfolding answer
answer-Answered d run_id question_id w actor x new h =
    let (run, found, rest) = bind_returned (run_found (find_run d run_id)) _ h in
    answered_first-Answered d run run_id question_id w actor x (run_ok (find_run d run_id) found)
      (rw new at rest)

run_after :
    (d d' : Desk) (run_id : ℕ) (run : PipelineRun)
    → find_run d run_id ≡ some run
    → d'.runs ≡ put_run (record run { revision = run.revision + 1 }) d.runs
    → find_run d' run_id ≡ some (record run { revision = run.revision + 1 })
unfolding find_run
run_after d d' run_id run found e =
    ap (first (λ r. r.id == run_id)) e
    ∙ first-put_run (record run { revision = run.revision + 1 }) run_id d.runs {old = run}
        (first_id d.runs found) found
  where
    first_id :
        (rows : List PipelineRun) → first (λ r. r.id == run_id) rows ≡ some run → run.id ≡ run_id
    first_id [] h = ground arith
    first_id (r ∷ rows) h = ground (arith, first_id rows)

-- The error of a decision that shows an old revision.
abbrev stale {ℓ} : {A : Type ℓ} → Result A
stale = raise (project_error 409 "Run changed; reload before applying this decision")

module _ (d : Desk) (run_id : ℕ) (run : PipelineRun) (expected : ℕ)
    (found : find_run d run_id ≡ some run) (old : (run.revision == expected) ≡ false) where
  stale_answer :
      (question_id : ℕ) (w : AnswerWrite) (actor : ℕ)
      → w.expected_revision ≡ expected
      → find_answer d w.request_id ≡ none
      → answer d run_id question_id w actor ≡ stale
  unfolding answer
  stale_answer question_id w actor same new = rw found (rw new (rw same (rw old refl)))

  stale-dismiss :
      (question_id reason actor : ℕ) → dismiss d run_id question_id expected reason actor ≡ stale
  unfolding dismiss
  stale-dismiss question_id reason actor = rw found (rw old refl)

-- After a first answer is saved, another new answer that shows the same revision of the run, and a
-- dismissal that shows it, are refused as stale, whatever question they name.
pub answer_once :
    (d : Desk) (run_id question_id : ℕ) (w : AnswerWrite) (actor : ℕ) (x : Desk × RunAnswer)
    (question_id' : ℕ) (w' : AnswerWrite) (reason actor' : ℕ)
    → find_answer d w.request_id ≡ none
    → answer d run_id question_id w actor ≡ ok x
    → w'.expected_revision ≡ w.expected_revision
    → find_answer x.0 w'.request_id ≡ none
    → (answer x.0 run_id question_id' w' actor'
        ≡ raise (project_error 409 "Run changed; reload before applying this decision"))
      × (dismiss x.0 run_id question_id' w.expected_revision reason actor'
          ≡ raise (project_error 409 "Run changed; reload before applying this decision"))
answer_once d run_id question_id w actor x question_id' w' reason actor' new h same new' =
    let a = answer-Answered d run_id question_id w actor x new h in
    let after = run_after d x.0 run_id a.run a.found a.runs_after in
    let old : (a.run.revision + 1 == w.expected_revision) ≡ false = ground (arith, a.shown) in
    let run' = record a.run { revision = a.run.revision + 1 } in
    (
      stale_answer x.0 run_id run' w.expected_revision after old question_id' w' actor' same new',
      stale-dismiss x.0 run_id run' w.expected_revision after old question_id' reason actor',
    )

-- What an operator or an agent does at the desk of a run.
pub data Decision : Type 0 where
  asks : (run : PipelineRun) (q : Question) → Decision
  answers : (run_id question_id : ℕ) (w : AnswerWrite) (actor : ℕ) → Decision
  dismisses : (run_id question_id expected reason actor : ℕ) → Decision

unfoldable pub decide : Desk → Decision → Result Desk
decide d (asks run q) = do x ← ask d run q; ok x.0
decide d (answers run_id question_id w actor) = do x ← answer d run_id question_id w actor; ok x.0
decide d (dismisses run_id question_id expected reason actor) = do
  x ← dismiss d run_id question_id expected reason actor
  ok x.0

-- Where each run has at most one pending question and questions have different ids, asking, answering
-- and dismissing a question, where they are accepted, keep it so.
pub decide-IsDesk :
    (d : Desk) (e : Decision) (d' : Desk) → IsDesk d → decide d e ≡ ok d' → IsDesk d'
unfolding decide
decide-IsDesk d (asks run q) d' c h =
    let (x, done, same) = bind_returned (ask d run q) _ h in
    subst IsDesk (ok_injective same) (ask-IsDesk d c run q x done)
decide-IsDesk d (answers run_id question_id w actor) d' c h =
    let (x, done, same) = bind_returned (answer d run_id question_id w actor) _ h in
    subst IsDesk (ok_injective same) (answer-IsDesk d c run_id question_id w actor x done)
decide-IsDesk d (dismisses run_id question_id expected reason actor) d' c h =
    let (x, done, same) = bind_returned (dismiss d run_id question_id expected reason actor) _ h in
    subst IsDesk (ok_injective same)
      (dismiss-IsDesk d c run_id question_id expected reason actor x done)
