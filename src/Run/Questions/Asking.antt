-- ===== src/Run/Questions/Asking.antt =====
-- usecases/interactions.py, `ask`: a question is recorded in two transactions, with a read of the pull
-- request on GitHub between them. `before` and `after` are the tables that each of them meets.
use autohub.Base.{
  ℕ, ◌≡◌, Bool, true, false, not, ◌&&◌, ◌||◌, Option, none, some, List, [], ◌∷◌, ◌⊎◌, inl, inr,
  Result, ok, raise, raise_if, require, project_error, ◌>>=◌, ◌>>◌, ◌==◌, opt_is, bind_returned,
  raise_if_passed, arith, ok_injective, ap, subst, is_some, sym, ◌∙◌,
}
use autohub.Run.Model.{PipelineRun}
use autohub.Run.Questions.Decisions.{revision_shown}
use autohub.Run.Questions.{
  Desk, RunQuestion, Question, asked_first, pending, find_run, find_question, run_found,
  check_revision, ask,
}

-- The request of an operator.
pub record QuestionWrite : Type 0 where
  pub request_id : ℕ
  pub expected_revision : ℕ
  pub question : ℕ

-- A row of `projects`, as far as this code reads it.
pub record ProjectLink : Type 0 where
  pub revision : ℕ
  pub github_connector_id : Option ℕ
  pub github_repository : Option ℕ

-- GitHub's answer; `is_open` is `state == "open"`.
pub record PullView : Type 0 where
  pub is_open : Bool
  pub head_ref : Option ℕ
  pub head_sha : Option ℕ

pub data PullRead : Type 0 where
  pull_read : PullView → PullRead
  read_timed_out read_failed : PullRead

abbrev pub same_write : RunQuestion → (run_id : ℕ) → QuestionWrite → (actor : ℕ) → Bool
same_write row run_id w actor =
    row.pipeline_run_id == run_id && (row.question == w.question && row.actor == actor)

abbrev pub seen_before :
    RunQuestion → (run_id : ℕ) → QuestionWrite → (actor : ℕ) → Result RunQuestion
seen_before row run_id w actor =
    raise_if (not (same_write row run_id w actor)) 409 "Question request ID conflict" >> ok row

-- `a and a != b`.
abbrev pub differs : Option ℕ → ℕ → Bool
differs none b = false
differs (some a) b = not (a == b)

abbrev pub is_unlinked : ProjectLink → PipelineRun → Bool
is_unlinked project run = unlinked project.github_connector_id project.github_repository
  where
    unlinked : Option ℕ → Option ℕ → Bool
    unlinked (some connector) (some repository) =
        differs run.github_repository repository || differs run.github_connector_id connector
    unlinked _ _ = true

-- The first transaction: a question that is there already, or the project's revision.
abbrev pub opening :
    Desk → ProjectLink → (run_id : ℕ) → QuestionWrite → (actor : ℕ) → Result (RunQuestion ⊎ ℕ)
opening d project run_id w actor = run_found (find_run d run_id) >>= λ run.
    elim (find_question d w.request_id) [
      | some row ↦ seen_before row run_id w actor >>= λ q. ok (inl q)
      | none ↦
          check_revision run w.expected_revision
          >> (raise_if (is_unlinked project run) 409
                "Restore the run's GitHub connection before asking a question"
              >> ok (inr project.revision))
    ]

abbrev pub read_pull : PullRead → Result PullView
read_pull (pull_read pull) = ok pull
read_pull read_timed_out = raise (project_error 504 "Pull request read exceeded its time budget")
read_pull read_failed =
    raise (project_error 502 "Could not read the pull request before recording a question")

-- `attempts[-1].id if attempts else None`.
abbrev pub last_id : List ℕ → Option ℕ
last_id [] = none
last_id (a ∷ []) = some a
last_id (a ∷ b ∷ rest) = last_id (b ∷ rest)

-- The second transaction, for a question that is not there yet. `source` is "operator".
abbrev pub record_question :
    Desk
    → ProjectLink
    → PipelineRun
    → QuestionWrite
    → (actor source revision : ℕ) → PullView
    → List ℕ
    → Result (Desk × RunQuestion)
record_question d project run w actor source revision pull attempts = do
  check_revision run w.expected_revision
  raise_if
      (not (project.revision == revision)
        || (not pull.is_open || not (opt_is pull.head_ref run.branch)))
      409 "Project or pull request changed; reload before asking"
  head ← require pull.head_sha 502 "GitHub returned no pull request head"
  ask d run (record {
    request_id = w.request_id;
    question = w.question;
    actor = actor;
    source = source;
    head_sha = head;
    attempt_id = last_id attempts;
    invalidate_lease = true;
  })

abbrev pub closing :
    Desk
    → ProjectLink
    → (run_id : ℕ) → QuestionWrite
    → (actor source revision : ℕ) → PullView
    → List ℕ
    → Result (Desk × RunQuestion)
closing d project run_id w actor source revision pull attempts =
    run_found (find_run d run_id) >>= λ run. elim (find_question d w.request_id) [
      | some row ↦ seen_before row run_id w actor >>= λ q. ok (d, q)
      | none ↦ record_question d project run w actor source revision pull attempts
    ]

abbrev pub resumed :
    RunQuestion ⊎ ℕ
    → Desk
    → Desk
    → ProjectLink
    → (run_id : ℕ) → QuestionWrite
    → (actor source : ℕ) → PullRead
    → List ℕ
    → Result (Desk × RunQuestion)
resumed (inl row) before after project run_id w actor source read attempts = ok (before, row)
resumed (inr revision) before after project run_id w actor source read attempts = do
  pull ← read_pull read
  closing after project run_id w actor source revision pull attempts

unfoldable pub ask_question :
    (before after : Desk)
    → (project_before project_after : ProjectLink) → (run_id : ℕ) → QuestionWrite
    → (actor source : ℕ) → PullRead
    → List ℕ
    → Result (Desk × RunQuestion)
ask_question before after project_before project_after run_id w actor source read attempts = do
  start ← opening before project_before run_id w actor
  resumed start before after project_after run_id w actor source read attempts

-- What a new question was recorded on: an open run at the revision that the operator saw, the project
-- as it was before the read, and the open pull request of the run's branch, at the head recorded.
pub record IsCurrent (after : Desk) (project_before project_after : ProjectLink) (run_id : ℕ)
    (w : QuestionWrite) (read : PullRead) (row : RunQuestion) : Type 0 where
  pub run : PipelineRun
  pub pull : PullView
  pub found : find_run after run_id ≡ some run
  pub at_revision : (run.revision == w.expected_revision) ≡ true
  pub project_kept : (project_after.revision == project_before.revision) ≡ true
  pub was_read : read ≡ pull_read pull
  pub still_open : pull.is_open ≡ true
  pub own_branch : opt_is pull.head_ref run.branch ≡ true
  pub head_recorded : pull.head_sha ≡ some row.head_sha

run_ok : (o : Option PipelineRun) {run : PipelineRun} → run_found o ≡ ok run → o ≡ some run
run_ok none h = cc
run_ok (some r) h = cc

head_ok :
    (o : Option ℕ) {head : ℕ}
    → require o 502 "GitHub returned no pull request head" ≡ ok head
    → o ≡ some head
head_ok none h = cc
head_ok (some r) h = cc

read_ok : (r : PullRead) {pull : PullView} → read_pull r ≡ ok pull → r ≡ pull_read pull
read_ok (pull_read p) h = ap pull_read (ok_injective h)
read_ok read_timed_out h = cc
read_ok read_failed h = cc

ask_new :
    (d : Desk) (run : PipelineRun) (q : Question)
    → find_question d q.request_id ≡ none
    → ask d run q ≡ asked_first d run q
unfolding ask
ask_new d run q new = ground arith

ask_head :
    (d : Desk) (run : PipelineRun) (q : Question) (x : Desk × RunQuestion)
    → find_question d q.request_id ≡ none
    → ask d run q ≡ ok x
    → q.head_sha ≡ x.1.head_sha
ask_head d run q x new h =
    ap (λ y. y.1.head_sha)
      (ok_injective (
        (raise_if_passed (is_some (pending d run.id)) 409
          "Answer or dismiss the existing question first" _ (sym (ask_new d run q new) ∙ h)).1))

module _ (before after : Desk) (project_before project_after : ProjectLink) (run_id : ℕ)
    (w : QuestionWrite) (actor source : ℕ) (read : PullRead) (attempts : List ℕ)
    (new : find_question after w.request_id ≡ none) where
  closing-IsCurrent :
      (pull : PullView) (x : Desk × RunQuestion)
      → read ≡ pull_read pull
      → closing after project_after run_id w actor source project_before.revision pull attempts
        ≡ ok x
      → IsCurrent after project_before project_after run_id w read x.1
  closing-IsCurrent pull x was_read h =
      let (run, found, rest0) = bind_returned (run_found (find_run after run_id)) _ h in
      let rest : record_question after project_after run w actor source project_before.revision pull
            attempts
          ≡ ok x =
        rw new at rest0 in
      let (shown, rest1) = revision_shown run w.expected_revision _ rest in
      let (kept, rest2) =
        raise_if_passed
          (not (project_after.revision == project_before.revision)
            || (not pull.is_open || not (opt_is pull.head_ref run.branch)))
          _ _ _ rest1 in
      let (head, has_head, done) =
        bind_returned (require pull.head_sha 502 "GitHub returned no pull request head") _ rest2 in
      let guards =
        three (project_after.revision == project_before.revision) pull.is_open
          (opt_is pull.head_ref run.branch) kept in
      record {
        run = run;
        pull = pull;
        found = run_ok (find_run after run_id) found;
        at_revision = shown;
        project_kept = guards.0;
        was_read = was_read;
        still_open = guards.1;
        own_branch = guards.2;
        head_recorded = head_ok pull.head_sha has_head ∙ ap some (ask_head after run _ x new done);
      }
    where
      three :
          (a b c : Bool)
          → (not a || (not b || not c)) ≡ false
          → (a ≡ true) × (b ≡ true) × (c ≡ true)
      three a b c h = ground arith

  -- The opening lets a request through only where its question is not there.
  opening_first :
      (start : RunQuestion ⊎ ℕ)
      → find_question before w.request_id ≡ none
      → opening before project_before run_id w actor ≡ ok start
      → start ≡ inr project_before.revision
  opening_first start absent' h =
      let (run, found, rest0) = bind_returned (run_found (find_run before run_id)) _ h in
      let rest : (check_revision run w.expected_revision
            >> (raise_if (is_unlinked project_before run) 409
                  "Restore the run's GitHub connection before asking a question"
                >> ok (inr project_before.revision)))
          ≡ ok start =
        rw absent' at rest0 in
      let (shown, rest1) = revision_shown run w.expected_revision _ rest in
      let (linked, done) = raise_if_passed (is_unlinked project_before run) _ _ _ rest1 in
      sym (ok_injective done)

-- A new question, of a request that neither transaction has seen before, is recorded only on what is
-- current in the second one: the run at the revision that the operator saw, the project at the
-- revision it had before the read, and the open pull request of the run's branch, whose head the
-- question carries.
pub ask_question-IsCurrent :
    (before after : Desk) (project_before project_after : ProjectLink) (run_id : ℕ)
    (w : QuestionWrite) (actor source : ℕ) (read : PullRead) (attempts : List ℕ)
    (x : Desk × RunQuestion)
    → find_question before w.request_id ≡ none
    → find_question after w.request_id ≡ none
    → ask_question before after project_before project_after run_id w actor source read attempts
      ≡ ok x
    → IsCurrent after project_before project_after run_id w read x.1
unfolding ask_question
ask_question-IsCurrent before after project_before project_after run_id w actor source read attempts
      x absent' new h =
    let (start, opened', rest0) =
      bind_returned (opening before project_before run_id w actor) _ h in
    let first' =
      opening_first before after project_before project_after run_id w actor source read attempts
        new start absent' opened' in
    let rest : resumed (inr project_before.revision) before after project_after run_id w actor
          source read attempts
        ≡ ok x =
      subst (λ s. resumed s before after project_after run_id w actor source read attempts ≡ ok x)
        first' rest0 in
    let (pull, was_read, done) = bind_returned (read_pull read) _ rest in
    closing-IsCurrent before after project_before project_after run_id w actor source read attempts
      new pull x (read_ok read was_read) done
