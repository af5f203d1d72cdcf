-- ===== src/Run/Questions/Pending.antt =====
-- interaction_service.py and usecases/interactions.py: the questions that a run waits for.
use autohub.Base.{
  String, ◌⊎◌, ℕ, ◌≡◌, ◌≤◌, ◌+◌, refl, Bool, true, false, not, ◌&&◌, ◌||◌, Option, none, some, List,
  [], ◌∷◌, arith, ◌==◌, count, first, Bool-cases, Option-cases, inl, inr, ok, Result, ==_refl, ◌∙◌,
  sym, subst, bind_returned, raise_if_passed, ok_injective, is_some, require, ◌>>◌, some_injective,
}
use autohub.Run.Model.{PipelineRun, is_final}
use autohub.Run.Questions.{
  Desk, RunQuestion, RunAnswer, answered, dismissed, pending_for, pending, put_question, Question,
  question_row, ask, owned_by, asked_again, asked_first, same_question, AnswerWrite, answer,
  answered_again, answered_first, pending_question, dismiss, find_question, find_answer, find_run,
  run_found, check_revision,
}

pub record IsDesk (d : Desk) : Type 0 where
  pub one_pending : (run_id : ℕ) → count (pending_for run_id) d.questions ≤ 1
  pub ids_unique : (id : ℕ) → count (λ q. q.id == id) d.questions ≤ 1

module _ (p : RunQuestion → Bool) where
  first-none : (rows : List RunQuestion) → first p rows ≡ none → count p rows ≡ 0
  first-none [] h = refl
  first-none (q ∷ rows) h = ground (arith, first-none rows)

  -- The question that a query finds is a row that passes.
  first-some :
      (rows : List RunQuestion) (q : RunQuestion)
      → first p rows ≡ some q
      → (p q ≡ true) × (1 ≤ count (λ r. p r && r.id == q.id) rows)
  first-some [] q h = ground arith
  first-some (r ∷ rows) q h = elim (Bool-cases (p r)) [
    | inl passes ↦
        let same : r ≡ q = some_injective (rw passes at h) in
        subst (λ x. (p x ≡ true) × (1 ≤ count (λ y. p y && y.id == x.id) (r ∷ rows))) same
          (passes, rw passes (rw (==_refl r.id) (omega arith)))
    | inr fails ↦
        let (passes, counted) = first-some rows q (rw fails at h) in (passes, rw fails counted)
  ]

  count-put_other :
      (q : RunQuestion) (rows : List RunQuestion)
      → p q ≡ false
      → count p (put_question q rows) ≤ count p rows
  count-put_other q [] h = omega arith
  count-put_other q (r ∷ rows) h = ground (arith, count-put_other q rows h)

  count-put_same :
      (q : RunQuestion) (rows : List RunQuestion)
      → count p (put_question q rows) + count (λ r. p r && r.id == q.id) rows
        ≤ count p rows + count (λ r. r.id == q.id) rows
  count-put_same q [] = omega arith
  count-put_same q (r ∷ rows) = ground (arith, count-put_same q rows)

count-put_ids :
    (q : RunQuestion) (id : ℕ) (rows : List RunQuestion)
    → count (λ r. r.id == id) (put_question q rows) ≡ count (λ r. r.id == id) rows
count-put_ids q id [] = refl
count-put_ids q id (r ∷ rows) = ground (arith, count-put_ids q id rows)

-- A pending question of a run, as the queries find it.
pub pending_found :
    (d : Desk) (run_id : ℕ) (q : RunQuestion)
    → pending d run_id ≡ some q
    → (pending_for run_id q ≡ true)
      × (1 ≤ count (λ r. pending_for run_id r && r.id == q.id) d.questions)
unfolding pending
pending_found d run_id q h = first-some (pending_for run_id) d.questions q h

required :
    {o : Option RunQuestion} (status : ℕ) (detail : String) {q : RunQuestion}
    → require o status detail ≡ ok q
    → o ≡ some q
required {o = none} status detail h = cc
required {o = some j} status detail h = cc

pub pending_question_found :
    (d : Desk) (run_id question_id : ℕ) (q : RunQuestion)
    → pending_question d run_id question_id ≡ ok q
    → (pending d run_id ≡ some q) × (q.id ≡ question_id)
pending_question_found d run_id question_id q h =
    let (r, found, rest) =
      bind_returned (require (pending d run_id) 409 "Question is no longer pending") _ h in
    let (mine, done) = raise_if_passed (not (r.id == question_id)) _ _ _ rest in
    subst (λ x. (pending d run_id ≡ some x) × (x.id ≡ question_id)) (ok_injective done)
      (required _ _ found, ground (arith, mine))

-- A decision that a revision check admits goes on.
checked :
    {B : Type 0} (run : PipelineRun) (expected : ℕ) (rest : Result B) {b : B}
    → (check_revision run expected >> rest) ≡ ok b
    → rest ≡ ok b
checked run expected rest h = elim (Bool-cases (not (run.revision == expected))) [
  | inl stale ↦ cc (rw stale at h)
  | inr fresh ↦ elim (Bool-cases (is_final run.state)) [
    | inl ended ↦ let h' = rw fresh at h in cc (rw ended at h')
    | inr open' ↦ let h' = rw fresh at h in rw open' at h'
  ]
]

module _ (d : Desk) (c : IsDesk d) where
  -- A question that is settled, or answered, takes no other run's place.
  put-IsDesk :
      (runs : List PipelineRun) (answers : List RunAnswer) (run_id : ℕ) (q q' : RunQuestion)
      → pending d run_id ≡ some q
      → q'.id ≡ q.id
      → q'.pipeline_run_id ≡ q.pipeline_run_id
      → IsDesk (record { runs = runs; questions = put_question q' d.questions; answers = answers })
  put-IsDesk runs answers run_id q q' found ids same_run =
      let (passes, counted) = pending_found d run_id q found in
      record {
        one_pending = λ k. one_for k (Bool-cases (pending_for k q')) passes counted;
        ids_unique = λ k. omega (arith, count-put_ids q' k d.questions, c.ids_unique k);
      }
    where
      one_for :
          (k : ℕ)
          → (pending_for k q' ≡ true) ⊎ (pending_for k q' ≡ false)
          → pending_for run_id q ≡ true
          → 1 ≤ count (λ r. pending_for run_id r && r.id == q.id) d.questions
          → count (pending_for k) (put_question q' d.questions) ≤ 1
      one_for k (inr closed) passes counted =
          omega (arith, count-put_other (pending_for k) q' d.questions closed, c.one_pending k)
      one_for k (inl still) passes counted =
          let same_k : run_id ≡ k = ground arith in
          let counted' =
            subst (λ i. 1 ≤ count (λ r. pending_for k r && r.id == i) d.questions) (sym ids)
              (subst (λ j. 1 ≤ count (λ r. pending_for j r && r.id == q.id) d.questions) same_k
                counted) in
          omega (
            arith,
            count-put_same (pending_for k) q' d.questions,
            counted',
            c.one_pending k,
            c.ids_unique q'.id,
          )

  pub answer-IsDesk :
      (run_id question_id : ℕ) (w : AnswerWrite) (actor : ℕ) (x : Desk × RunAnswer)
      → answer d run_id question_id w actor ≡ ok x
      → IsDesk x.0
  unfolding answer
  answer-IsDesk run_id question_id w actor x h =
      let (run, found, rest) = bind_returned (run_found (find_run d run_id)) _ h in
      elim (Option-cases (find_answer d w.request_id)) [
        | inl new ↦ first_answer run x (rw new at rest)
        | inr (row, seen) ↦ again row x (rw seen at rest)
      ]
    where
      again :
          (row : RunAnswer) (x : Desk × RunAnswer)
          → answered_again d run_id question_id row w actor ≡ ok x
          → IsDesk x.0
      again row x h =
          subst (λ y. IsDesk y.0)
            (ok_injective (
              (raise_if_passed
                (not (
                    row.question_id == question_id
                    && (row.answer == w.answer && row.actor == actor))
                  || not (owned_by (find_question d row.question_id) run_id))
                409 "Answer request ID conflict" (ok (d, row)) h).1))
            c

      first_answer :
          (run : PipelineRun) (x : Desk × RunAnswer)
          → answered_first d run run_id question_id w actor ≡ ok x
          → IsDesk x.0
      first_answer run x h =
          let (q, found, done) =
            bind_returned (pending_question d run_id question_id) _
              (checked run w.expected_revision _ h) in
          subst (λ y. IsDesk y.0) (ok_injective done)
            (put-IsDesk _ _ run_id q (record q { state = answered })
              (pending_question_found d run_id question_id q found).0 refl refl)

  pub dismiss-IsDesk :
      (run_id question_id expected reason actor : ℕ) (x : Desk × RunQuestion)
      → dismiss d run_id question_id expected reason actor ≡ ok x
      → IsDesk x.0
  unfolding dismiss
  dismiss-IsDesk run_id question_id expected reason actor x h =
      let (run, _, rest) = bind_returned (run_found (find_run d run_id)) _ h in
      let (q, found, done) =
        bind_returned (pending_question d run_id question_id) _ (checked run expected _ rest) in
      subst (λ y. IsDesk y.0) (ok_injective done)
        (put-IsDesk _ _ run_id q (record q { state = dismissed; resolution = some (actor, reason) })
          (pending_question_found d run_id question_id q found).0 refl refl)

  asked-IsDesk :
      (run : PipelineRun) (q : Question)
      → first (λ r. r.id == q.request_id) d.questions ≡ none
      → first (pending_for run.id) d.questions ≡ none
      → (runs : List PipelineRun)
      → IsDesk (record d { runs = runs; questions = question_row run q ∷ d.questions })
  asked-IsDesk run q new free runs =
      let none_pending = first-none (pending_for run.id) d.questions free in
      let none_named = first-none (λ r. r.id == q.request_id) d.questions new in
      record {
        one_pending = λ k. ground (arith, c.one_pending k, none_pending);
        ids_unique = λ k. ground (arith, c.ids_unique k, none_named);
      }

  ask_again_eq :
      (run : PipelineRun) (q : Question) (row : RunQuestion)
      → find_question d q.request_id ≡ some row
      → ask d run q ≡ asked_again d row run q
  unfolding ask
  ask_again_eq run q row seen = ground arith

  ask_first_eq :
      (run : PipelineRun) (q : Question)
      → find_question d q.request_id ≡ none
      → ask d run q ≡ asked_first d run q
  unfolding ask
  ask_first_eq run q new = ground arith

  is_none_of : {o : Option RunQuestion} → is_some o ≡ false → o ≡ none
  is_none_of {o = none} h = refl
  is_none_of {o = some q} h = cc

  pub ask-IsDesk :
      (run : PipelineRun) (q : Question) (x : Desk × RunQuestion) → ask d run q ≡ ok x → IsDesk x.0
  ask-IsDesk run q x h = elim (Option-cases (find_question d q.request_id)) [
    | inr (row, seen) ↦
        subst (λ y. IsDesk y.0)
          (ok_injective (
            (raise_if_passed (not (same_question row run q)) 409
              "Question request ID was already used for different content" (ok (d, row))
              (sym (ask_again_eq run q row seen) ∙ h)).1))
          c
    | inl new ↦
        let (free, done) =
          raise_if_passed (is_some (pending d run.id)) 409
            "Answer or dismiss the existing question first" _ (sym (ask_first_eq run q new) ∙ h) in
        subst (λ y. IsDesk y.0) (ok_injective done)
          (asked-IsDesk run q (unfold find_question in new) (unfold pending in is_none_of free) _)
  ]
