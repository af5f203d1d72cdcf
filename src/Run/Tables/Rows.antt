-- ===== src/Run/Tables/Rows.antt =====
-- repos.py: what a flush changes, row by row.
use autohub.Base.{
  ℕ, ◌+◌, ◌≤◌, ◌≡◌, ◌≢◌, refl, Bool, true, false, ◌&&◌, Option, some, none, List, [], ◌∷◌, arith,
  ◌==◌, ltb, first, first_sat, count, select, All, ==_refl, Bool-cases, inl, inr, ◌⊎◌, sym,
}
use autohub.Run.Model.{PipelineRun, ExecutionAttempt}
use autohub.Run.Tables.{Tables, get_run, put_run, put_attempt, later, latest}

pub first-put_run :
    (r : PipelineRun) (id : ℕ) (rows : List PipelineRun) {old : PipelineRun}
    → r.id ≡ id
    → first (λ q. q.id == id) rows ≡ some old
    → first (λ q. q.id == id) (put_run r rows) ≡ some r
first-put_run r id [] e h = ground arith
first-put_run r id (q ∷ rows) {old = old} e h = ground (
  arith,
  λ (h' : first (λ q. q.id == id) rows ≡ some old). first-put_run r id rows {old = old} e h',
)

pub first-put_run_ne :
    (r : PipelineRun) (id : ℕ) (rows : List PipelineRun)
    → r.id ≢ id
    → first (λ q. q.id == id) (put_run r rows) ≡ first (λ q. q.id == id) rows
first-put_run_ne r id [] ne = refl
first-put_run_ne r id (q ∷ rows) ne = ground (arith, first-put_run_ne r id rows ne)

pub get_run-id : (t : Tables) (id : ℕ) (r : PipelineRun) → get_run t id ≡ some r → r.id ≡ id
unfolding get_run
get_run-id t id r h = ground (arith, first_sat (λ q. q.id == id) t.runs r h)

pub All-put_run :
    (P : PipelineRun → Type 0) (r : PipelineRun) (rows : List PipelineRun)
    → All P rows
    → P r
    → All P (put_run r rows)
All-put_run P r [] a h = tt
All-put_run P r (q ∷ rows) a h = elim (Bool-cases (q.id == r.id)) [
  | inl same ↦ rw same (h, All-put_run P r rows a.1 h)
  | inr other ↦ rw other (a.0, All-put_run P r rows a.1 h)
]

later_cases :
    (b : ExecutionAttempt) (o : Option ExecutionAttempt) {a : ExecutionAttempt}
    → later b o ≡ some a
    → (a ≡ b) ⊎ (o ≡ some a)
later_cases b none h = inl (cc)
later_cases b (some c) {a} h = elim (Bool-cases (ltb c.attempt_number b.attempt_number)) [
  | inl more ↦ inl (some_eq (sym (rw more at h)))
  | inr less ↦ inr (rw less at h)
]
  where
    some_eq : {x y : ExecutionAttempt} → some x ≡ some y → x ≡ y
    some_eq e = cc

-- The attempt that a test admits and that `latest` picks is a row that passes the test.
pub latest-select :
    (p : ExecutionAttempt → Bool) (rows : List ExecutionAttempt) (a : ExecutionAttempt)
    → latest (select p rows) ≡ some a
    → (p a ≡ true) × (1 ≤ count (λ b. p b && b.id == a.id) rows)
latest-select p [] a h = ground arith
latest-select p (b ∷ rows) a h = elim (Bool-cases (p b)) [
  | inl passes ↦ elim (later_cases b (latest (select p rows)) (rw passes at h)) [
    | inl same ↦ rw same (passes, rw passes (rw (==_refl b.id) (omega arith)))
    | inr rest ↦ let (ok_a, found) = latest-select p rows a rest in (ok_a, ground arith)
  ]
  | inr fails ↦ let (ok_a, found) = latest-select p rows a (rw fails at h) in (ok_a, ground arith)
]

later-ne-none : (b : ExecutionAttempt) (o : Option ExecutionAttempt) → later b o ≢ none
later-ne-none b none h = cc
later-ne-none b (some c) h = ground arith

pub latest-select-none :
    (p : ExecutionAttempt → Bool) (rows : List ExecutionAttempt)
    → latest (select p rows) ≡ none
    → count p rows ≡ 0
latest-select-none p [] h = refl
latest-select-none p (b ∷ rows) h = elim (Bool-cases (p b)) [
  | inl passes ↦ absurd (later-ne-none b (latest (select p rows)) (rw passes at h))
  | inr fails ↦ rw fails (latest-select-none p rows (rw fails at h))
]

-- Closing an attempt takes its rows out of the count of open ones.
pub count-put_attempt_closed :
    (p : ExecutionAttempt → Bool) (a : ExecutionAttempt) (rows : List ExecutionAttempt)
    → p a ≡ false
    → count p (put_attempt a rows) + count (λ b. p b && b.id == a.id) rows ≡ count p rows
count-put_attempt_closed p a [] h = refl
count-put_attempt_closed p a (b ∷ rows) h = ground (arith, count-put_attempt_closed p a rows h)

-- Where ids are unique, changing a row that passes a test adds none that pass it.
pub count-put_attempt_same :
    (p : ExecutionAttempt → Bool) (a : ExecutionAttempt) (rows : List ExecutionAttempt)
    → count p (put_attempt a rows) + count (λ b. p b && b.id == a.id) rows
      ≤ count p rows + count (λ b. b.id == a.id) rows
count-put_attempt_same p a [] = omega arith
count-put_attempt_same p a (b ∷ rows) = ground (arith, count-put_attempt_same p a rows)

pub count-put_attempt_ids :
    (a : ExecutionAttempt) (id : ℕ) (rows : List ExecutionAttempt)
    → count (λ b. b.id == id) (put_attempt a rows) ≡ count (λ b. b.id == id) rows
count-put_attempt_ids a id [] = refl
count-put_attempt_ids a id (b ∷ rows) = ground (arith, count-put_attempt_ids a id rows)
