-- ===== src/Run/Consistency.antt =====
-- pipeline_runs/repos.py: an invariant of the tables of runs and attempts, and the flushes that the
-- operations make.
pub mod Steps
pub mod Final
pub mod Observed
pub mod Planned
use autohub.Base.{
  ℕ, suc, ◌+◌, ◌≤◌, ◌<◌, ◌≡◌, ◌≢◌, refl, ◌∙◌, sym, Bool, true, false, Option, some, none, List, [],
  ◌∷◌, ok, arith, Result, raise, ◌==◌, subst, ◌&&◌, if◌then◌else◌, All, count, bind_returned,
  Bool-cases, Option-cases, inl, inr, first, ℕ_discrete, ==_iff,
}
use autohub.Run.Model.{PipelineRun, PipelineRunState, ExecutionAttempt, is_final, is_open}
use autohub.Run.Transitions.{map_attempt}
use autohub.Run.Tables.{
  Tables, get_run, put_run, put_attempt, open_for, active_attempt, flush, put_optional, get_attempt,
}
use autohub.Run.Tables.Rows.{
  latest-select, latest-select-none, count-put_attempt_closed, count-put_attempt_same,
  count-put_attempt_ids, get_run-id,
}

abbrev pub open_count : ℕ → List ExecutionAttempt → ℕ
open_count run_id attempts = count (open_for run_id) attempts

-- How many attempts of a run may be open.
abbrev pub capacity : PipelineRunState → ℕ
capacity s = if is_final s then 0 else 1

abbrev pub Settled : List ExecutionAttempt → PipelineRun → Type 0
Settled attempts run = open_count run.id attempts ≤ capacity run.state

pub record IsConsistent (t : Tables) : Type 0 where
  pub settled : All (Settled t.attempts) t.runs
  pub ids_unique : (id : ℕ) → count (λ a. a.id == id) t.attempts ≤ 1

-- A run that a query finds is one of the rows.
settled_run :
    (attempts : List ExecutionAttempt) (rows : List PipelineRun) (id : ℕ) (run : PipelineRun)
    → All (Settled attempts) rows
    → first (λ r. r.id == id) rows ≡ some run
    → Settled attempts run
settled_run attempts [] id run a h = ground arith
settled_run attempts (r ∷ rows) id run a h = elim (Bool-cases (r.id == id)) [
  | inl here ↦ rw (← some_eq (rw here at h)) a.0
  | inr there ↦ settled_run attempts rows id run a.1 (rw there at h)
]
  where
    some_eq : {x y : PipelineRun} → some x ≡ some y → x ≡ y
    some_eq e = cc

-- The flush of one run: its own count fits its new state, and no other run gains an open attempt.
pub settled_flush :
    (attempts attempts' : List ExecutionAttempt) (r : PipelineRun) (rows : List PipelineRun)
    → All (Settled attempts) rows
    → Settled attempts' r
    → ((id : ℕ) → id ≢ r.id → open_count id attempts' ≤ open_count id attempts)
    → All (Settled attempts') (put_run r rows)
settled_flush attempts attempts' r [] a h rest = tt
settled_flush attempts attempts' r (q ∷ rows) a h rest = elim (ℕ_discrete q.id r.id) [
  | yes same ↦
      rw ((==_iff q.id r.id).1 same) (h, settled_flush attempts attempts' r rows a.1 h rest)
  | no other ↦
      let test : (q.id == r.id) ≡ false = ground arith in
      let fits : Settled attempts' q = omega (arith, rest q.id other, a.0) in
      rw test (fits, settled_flush attempts attempts' r rows a.1 h rest)
]

capacity_le : (s : PipelineRunState) → capacity s ≤ 1
capacity_le s = ground arith

-- The flush of a run with an attempt of the run that is closed afterwards, and was open before.
module _ (t : Tables) (c : IsConsistent t) (id : ℕ) (run r : PipelineRun)
    (found : get_run t id ≡ some run) (same : r.id ≡ run.id) where
  settled_found : Settled t.attempts run
  unfolding get_run
  settled_found = settled_run t.attempts t.runs id run c.settled found

  -- No attempt changes.
  pub flush_run-IsConsistent : capacity run.state ≤ capacity r.state → IsConsistent (flush t r none)
  flush_run-IsConsistent le = record {
    settled =
        settled_flush t.attempts t.attempts r t.runs c.settled
          (rw same (omega (arith, settled_found, le))) (λ _ _. omega arith);
    ids_unique = c.ids_unique;
  }

  -- The open attempt is closed.
  pub flush_closed-IsConsistent :
      (a a' : ExecutionAttempt)
      → 1 ≤ count (λ b. open_for run.id b && b.id == a.id) t.attempts
      → a'.id ≡ a.id
      → is_open a'.state ≡ false
      → IsConsistent (flush t r (some a'))
  flush_closed-IsConsistent a a' counted ids closed =
      let closed_for : (k : ℕ) → open_for k a' ≡ false = λ k. ground arith in
      let counted' =
        subst (λ k. 1 ≤ count (λ b. open_for run.id b && b.id == k) t.attempts) (sym ids) counted in
      let emptied : open_count run.id (put_attempt a' t.attempts) ≡ 0 = omega (
        arith,
        count-put_attempt_closed (open_for run.id) a' t.attempts (closed_for run.id),
        counted',
        settled_found,
        capacity_le run.state,
      ) in
      record {
        settled =
            settled_flush t.attempts (put_attempt a' t.attempts) r t.runs c.settled
              (rw same (rw emptied (omega arith)))
              (λ k _.
                omega (arith, count-put_attempt_closed (open_for k) a' t.attempts (closed_for k)));
        ids_unique = λ k. omega (arith, count-put_attempt_ids a' k t.attempts, c.ids_unique k);
      }

  -- The open attempt stays open.
  flush_open-IsConsistent :
      (a a' : ExecutionAttempt)
      → active_attempt t run.id ≡ some a
      → a'.id ≡ a.id
      → a'.pipeline_run_id ≡ a.pipeline_run_id
      → capacity r.state ≡ 1
      → IsConsistent (flush t r (some a'))
  unfolding active_attempt
  flush_open-IsConsistent a a' active ids runs cap =
      let (passes, counted) = latest-select (open_for run.id) t.attempts a active in
      let counted' =
        subst (λ k. 1 ≤ count (λ b. open_for run.id b && b.id == k) t.attempts) (sym ids) counted in
      let other : (k : ℕ) → k ≢ r.id → open_for k a' ≡ false = λ k ne. ground arith in
      record {
        settled =
            settled_flush t.attempts (put_attempt a' t.attempts) r t.runs c.settled
              (rw same (
                rw cap (
                  omega (
                    arith,
                    count-put_attempt_same (open_for run.id) a' t.attempts,
                    counted',
                    settled_found,
                    capacity_le run.state,
                    c.ids_unique a'.id,
                  ))))
              (λ k ne.
                omega (arith, count-put_attempt_closed (open_for k) a' t.attempts (other k ne)));
        ids_unique = λ k. omega (arith, count-put_attempt_ids a' k t.attempts, c.ids_unique k);
      }

active_counted :
    (t : Tables) (id : ℕ) (a : ExecutionAttempt)
    → active_attempt t id ≡ some a
    → 1 ≤ count (λ b. open_for id b && b.id == a.id) t.attempts
unfolding active_attempt
active_counted t id a active = (latest-select (open_for id) t.attempts a active).1

-- A change of an attempt that keeps its identity.
pub record Keeps (f : ExecutionAttempt → ExecutionAttempt) : Type 0 where
  pub id_kept : (a : ExecutionAttempt) → (f a).id ≡ a.id
  pub run_kept : (a : ExecutionAttempt) → (f a).pipeline_run_id ≡ a.pipeline_run_id

module _ (t : Tables) (c : IsConsistent t) (id : ℕ) (run r : PipelineRun)
    (found : get_run t id ≡ some run) (same : r.id ≡ run.id) where
  no_attempt-IsConsistent : active_attempt t run.id ≡ none → IsConsistent (flush t r none)
  unfolding active_attempt
  no_attempt-IsConsistent gone = record {
    settled =
        settled_flush t.attempts t.attempts r t.runs c.settled
          (rw same (rw (latest-select-none (open_for run.id) t.attempts gone) (omega arith)))
          (λ _ _. omega arith);
    ids_unique = c.ids_unique;
  }

  -- The flush of a run whose open attempt, if there is one, is closed.
  pub flush_settled-IsConsistent :
      (f : ExecutionAttempt → ExecutionAttempt)
      → Keeps f
      → ((a : ExecutionAttempt) → is_open (f a).state ≡ false)
      → IsConsistent (flush t r (map_attempt f (active_attempt t run.id)))
  flush_settled-IsConsistent f keeps closes = elim (Option-cases (active_attempt t run.id)) [
    | inl gone ↦ rw gone (no_attempt-IsConsistent gone)
    | inr (a, active) ↦ rw active (
        flush_closed-IsConsistent t c id run r found same a (f a) (active_counted t run.id a active)
          (keeps.id_kept a) (closes a))
  ]

  -- The flush of a run that may have an open attempt, with any change of that attempt.
  pub flush_active-IsConsistent :
      (f : ExecutionAttempt → ExecutionAttempt)
      → Keeps f
      → capacity r.state ≡ 1
      → IsConsistent (flush t r (map_attempt f (active_attempt t run.id)))
  flush_active-IsConsistent f keeps cap = elim (Option-cases (active_attempt t run.id)) [
    | inl gone ↦ rw gone (no_attempt-IsConsistent gone)
    | inr (a, active) ↦ rw active (
        flush_open-IsConsistent t c id run r found same a (f a) active (keeps.id_kept a)
          (keeps.run_kept a) cap)
  ]
