-- ===== src/Pipelines/Gate/Verdict.antt =====
-- gate.py: what a passed verdict shows, and when the gate passes.
use autohub.Base.{
  some_injective, subst, sym, ℕ, ◌≡◌, refl, Bool, true, false, not, ◌&&◌, Option, none, some, List,
  [], ◌∷◌, arith, ◌==◌, select, any, count, is_none, All, Bool-cases, inl, inr, ◌↔◌, ◌≤◌,
}
use autohub.Pipelines.Gate.{
  VerificationConfig, JobSnapshot, RunSnapshot, evaluate_verification, passed, last_named,
  job_succeeded, is_completed, is_success, is_empty, is_ambiguous, unsuccessful_of, completed,
  success, run_verdict, required_jobs_verdict,
}

-- The one job of that name, which has completed with success.
pub record IsDone (jobs : List JobSnapshot) (name : ℕ) : Type 0 where
  pub unique : count (λ job. job.name == name) jobs ≡ 1
  pub succeeded :
      count (λ job. job.name == name && (is_completed job.status && is_success job.conclusion)) jobs
      ≡ 1

-- What a pull request's run shows when its gate passes.
pub record IsVerified (config : VerificationConfig) (head_sha : ℕ) (run : RunSnapshot)
    : Type 0 where
  pub head_seen : run.head_sha ≡ head_sha
  pub finished : run.status ≡ completed
  pub concluded : run.conclusion ≡ some success
  pub jobs_done : All (IsDone run.jobs) config.required_jobs

module _ (name : ℕ) where
  abbrev done_count : List JobSnapshot → ℕ
  done_count jobs =
      count (λ job. job.name == name && (is_completed job.status && is_success job.conclusion)) jobs

  last-absent :
      (jobs : List JobSnapshot)
      → count (λ job. job.name == name) jobs ≡ 0
      → last_named name jobs ≡ none
  last-absent [] h = refl
  last-absent (job ∷ jobs) h = ground (arith, last-absent jobs)

  absent-last :
      (jobs : List JobSnapshot)
      → last_named name jobs ≡ none
      → count (λ job. job.name == name) jobs ≡ 0
  absent-last [] h = refl
  absent-last (job ∷ jobs) h = ground (arith, absent-last jobs)

  done_le : (jobs : List JobSnapshot) → done_count jobs ≤ count (λ job. job.name == name) jobs
  done_le [] = omega arith
  done_le (job ∷ jobs) = ground (arith, done_le jobs)

  -- Of a name that one job has, the lookup finds that job.
  last_done :
      (jobs : List JobSnapshot)
      → count (λ job. job.name == name) jobs ≡ 1
      → job_succeeded (last_named name jobs) ≡ true
      → done_count jobs ≡ 1
  last_done [] h s = ground arith
  last_done (job ∷ jobs) h s = ground (arith, last-absent jobs, done_le jobs, last_done jobs)

  done_last :
      (jobs : List JobSnapshot)
      → count (λ job. job.name == name) jobs ≡ 1
      → done_count jobs ≡ 1
      → job_succeeded (last_named name jobs) ≡ true
  done_last [] h s = ground arith
  done_last (job ∷ jobs) h s = ground (arith, last-absent jobs, done_le jobs, done_last jobs)

module _ (p : ℕ → Bool) where
  select_empty : (xs : List ℕ) → is_empty (select p xs) ≡ true → All (λ x. p x ≡ false) xs
  select_empty [] h = tt
  select_empty (x ∷ xs) h = elim (Bool-cases (p x)) [
    | inl yes' ↦ ground arith
    | inr no' ↦ (no', select_empty xs (rw no' at h))
  ]

  empty_select : (xs : List ℕ) → All (λ x. p x ≡ false) xs → is_empty (select p xs) ≡ true
  empty_select [] a = refl
  empty_select (x ∷ xs) a = rw (a.0) (empty_select xs a.1)

  any-false : (xs : List ℕ) → any p xs ≡ false → All (λ x. p x ≡ false) xs
  any-false [] h = tt
  any-false (x ∷ xs) h = elim (Bool-cases (p x)) [
    | inl yes' ↦ ground arith
    | inr no' ↦ (no', any-false xs (rw no' at h))
  ]

  false-any : (xs : List ℕ) → All (λ x. p x ≡ false) xs → any p xs ≡ false
  false-any [] a = refl
  false-any (x ∷ xs) a = rw (a.0) (false-any xs a.1)

module _ (jobs : List JobSnapshot) where
  one-IsDone :
      (name : ℕ)
      → not (count (λ job. job.name == name) jobs == 1) ≡ false
      → not (job_succeeded (last_named name jobs)) ≡ false
      → IsDone jobs name
  one-IsDone name unique' done =
      let unique'' : count (λ job. job.name == name) jobs ≡ 1 = ground arith in
      record { unique = unique''; succeeded = last_done name jobs unique'' (ground arith) }

  all-IsDone :
      (names : List ℕ)
      → All (λ name. not (count (λ job. job.name == name) jobs == 1) ≡ false) names
      → All (λ name. not (job_succeeded (last_named name jobs)) ≡ false) names
      → All (IsDone jobs) names
  all-IsDone [] a b = tt
  all-IsDone (name ∷ names) a b = (one-IsDone name a.0 b.0, all-IsDone names a.1 b.1)

  done_unique :
      (names : List ℕ)
      → All (IsDone jobs) names
      → All (λ name. not (count (λ job. job.name == name) jobs == 1) ≡ false) names
  done_unique [] a = tt
  done_unique (name ∷ names) a = (rw (a.0.unique) refl, done_unique names a.1)

  done_succeeds :
      (names : List ℕ)
      → All (IsDone jobs) names
      → All (λ name. not (job_succeeded (last_named name jobs)) ≡ false) names
  done_succeeds [] a = tt
  done_succeeds (name ∷ names) a =
      (rw (done_last name jobs a.0.unique a.0.succeeded) refl, done_succeeds names a.1)

  present : (name : ℕ) → IsDone jobs name → is_none (last_named name jobs) ≡ false
  present name d = elim (Bool-cases (is_none (last_named name jobs))) [
    | inr some' ↦ some'
    | inl none' ↦ ground (arith, absent-last name jobs, d.unique)
  ]

  done_present :
      (names : List ℕ)
      → All (IsDone jobs) names
      → All (λ name. is_none (last_named name jobs) ≡ false) names
  done_present [] a = tt
  done_present (name ∷ names) a = (present name a.0, done_present names a.1)

module _ (config : VerificationConfig) (head_sha : ℕ) (run : RunSnapshot) where
  required_passed :
      (required_jobs_verdict config run).status ≡ passed
      → (is_ambiguous config run ≡ false) × (is_empty (unsuccessful_of config run) ≡ true)
  required_passed h = ground arith

  passed-IsVerified :
      (run_verdict config head_sha run).status ≡ passed → IsVerified config head_sha run
  passed-IsVerified h =
      let (seen, (done, (concluded', rest))) = guards h in
      let (clear, all_ok) = required_passed rest in
      record {
        head_seen = seen;
        finished = done;
        concluded = concluded';
        jobs_done =
            all-IsDone run.jobs config.required_jobs (any-false _ config.required_jobs clear)
              (select_empty _ config.required_jobs all_ok);
      }
    where
      guards :
          (run_verdict config head_sha run).status ≡ passed
          → (run.head_sha ≡ head_sha)
            × ((run.status ≡ completed)
                × ((run.conclusion ≡ some success)
                    × ((required_jobs_verdict config run).status ≡ passed)))
      guards h = ground arith

  IsVerified-passed :
      IsVerified config head_sha run → (run_verdict config head_sha run).status ≡ passed
  IsVerified-passed v =
      let missing' =
        empty_select _ config.required_jobs
          (done_present run.jobs config.required_jobs v.jobs_done) in
      let ambiguous' =
        false-any _ config.required_jobs (done_unique run.jobs config.required_jobs v.jobs_done) in
      let failed' =
        empty_select _ config.required_jobs
          (done_succeeds run.jobs config.required_jobs v.jobs_done) in
      ground (arith, v.head_seen, v.finished, v.concluded)

-- The gate passes a pull request's head exactly if a workflow run of that head has completed with
-- success and every required job's name is borne by one job of the run, which completed with
-- success. Without a run it does not pass.
pub evaluate_verification-passed :
    (config : VerificationConfig) (head_sha : ℕ) (o : Option RunSnapshot)
    → ((evaluate_verification config head_sha o).status ≡ passed)
      ↔ ((run : RunSnapshot) × (o ≡ some run) × IsVerified config head_sha run)
unfolding evaluate_verification
evaluate_verification-passed config head_sha none = ((λ h. ground arith), (λ x. ground arith))
evaluate_verification-passed config head_sha (some run) = (
  (λ h. (run, refl, passed-IsVerified config head_sha run h)),
  (λ x.
      IsVerified-passed config head_sha run
        (subst (IsVerified config head_sha) (sym (some_injective x.1)) x.2)),
)
