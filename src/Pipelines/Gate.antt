-- ===== src/Pipelines/Gate.antt =====
-- pipelines/gate.py: the verdict on a pull request's head from one workflow run. Names, SHAs and
-- status words that the code does not name are numbers, and URLs, which the verdict does not read, are
-- left out.
pub mod Verdict
use autohub.Base.{
  ℕ, Bool, true, false, not, ◌&&◌, ◌||◌, Option, none, some, List, [], ◌∷◌, if◌then◌else◌, ◌==◌,
  select, any, count, is_none, map, String,
}

-- GitHub's `status` and `conclusion` words, as far as the code tells them apart.
pub data Progress : Type 0 where
  completed : Progress
  unfinished : ℕ → Progress

pub data Conclusion : Type 0 where
  success failure : Conclusion
  other_conclusion : ℕ → Conclusion

pub data VerificationStatus : Type 0 where
  passed waiting failed blocked closed : VerificationStatus

pub record VerificationConfig : Type 0 where
  pub workflow : ℕ
  pub required_jobs : List ℕ

pub record JobSnapshot : Type 0 where
  pub id : ℕ
  pub name : ℕ
  pub status : Progress
  pub conclusion : Option Conclusion

pub record RunSnapshot : Type 0 where
  pub id : ℕ
  pub attempt : ℕ
  pub head_sha : ℕ
  pub status : Progress
  pub conclusion : Option Conclusion
  pub jobs : List JobSnapshot

pub record VerificationResult : Type 0 where
  pub status : VerificationStatus
  pub reason : String
  pub missing_jobs : List ℕ
  pub unsuccessful_jobs : List ℕ

abbrev pub is_completed : Progress → Bool
is_completed completed = true
is_completed (unfinished _) = false

abbrev pub is_success : Option Conclusion → Bool
is_success (some success) = true
is_success _ = false

abbrev pub is_failure : Option Conclusion → Bool
is_failure (some failure) = true
is_failure _ = false

abbrev pub result :
    VerificationStatus → String → (missing unsuccessful : List ℕ) → VerificationResult
result status reason missing unsuccessful = record {
  status = status;
  reason = reason;
  missing_jobs = missing;
  unsuccessful_jobs = unsuccessful;
}

-- `{job.name: job for job in run.jobs}`, and its lookup: the last job of a name counts.
abbrev pub last_named : ℕ → List JobSnapshot → Option JobSnapshot
last_named name [] = none
last_named name (job ∷ jobs) =
    let rest = last_named name jobs in
    elim rest [ some later ↦ some later | none ↦ if job.name == name then some job else none ]

abbrev pub job_succeeded : Option JobSnapshot → Bool
job_succeeded none = false
job_succeeded (some job) = is_completed job.status && is_success job.conclusion

abbrev pub is_empty {ℓ} : {A : Type ℓ} → List A → Bool
is_empty [] = true
is_empty (_ ∷ _) = false

abbrev pub missing_of : VerificationConfig → RunSnapshot → List ℕ
missing_of config run = select (λ name. is_none (last_named name run.jobs)) config.required_jobs

abbrev pub is_ambiguous : VerificationConfig → RunSnapshot → Bool
is_ambiguous config run =
    any (λ name. not (count (λ job. job.name == name) run.jobs == 1)) config.required_jobs

abbrev pub unsuccessful_of : VerificationConfig → RunSnapshot → List ℕ
unsuccessful_of config run =
    select (λ name. not (job_succeeded (last_named name run.jobs))) config.required_jobs

-- The verdict on a run that has completed with success.
abbrev pub required_jobs_verdict : VerificationConfig → RunSnapshot → VerificationResult
required_jobs_verdict config run =
    if not (is_empty (missing_of config run))
    then result blocked "Required jobs are missing" (missing_of config run) []
    else if is_ambiguous config run
    then result blocked "Required job names are ambiguous" [] []
    else if not (is_empty (unsuccessful_of config run))
    then result blocked "Required jobs have not all succeeded" [] (unsuccessful_of config run)
    else result passed "Workflow and all required jobs succeeded" [] []

abbrev pub run_verdict : VerificationConfig → (head_sha : ℕ) → RunSnapshot → VerificationResult
run_verdict config head_sha run =
    if not (run.head_sha == head_sha)
    then result waiting "No workflow run for the current PR head" [] []
    else if not (is_completed run.status)
    then result waiting "Workflow is not completed" [] []
    else if is_failure run.conclusion
    then result failed "Workflow failed" []
        (map (λ job. job.name) (select (λ job. is_failure job.conclusion) run.jobs))
    else if not (is_success run.conclusion)
    then result blocked "Workflow did not complete successfully" [] []
    else required_jobs_verdict config run

unfoldable pub evaluate_verification :
    VerificationConfig → (head_sha : ℕ) → Option RunSnapshot → VerificationResult
evaluate_verification config head_sha none =
    result waiting "No workflow run for the current PR head" [] []
evaluate_verification config head_sha (some run) = run_verdict config head_sha run
