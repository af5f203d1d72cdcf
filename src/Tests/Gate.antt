-- ===== src/Tests/Gate.antt =====
-- The gate on one run of two required jobs.
use autohub.Base.{ℕ, ◌≡◌, ◌↔◌, refl, some, [], ◌∷◌}
use autohub.Pipelines.Gate.{
  VerificationConfig, RunSnapshot, JobSnapshot, completed, success, evaluate_verification, passed,
}
use autohub.Pipelines.Gate.Verdict
use autohub.Pipelines.Gate.Verdict.{IsVerified}

abbrev job : (id name : ℕ) → JobSnapshot
job id name = record { id = id; name = name; status = completed; conclusion = some success }

abbrev run : RunSnapshot
run = record {
  id = 1;
  attempt = 1;
  head_sha = 77;
  status = completed;
  conclusion = some success;
  jobs = job 1 10 ∷ job 2 11 ∷ job 3 12 ∷ [];
}

abbrev config : VerificationConfig
config = record { workflow = 1; required_jobs = 10 ∷ 12 ∷ [] }

evaluate_verification-passed_example :
    ((evaluate_verification config 77 (some run)).status ≡ passed)
    ↔ ((r : RunSnapshot) × (some run ≡ some r) × IsVerified config 77 r)
evaluate_verification-passed_example = Verdict.evaluate_verification-passed config 77 (some run)

run_passes : (evaluate_verification config 77 (some run)).status ≡ passed
unfolding evaluate_verification
run_passes = refl
