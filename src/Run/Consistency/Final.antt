-- ===== src/Run/Consistency/Final.antt =====
-- usecases/control.py: the operations on a run that has ended.
use autohub.Base.{
  ℕ, ◌≡◌, refl, true, false, Option, some, none, arith, Result, raise, ProjectError, ◌==◌,
  if◌then◌else◌, Option-cases, Bool-cases, inl, inr,
}
use autohub.Run.Model.{PipelineRun, PipelineRunState, ExecutionAttempt, is_final}
use autohub.Run.Tables.{Tables, get_run, get_attempt}
use autohub.Run.Control.{pause_run, cancel_run, attach_pr, complete_attempt, can_attach, Report}
use autohub.Run.Consistency.Steps.{Op, pause, cancel, attach, complete, apply}

-- The operation answers with an error of this status.
abbrev pub IsRefused : ℕ → Result Tables → Type 0
IsRefused status r = (e : ProjectError) × (r ≡ raise e) × (e.status ≡ status)

-- A report on an attempt that the run does not have is answered "not found", everything else as a
-- conflict with the run's state.
abbrev pub report_status : ℕ → Option ExecutionAttempt → ℕ
report_status id none = 404
report_status id (some a) = if a.pipeline_run_id == id then 409 else 404

abbrev pub refusal : Tables → ℕ → Op → ℕ
refusal t id (complete attempt_id report now) = report_status id (get_attempt t attempt_id)
refusal t id _ = 422

final_attach : (s : PipelineRunState) → is_final s ≡ true → can_attach s ≡ false
final_attach s h = ground arith

module _ (t : Tables) (id : ℕ) (run : PipelineRun) (found : get_run t id ≡ some run)
    (final : is_final run.state ≡ true) where
  final_pause : (reason : Option ℕ) → IsRefused 422 (apply t id (pause reason))
  unfolding apply pause_run
  final_pause reason = rw found (rw final (_, refl, refl))

  final_cancel : (now : ℕ) → IsRefused 422 (apply t id (cancel now))
  unfolding apply cancel_run
  final_cancel now = rw found (rw final (_, refl, refl))

  final_attaching :
      (projects : ℕ → Option (Option ℕ)) (url_of : Option ℕ → ℕ → ℕ) (n : ℕ) (url : Option ℕ)
      → IsRefused 422 (apply t id (attach projects url_of n url))
  unfolding apply attach_pr
  final_attaching projects url_of n url =
      rw found (rw (final_attach run.state final) (_, refl, refl))

  final_complete :
      (attempt_id : ℕ) (report : Report) (now : ℕ)
      → IsRefused
          (report_status id (get_attempt t attempt_id))
          (apply t id (complete attempt_id report now))
  unfolding apply complete_attempt
  final_complete attempt_id report now = elim (Option-cases (get_attempt t attempt_id)) [
    | inl gone ↦ rw found (rw gone (_, refl, refl))
    | inr (a, there) ↦ elim (Bool-cases (a.pipeline_run_id == id)) [
      | inl own ↦ rw found (rw there (rw own (rw final (_, refl, refl))))
      | inr other ↦ rw found (rw there (rw other (_, refl, refl)))
    ]
  ]

-- Pausing or cancelling a run that has ended, or attaching a pull request to it, is refused with
-- 422. A worker's report on it is refused with 404 if the run has no such attempt, otherwise with
-- 409.
pub final-apply :
    (t : Tables) (id : ℕ) (run : PipelineRun) (op : Op)
    → get_run t id ≡ some run
    → is_final run.state ≡ true
    → IsRefused (refusal t id op) (apply t id op)
final-apply t id run (pause reason) found final = final_pause t id run found final reason
final-apply t id run (cancel now) found final = final_cancel t id run found final now
final-apply t id run (attach projects url_of n url) found final =
    final_attaching t id run found final projects url_of n url
final-apply t id run (complete a report now) found final =
    final_complete t id run found final a report now
