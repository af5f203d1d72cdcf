-- ===== src/Flow/Host/Requests.antt =====
-- flows/services.py, `start`: the run of a new request, and a request that is sent again.
use autohub.Base.{
  ℕ, suc, ◌≡◌, refl, ap, subst, true, some, List, [], ◌∷◌, ok, some_injective, inl, All, length,
  get_elem?,
}
use autohub.Flow.Model.{Flow, StepSpec, Release, TaskRef, Fields, FlowStep, queued}
use autohub.Flow.Contract.{Contract, contract, steps_for}
use autohub.Flow.Runtime.{is_queued}
use autohub.Flow.Rows.{IsQueued, queued-IsSplit}
use autohub.Flow.Soundness.{IsSound, queued_rests}
use autohub.Flow.Host.{Host, StoredRun, RunRequest, find_request, new_rows, new_flow}

new_rows-IsQueued :
    (ids : ℕ → ℕ) (position : ℕ) (specs : List StepSpec)
    → All IsQueued (new_rows ids position specs)
new_rows-IsQueued ids position [] = tt
new_rows-IsQueued ids position (s ∷ specs) = (refl, new_rows-IsQueued ids (suc position) specs)

length-new_rows :
    (ids : ℕ → ℕ) (position : ℕ) (specs : List StepSpec)
    → length (new_rows ids position specs) ≡ length specs
length-new_rows ids position [] = refl
length-new_rows ids position (s ∷ specs) = ap suc (length-new_rows ids (suc position) specs)

first_queued :
    (rows : List FlowStep) (r : FlowStep)
    → All IsQueued rows
    → get_elem? rows 0 ≡ some r
    → is_queued r.status ≡ true
first_queued [] r h e = cc
first_queued (q ∷ rest) r h e = subst IsQueued (some_injective e) h.0

-- The run that a new request creates.
pub new_flow-IsSound :
    (release : Release) (task : TaskRef) (inputs : Fields) (run_id : ℕ) (ids : ℕ → ℕ) (c : Contract)
    → steps_for release task inputs ≡ ok c
    → IsSound c (new_flow release task inputs run_id ids c.steps)
unfolding contract
new_flow-IsSound release task inputs run_id ids c h =
    let rows = new_rows-IsQueued ids 0 c.steps in
    (
      h,
      length-new_rows ids 0 c.steps,
      queued-IsSplit _ rows,
      inl (refl, tt, queued_rests queued _ _ (λ r e. first_queued _ r rows e)),
    )

-- The run with the key of an accepted request, in a host with the environments it had.
abbrev IsStored : Host → RunRequest → ℕ → Host × Flow → Type 0
IsStored host body request_digest out =
    (stored : StoredRun) × (find_request out.0 body.environment body.idempotency_key ≡ some stored)
    × (stored.request_digest ≡ request_digest)
    × (stored.flow ≡ out.1)
    × (out.0.environments ≡ host.environments)
