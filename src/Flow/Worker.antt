-- ===== src/Flow/Worker.antt =====
-- flows/repos.py and flows/worker.py: the lease of a run and the transactions around a worker's work.
pub mod Stale
use autohub.Base.{
  ℕ, ◌+◌, Bool, true, false, not, ◌&&◌, ◌||◌, Option, none, some, Result, ok, ◌>>=◌, if◌then◌else◌,
  ◌==◌, leb, is_none, opt_is,
}
use autohub.Flow.Model.{Value, FlowRun, Flow, RunStatus, waiting, canceling}
use autohub.Flow.Runtime.{WorkerAction, WorkerResult, is_active, is_canceling, bump, plan}
use autohub.Flow.Results.{apply}
use autohub.Run.Lease.{expires_after, expired_at, seconds}

-- `next_action_at IS NULL OR next_action_at <= now`.
abbrev pub is_due : Option ℕ → (now : ℕ) → Bool
is_due none now = true
is_due (some t) now = leb t now

abbrev pub lease_seconds : ℕ
lease_seconds = 60

-- FlowRepository.claim.
unfoldable pub claim : Flow → (token now : ℕ) → Flow × Bool
claim f token now =
    if is_active f.run.status
      && ((is_none f.run.lease_token || expired_at f.run.lease_expires_at now)
          && is_due f.run.next_action_at now)
    then (
      record f {
        run = record f.run {
          lease_token = some token;
          lease_expires_at = some (now + seconds lease_seconds);
        };
      },
      true,
    )
    else (f, false)

-- FlowRepository.fenced, where the run is known.
abbrev pub is_fenced : Flow → (token now : ℕ) → Bool
is_fenced f token now = opt_is f.run.lease_token token && expires_after f.run.lease_expires_at now

-- FlowRepository.release_lease.
unfoldable pub release_lease : Flow → (token : ℕ) → Flow
release_lease f token =
    if opt_is f.run.lease_token token
    then record f { run = record f.run { lease_token = none; lease_expires_at = none } }
    else f

-- The second transaction of `advance`. No action is the end of the call.
unfoldable pub plan_fenced :
    (valid : ℕ → Value → Bool) → Flow → (token fresh now : ℕ) → Result (Flow × Option WorkerAction)
plan_fenced valid f token fresh now =
    if is_fenced f token now then plan valid f fresh now else ok (f, none)

abbrev pub unless_canceling : RunStatus → RunStatus
unless_canceling canceling = canceling
unless_canceling _ = waiting

-- The third transaction after a recoverable error of the adapter.
abbrev pub postpone : Flow → (now : ℕ) → Flow
postpone f now = record f {
  run = record (bump f.run) {
    error = some "worker-unavailable";
    status = unless_canceling f.run.status;
    next_action_at = some (now + seconds 5);
  };
}

-- What the adapter gave: none is a recoverable error.
abbrev pub settle_with :
    (valid : ℕ → Value → Bool)
    → Flow
    → WorkerAction
    → Option WorkerResult
    → (now : ℕ) → Result (Flow × Bool)
settle_with valid f action none now = ok (postpone f now, true)
settle_with valid f action (some result) now = apply valid f action result now >>= λ h. ok (h, true)

-- The third transaction of `advance`.
unfoldable pub settle :
    (valid : ℕ → Value → Bool)
    → Flow
    → WorkerAction
    → (token : ℕ) → Option WorkerResult
    → (now : ℕ) → Result (Flow × Bool)
settle valid f action token outcome now =
    if not (is_fenced f token now) || not (f.run.revision == action.revision)
    then ok (f, false)
    else settle_with valid f action outcome now
