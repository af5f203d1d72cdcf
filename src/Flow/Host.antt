-- ===== src/Flow/Host.antt =====
-- flows/services.py, FlowService: the environments, releases and runs of the host. A provider and an
-- environment are one number; a request says whether its texts exceed the host's limits. The locked
-- environment row makes each call alone in its environment, so `insert_once` inserts.
pub mod Requests
use autohub.Base.{
  ℕ, suc, ◌+◌, Bool, true, false, not, ◌&&◌, ◌||◌, Option, none, some, List, [], ◌∷◌, Result, ok,
  raise, raise_if, require, project_error, ◌>>=◌, ◌>>◌, if◌then◌else◌, ◌==◌, first, opt_is,
}
use autohub.Flow.Model.{
  Value, object, Fields, TaskRef, StepSpec, Release, queued, step_queued, FlowRun, FlowStep, Flow,
}
use autohub.Flow.Contract.{Contract, definition, steps_for, validate}
use autohub.Flow.Declared.{spec_id}

pub record FlowEnvironment : Type 0 where
  pub environment : ℕ
  pub owner_machine_id : ℕ
  pub active_release_id : Option ℕ
  pub revision : ℕ

pub record FlowRelease : Type 0 where
  pub environment : ℕ
  pub release_id : ℕ
  pub digest : ℕ
  pub definition : Release

-- A row of FlowRun with the columns that only the host reads.
pub record StoredRun : Type 0 where
  pub environment : ℕ
  pub request_key : ℕ
  pub request_digest : ℕ
  pub flow : Flow

pub record Host : Type 0 where
  pub environments : List FlowEnvironment
  pub releases : List FlowRelease
  pub runs : List StoredRun

pub record Principal : Type 0 where
  pub machine_id : ℕ
  pub can_write : Bool

pub record RunRequest : Type 0 where
  pub environment : ℕ
  pub exceeds_limits : Bool
  pub idempotency_key : ℕ
  pub expected_release_id : Option ℕ
  pub expected_release_digest : Option ℕ
  pub task : TaskRef
  pub inputs : Fields

-- `FlowService.owned`.
abbrev pub owned : Host → (environment : ℕ) → Principal → Result FlowEnvironment
owned host environment principal =
    require (first (λ e. e.environment == environment) host.environments) 404
      "environment-not-found"
    >>= λ row.
        raise_if (not (row.owner_machine_id == principal.machine_id)) 403 "environment-owner"
        >> ok row

-- FlowRepository.release.
abbrev pub find_release : Host → (environment release_id : ℕ) → Option FlowRelease
find_release host environment release_id =
    first (λ r. (r.environment == environment) && (r.release_id == release_id)) host.releases

-- FlowRepository.request.
abbrev pub find_request : Host → (environment key : ℕ) → Option StoredRun
find_request host environment key =
    first (λ r. (r.environment == environment) && (r.request_key == key)) host.runs

abbrev pub put_environment : FlowEnvironment → List FlowEnvironment → List FlowEnvironment
put_environment e [] = []
put_environment e (f ∷ fs) =
    let rest = put_environment e fs in if f.environment == e.environment then e ∷ rest else f ∷ rest

-- FlowRepository.activate, on the locked row.
abbrev pub activated : FlowEnvironment → (release_id : ℕ) → FlowEnvironment
activated row release_id = record row {
  active_release_id = some release_id;
  revision = if opt_is row.active_release_id release_id then row.revision else row.revision + 1;
}

-- FlowService.activate. It returns the revision of the receipt too.
unfoldable pub activate :
    Host → (environment release_id expected : ℕ) → Principal → Result (Host × ℕ)
activate host environment release_id expected principal =
    raise_if (not principal.can_write) 403 "scope"
    >> (owned host environment principal >>= λ row.
        require (find_release host environment release_id) 404 "release-not-found" >>= λ release.
        raise_if (not (row.revision == expected)) 409 "stale-revision"
        >> ok (
          record host {
            environments = put_environment (activated row release_id) host.environments;
          },
          (activated row release_id).revision,
        ))

-- The FlowStep rows of a new run; `ids` gives their ids.
abbrev pub new_rows : (ids : ℕ → ℕ) → (position : ℕ) → List StepSpec → List FlowStep
new_rows ids position [] = []
new_rows ids position (s ∷ specs) =
    record {
      id = ids position;
      step_key = spec_id s;
      status = step_queued;
      attempt_count = 0;
      rework_count = 0;
      output = none;
      deadline = none;
    }
    ∷ new_rows ids (suc position) specs

abbrev pub new_flow :
    Release → TaskRef → Fields → (run_id : ℕ) → (ids : ℕ → ℕ) → List StepSpec → Flow
new_flow release task inputs run_id ids specs = record {
  run = record {
    id = run_id;
    release = release;
    task = task;
    inputs = inputs;
    status = queued;
    revision = 0;
    step_index = 0;
    output = none;
    error = none;
    next_action_at = none;
    lease_token = none;
    lease_expires_at = none;
  };
  steps = new_rows ids 0 specs;
  attempts = [];
}

-- `expected not in (None, value)`.
abbrev pub differs : Option ℕ → ℕ → Bool
differs none value = false
differs (some expected) value = not (expected == value)

-- `start` of a request that is not known yet.
abbrev pub start_new :
    (valid : ℕ → Value → Bool)
    → Host
    → RunRequest
    → (request_digest run_id : ℕ) → (ids : ℕ → ℕ) → FlowEnvironment
    → Result (Host × Flow)
start_new valid host body request_digest run_id ids owner =
    require owner.active_release_id 409 "no-active-release" >>= λ active.
    require (find_release host body.environment active) 500 "AttributeError" >>= λ release.
    raise_if
      (differs body.expected_release_id release.release_id
        || differs body.expected_release_digest release.digest)
      409 "release-mismatch"
    >> (definition release.definition body.task >>= λ item.
        validate valid item.input_schema (object body.inputs)
        >> (steps_for release.definition body.task body.inputs >>= λ c.
            let flow = new_flow release.definition body.task body.inputs run_id ids c.steps in
            ok (
              record host {
                runs =
                    record {
                      environment = body.environment;
                      request_key = body.idempotency_key;
                      request_digest = request_digest;
                      flow = flow;
                    }
                    ∷ host.runs;
              },
              flow,
            )))

abbrev pub start_or_read :
    (valid : ℕ → Value → Bool)
    → Host
    → RunRequest
    → (request_digest run_id : ℕ) → (ids : ℕ → ℕ) → FlowEnvironment
    → Option StoredRun
    → Result (Host × Flow)
start_or_read valid host body request_digest run_id ids owner (some existing) =
    raise_if (not (existing.request_digest == request_digest)) 409 "request-conflict"
    >> ok (host, existing.flow)
start_or_read valid host body request_digest run_id ids owner none =
    start_new valid host body request_digest run_id ids owner

-- FlowService.start. It returns the run that `read` shows too.
unfoldable pub start :
    (valid : ℕ → Value → Bool)
    → Host
    → RunRequest
    → (request_digest : ℕ) → Principal
    → (run_id : ℕ) → (ids : ℕ → ℕ) → Result (Host × Flow)
start valid host body request_digest principal run_id ids =
    raise_if (not principal.can_write) 403 "scope"
    >> (raise_if body.exceeds_limits 422 "contract-limit"
        >> (owned host body.environment principal >>= λ owner.
            start_or_read valid host body request_digest run_id ids owner
              (find_request host body.environment body.idempotency_key)))
