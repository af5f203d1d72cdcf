-- ===== src/Tests/Flow.antt =====
-- A flow of a task, an approval and a task, and the run of it.
use autohub.Base.{
  ℕ, ◌≡◌, ◌≤◌, ◌⊎◌, refl, Bool, true, false, some, none, List, [], ◌∷◌, ok, raise, project_error,
  All, count, arith,
}
use autohub.Flow.Model.{
  Value, Fields, no_fields, field, scalar, TaskRef, StepSpec, task_step, approval_step, step_ref,
  run_ref, Release, Flow,
}
use autohub.Flow.Contract.{Contract, steps_for, definition, contract, resolve, resolve_all}
use autohub.Flow.Declared.{check_graph}
use autohub.Flow.Runtime.{WorkerResult, WorkerAction, worker_completed, inspect, is_active, plan}
use autohub.Flow.Results.{apply}
use autohub.Flow.Commands.{approve, cancel, is_open, command_transition}
use autohub.Flow.Rows.{is_done}
use autohub.Flow.Progress.{view}
use autohub.Flow.Progress.Budget.{IsAffordable, IsWithin, try_limit}
use autohub.Flow.Attempts.{attempts_made}
use autohub.Flow.Worker.{claim, settle, plan_fenced, release_lease}
use autohub.Flow.Worker.Stale
use autohub.Flow.Service.{Ledger, RunCommand, command}
use autohub.Flow.Service.Replay
use autohub.Flow.Host.{new_flow, start, Host, RunRequest, Principal}
use autohub.Flow.Host.Requests
use autohub.Flow.World.{Event, claims, plans, settles, releases, commands, happen_all, happen}
use autohub.Flow.World.Outcomes
use autohub.Flow.World.Outcomes.{world_after}

program : Unit {0}
unfolding happen_all happen claim plan_fenced plan settle apply release_lease command
    command_transition contract steps_for definition resolve resolve_all check_graph start
program = tt

abbrev anything : ℕ → Value → Bool
anything schema value = true

abbrev digest : ℕ → ℕ
digest contents = contents

abbrev ref : ℕ → TaskRef
ref key = record { key = key; contract_version = 1 }

abbrev steps : List StepSpec
steps =
    task_step
      (record { id = 1; task = ref 7; inputs = (20, run_ref (21 ∷ [])) ∷ []; max_attempts = 2 })
    ∷ approval_step
        (record { id = 2; deadline_seconds = 100; revise_to = some 1; max_revisions = 1 })
    ∷ task_step
        (record { id = 3; task = ref 7; inputs = (20, step_ref 1 []) ∷ []; max_attempts = 1 })
    ∷ []

abbrev release : Release
release = record {
  definitions =
      record { key = 7; contract_version = 1; input_schema = 1; output_schema = 2; flow = none }
      ∷ record {
        key = 9;
        contract_version = 1;
        input_schema = 3;
        output_schema = 4;
        flow = some (steps, 3);
      }
      ∷ [];
}

abbrev inputs : Fields
inputs = field 21 (scalar 5) no_fields

abbrev declared : Contract
declared = record { steps = steps; result_step = 3; output_schema = 4 }

abbrev fresh_flow : Flow
fresh_flow = new_flow release (ref 9) inputs 40 (λ i. i) steps

abbrev done : WorkerResult
done = record { status = worker_completed; output = some (scalar 6); error = none }

abbrev send : (id revision : ℕ) → RunCommand
send id revision = record { command_id = id; expected_revision = revision; action = approve }

-- The two tasks and the approval between them.
abbrev history : List Event
history =
    claims 5 0
    ∷ plans 5 100 1
    ∷ settles 0 5 (some done) 2
    ∷ plans 5 101 3
    ∷ commands (send 1 3) 11 8 4
    ∷ plans 5 102 5
    ∷ settles 0 5 (some done) 6
    ∷ plans 5 103 7
    ∷ []

flow-IsAffordable_example :
    IsWithin try_limit steps
      (attempts_made (world_after anything digest fresh_flow none history).ledger.flow)
    × IsAffordable steps (view (world_after anything digest fresh_flow none history).ledger.flow)
unfolding program
flow-IsAffordable_example =
    Outcomes.flow-IsAffordable anything digest release (ref 9) inputs 40 (λ i. i) declared none
      history refl refl (λ i j e. e)

two_attempts :
    attempts_made (world_after anything digest fresh_flow none history).ledger.flow ≡ 1 ∷ 0 ∷ 1 ∷ []
unfolding program
two_attempts = refl

flow_completed_example :
    All
      (λ r. is_done r.status ≡ true)
      (world_after anything digest fresh_flow none history).ledger.flow.steps
unfolding program
flow_completed_example =
    Outcomes.flow_completed anything digest release (ref 9) inputs 40 (λ i. i) declared none history
      refl refl refl

flow_one_open_example :
    (count
        (λ a. is_open a.status)
        (world_after anything digest fresh_flow none history).ledger.flow.attempts
      ≤ 1)
    × ((is_active (world_after anything digest fresh_flow none history).ledger.flow.run.status
          ≡ true)
        ⊎ (count
              (λ a. is_open a.status)
              (world_after anything digest fresh_flow none history).ledger.flow.attempts
            ≡ 0))
unfolding program
flow_one_open_example =
    Outcomes.flow_one_open anything digest release (ref 9) inputs 40 (λ i. i) declared none history
      refl refl

flow_over_example :
    view
      (happen_all anything digest
        (world_after anything digest fresh_flow none history)
        (releases 5 ∷ claims 6 90 ∷ plans 6 104 91 ∷ [])).ledger.flow
    ≡ view (world_after anything digest fresh_flow none history).ledger.flow
unfolding program
flow_over_example =
    Outcomes.flow_over anything digest release (ref 9) inputs 40 (λ i. i) declared none history refl
      refl (releases 5 ∷ claims 6 90 ∷ plans 6 104 91 ∷ []) refl

-- The run while its first task is worked for.
abbrev working : Ledger
working = (world_after anything digest fresh_flow none (claims 5 0 ∷ plans 5 100 1 ∷ [])).ledger

abbrev stop : RunCommand
stop = record { command_id = 1; expected_revision = 1; action = cancel }

abbrev action : WorkerAction
action = record { attempt_id = 100; revision = 1; operation = inspect; task = ref 7; inputs = [] }

abbrev after_stop : Ledger
after_stop =
    (world_after anything digest fresh_flow none
      (claims 5 0 ∷ plans 5 100 1 ∷ commands stop 11 8 2 ∷ [])).ledger

settle-command_example :
    settle anything after_stop.flow action 5 (some done) 3 ≡ ok (after_stop.flow, false)
unfolding program
settle-command_example =
    Stale.settle-command anything digest working stop 11 8 2 (after_stop, after_stop.flow) action 5
      (some done) 3 refl refl (omega arith)

command-command_example :
    (command digest after_stop stop 11 9 30 ≡ ok (after_stop, after_stop.flow))
    × (command digest after_stop stop 12 9 30 ≡ raise (project_error 409 "command-conflict"))
unfolding program
command-command_example =
    Replay.command-command digest working stop stop 11 12 8 9 2 30 (after_stop, after_stop.flow)
      refl refl (λ e. omega (arith, e))

abbrev host : Host
host = record {
  environments =
      record { environment = 1; owner_machine_id = 2; active_release_id = some 3; revision = 1 }
      ∷ [];
  releases = record { environment = 1; release_id = 3; digest = 4; definition = release } ∷ [];
  runs = [];
}

abbrev machine : Principal
machine = record { machine_id = 2; can_write = true }

abbrev request : RunRequest
request = record {
  environment = 1;
  exceeds_limits = false;
  idempotency_key = 6;
  expected_release_id = none;
  expected_release_digest = some 4;
  task = ref 9;
  inputs = inputs;
}

abbrev host_after : Host
host_after = record host {
  runs = record { environment = 1; request_key = 6; request_digest = 7; flow = fresh_flow } ∷ [];
}
