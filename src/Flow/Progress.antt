-- ===== src/Flow/Progress.antt =====
-- The contract of a flow, as CAP-SDK-task-flow-execution describes it, without rows, attempts and
-- workers: a position in the declared steps, a phase, and what each step has used of its budgets.

pub mod Budget
pub mod Ends
use autohub.Base.{ℕ, suc, ◌<◌, ◌≡◌, Option, some, List, get_elem?, length, ◌==◌, map}
use autohub.Flow.Model.{
  StepSpec, task_step, approval_step, TaskStep, ApprovalStep, RunStatus, queued, running, waiting,
  canceling, completed, failed, canceled, Flow,
}
use autohub.Flow.Declared.{spec_id}
use autohub.Flow.Runtime.{put_at}
use autohub.Flow.Commands.{index_of}

pub data Phase : Type 0 where
  going broken finished stopping stopped : Phase

pub record Progress : Type 0 where
  pub position : ℕ
  pub phase : Phase
  pub tries : List ℕ
  pub reworks : List ℕ

-- Whether a phase is neither the end of a run nor the way to it.
pub data IsLive : Phase → Type 0 where
  live_going : IsLive going
  live_broken : IsLive broken

pub data Move (specs : List StepSpec) (p q : Progress) : Type 0 where
  -- Nothing that counts.
  idle : q ≡ p → Move specs p q
  -- A try of the current task, which may fail at once.
  starts :
      (s : TaskStep) (n : ℕ) (after : Phase)
      → get_elem? specs p.position ≡ some (task_step s)
      → get_elem? p.tries p.position ≡ some n
      → n < s.max_attempts
      → p.phase ≡ going
      → IsLive after
      → q ≡ record p { phase = after; tries = put_at p.position (suc n) p.tries }
      → Move specs p q
  -- The current step is done.
  advances :
      p.phase ≡ going
      → p.position < length specs
      → q ≡ record p { position = suc p.position }
      → Move specs p q
  -- An approval sends the run back to an earlier step.
  returns :
      (s : ApprovalStep) (id n target : ℕ)
      → get_elem? specs p.position ≡ some (approval_step s)
      → s.revise_to ≡ some id
      → index_of (λ spec. spec_id spec == id) specs ≡ some target
      → target < p.position
      → get_elem? p.reworks p.position ≡ some n
      → n < s.max_revisions
      → p.phase ≡ going
      → q ≡ record p { position = target; reworks = put_at p.position (suc n) p.reworks }
      → Move specs p q
  breaks : p.phase ≡ going → q ≡ record p { phase = broken } → Move specs p q
  mends : p.phase ≡ broken → q ≡ record p { phase = going } → Move specs p q
  finishes :
      p.phase ≡ going
      → p.position ≡ length specs
      → q ≡ record p { phase = finished }
      → Move specs p q
  stopping_moves : IsLive p.phase → q ≡ record p { phase = stopping } → Move specs p q
  stops : IsLive p.phase → q ≡ record p { phase = stopped } → Move specs p q
  stop_acknowledged : p.phase ≡ stopping → q ≡ record p { phase = stopped } → Move specs p q

pub data Moves (specs : List StepSpec) (p : Progress) : Progress → Type 0 where
  none_yet : Moves specs p p
  then_moves : {q r : Progress} → Moves specs p q → Move specs q r → Moves specs p r

-- How a run stands for a state of the contract.
abbrev pub phase_of : RunStatus → Phase
phase_of queued = going
phase_of running = going
phase_of waiting = going
phase_of canceling = stopping
phase_of completed = finished
phase_of failed = broken
phase_of canceled = stopped

abbrev pub view : Flow → Progress
view f = record {
  position = f.run.step_index;
  phase = phase_of f.run.status;
  tries = map (λ row. row.attempt_count) f.steps;
  reworks = map (λ row. row.rework_count) f.steps;
}
