-- ===== src/Flow/Service.antt =====
-- flows/services.py, `FlowService.command`: the commands of one run. The caller's scopes and the owner
-- of the environment, which are checked before, are left out; `digest` is the SDK's content digest,
-- and the receipt that a command stores is the run that it left, which `read` shows.
pub mod Replay
use autohub.Base.{
  ℕ, Bool, true, false, not, Option, none, some, List, [], ◌∷◌, Result, ok, raise, raise_if,
  project_error, ◌>>=◌, ◌>>◌, if◌then◌else◌, ◌==◌, first,
}
use autohub.Flow.Model.{FlowRun, Flow}
use autohub.Flow.Runtime.{bump}
use autohub.Flow.Commands.{Action, approve, revise, cancel, resume, command_transition}

pub record FlowCommand : Type 0 where
  pub command_key : ℕ
  pub digest : ℕ
  pub actor : ℕ
  pub receipt : Flow

pub record FlowPrLink : Type 0 where
  pub evidence : ℕ
  pub approved_revision : Option ℕ
  pub approved_digest : Option ℕ
  pub approved_actor : Option ℕ

-- The rows of one run that a command reads and writes.
pub record Ledger : Type 0 where
  pub flow : Flow
  pub commands : List FlowCommand
  pub link : Option FlowPrLink

-- `RunCommand`.
pub record RunCommand : Type 0 where
  pub command_id : ℕ
  pub expected_revision : ℕ
  pub action : Action

abbrev pub approve_link :
    (digest : ℕ → ℕ) → (revision actor : ℕ) → Option FlowPrLink → Option FlowPrLink
approve_link digest revision actor none = none
approve_link digest revision actor (some link) = some (record link {
  approved_revision = some revision;
  approved_digest = some (digest link.evidence);
  approved_actor = some actor;
})

abbrev pub link_after :
    (digest : ℕ → ℕ) → Action → (revision actor : ℕ) → Option FlowPrLink → Option FlowPrLink
link_after digest approve revision actor link = approve_link digest revision actor link
link_after digest _ revision actor link = link

abbrev pub recorded :
    (digest : ℕ → ℕ) → Ledger → RunCommand → (request_digest actor : ℕ) → Flow → Ledger × Flow
recorded digest l body request_digest actor h = (
  record {
    flow = h;
    commands =
        record {
          command_key = body.command_id;
          digest = request_digest;
          actor = actor;
          receipt = h;
        }
        ∷ l.commands;
    link = link_after digest body.action h.run.revision actor l.link;
  },
  h,
)

abbrev pub new_command :
    (digest : ℕ → ℕ) → Ledger → RunCommand → (request_digest actor now : ℕ) → Result (Ledger × Flow)
new_command digest l body request_digest actor now =
    raise_if (not (l.flow.run.revision == body.expected_revision)) 409 "stale-revision"
    >> (command_transition (record l.flow { run = bump l.flow.run }) body.action now >>= λ h.
        ok (recorded digest l body request_digest actor h))

abbrev pub replay : Ledger → (request_digest : ℕ) → FlowCommand → Result (Ledger × Flow)
replay l request_digest prior =
    raise_if (not (prior.digest == request_digest)) 409 "command-conflict" >> ok (l, prior.receipt)

abbrev pub command_or_replay :
    (digest : ℕ → ℕ)
    → Ledger
    → RunCommand
    → (request_digest actor now : ℕ) → Option FlowCommand
    → Result (Ledger × Flow)
command_or_replay digest l body request_digest actor now none =
    new_command digest l body request_digest actor now
command_or_replay digest l body request_digest actor now (some prior) =
    replay l request_digest prior

-- FlowService.command. It returns the receipt too.
unfoldable pub command :
    (digest : ℕ → ℕ) → Ledger → RunCommand → (request_digest actor now : ℕ) → Result (Ledger × Flow)
command digest l body request_digest actor now =
    command_or_replay digest l body request_digest actor now
      (first (λ prior. prior.command_key == body.command_id) l.commands)
