-- ===== src/Flow/Service/Replay.antt =====
-- flows/services.py, `command`: a command that is sent again.
use autohub.Base.{
  ℕ, ◌≡◌, ◌≢◌, refl, ap, ◌∙◌, not, Option, none, some, ok, raise, project_error, arith, ◌==◌,
  ==_refl, first, raise_if_passed, bind_returned, ok_injective, subst,
}
use autohub.Flow.Model.{Flow}
use autohub.Flow.Runtime.{bump}
use autohub.Flow.Commands.{command_transition}
use autohub.Flow.Service.{
  Ledger, FlowCommand, RunCommand, command, command_or_replay, replay, recorded,
}

-- What an accepted command leaves, new or replayed.
replayable :
    (digest : ℕ → ℕ) (l : Ledger) (body : RunCommand) (request_digest actor now : ℕ)
    (out : Ledger × Flow) (prior : Option FlowCommand)
    → first (λ c. c.command_key == body.command_id) l.commands ≡ prior
    → command_or_replay digest l body request_digest actor now prior ≡ ok out
    → (stored : FlowCommand) × (first (λ c. c.command_key == body.command_id) out.0.commands
        ≡ some stored)
      × (stored.digest ≡ request_digest)
      × (stored.receipt ≡ out.1)
replayable digest l body request_digest actor now out none found h =
    let fresh = raise_if_passed (not (l.flow.run.revision == body.expected_revision)) 409 _ _ h in
    let (after, moved, done) =
      bind_returned (command_transition (record l.flow { run = bump l.flow.run }) body.action now) _
        fresh.1 in
    let made = (recorded digest l body request_digest actor after) in
    subst
      (λ y.
        (stored : FlowCommand) × (first (λ c. c.command_key == body.command_id) y.0.commands
          ≡ some stored)
        × (stored.digest ≡ request_digest)
        × (stored.receipt ≡ y.1))
      (ok_injective done)
      (
        record {
          command_key = body.command_id;
          digest = request_digest;
          actor = actor;
          receipt = after;
        },
        rw (==_refl body.command_id) refl,
        refl,
        refl,
      )
replayable digest l body request_digest actor now out (some prior) found h =
    let same = raise_if_passed (not (prior.digest == request_digest)) 409 "command-conflict" _ h in
    subst
      (λ y.
        (stored : FlowCommand) × (first (λ c. c.command_key == body.command_id) y.0.commands
          ≡ some stored)
        × (stored.digest ≡ request_digest)
        × (stored.receipt ≡ y.1))
      (ok_injective same.1) (prior, found, ground (arith, same), refl)

replay_same :
    (l : Ledger) (d : ℕ) (stored : FlowCommand)
    → stored.digest ≡ d
    → replay l d stored ≡ ok (l, stored.receipt)
replay_same l d stored e = ground (arith, e)

replay_other :
    (l : Ledger) (d other : ℕ) (stored : FlowCommand)
    → stored.digest ≡ d
    → other ≢ d
    → replay l other stored ≡ raise (project_error 409 "command-conflict")
replay_other l d other stored e ne = ground (arith, e, ne)

-- A command that was accepted is answered again, whenever it is sent with the same id and contents
-- and whatever its other fields: with the receipt of the first time, and nothing changes. With other
-- contents it is refused as a conflict.
pub command-command :
    (digest : ℕ → ℕ) (l : Ledger) (body again : RunCommand)
    (request_digest other actor actor' now later : ℕ) (out : Ledger × Flow)
    → command digest l body request_digest actor now ≡ ok out
    → again.command_id ≡ body.command_id
    → other ≢ request_digest
    → (command digest out.0 again request_digest actor' later ≡ ok out)
      × (command digest out.0 again other actor' later
          ≡ raise (project_error 409 "command-conflict"))
unfolding command
command-command digest l body again request_digest other actor actor' now later out h same differ =
    let (stored, found, contents, receipt) =
      replayable digest l body request_digest actor now out _ refl h in
    (
      rw (same, found)
          (replay_same out.0 request_digest stored contents ∙ ap (λ r. ok (out.0, r)) receipt),
      rw (same, found) (replay_other out.0 request_digest other stored contents differ),
    )
