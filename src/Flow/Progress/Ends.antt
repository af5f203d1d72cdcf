-- ===== src/Flow/Progress/Ends.antt =====
-- Where the moves of the contract end.
use autohub.Base.{◌≡◌, ◌≢◌, refl, ◌∙◌, ◌⊎◌, inl, inr, List, length, Bool, true, false}
use autohub.Flow.Model.{StepSpec}
use autohub.Flow.Progress.{
  Progress, Phase, finished, stopped, Move, idle, starts, advances, returns, breaks, mends,
  finishes, stopping_moves, stops, stop_acknowledged, Moves, none_yet, then_moves, IsLive,
  live_going, live_broken,
}

abbrev pub is_over : Phase → Bool
is_over finished = true
is_over stopped = true
is_over _ = false

-- Not finished, or behind the last step.
abbrev pub EndsLast : List StepSpec → Progress → Type 0
EndsLast specs p = (p.phase ≢ finished) ⊎ (p.position ≡ length specs)

live-over : {p : Phase} → IsLive p → is_over p ≡ false
live-over live_going = refl
live-over live_broken = refl

Move-ends :
    (specs : List StepSpec) (p q : Progress) → Move specs p q → EndsLast specs p → EndsLast specs q
Move-ends specs p q (idle e) h = rw e h
Move-ends specs p q (starts s n after at_p at_n lt ph live e) h =
    let on = live-over live in inl (rw e (λ f. cc))
Move-ends specs p q (advances ph lt e) h = inl (rw (e, ph) (λ f. cc))
Move-ends specs p q (returns s id n target at_p to at_t lt at_n le ph e) h =
    inl (rw (e, ph) (λ f. cc))
Move-ends specs p q (breaks ph e) h = inl (rw e (λ f. cc))
Move-ends specs p q (mends ph e) h = inl (rw e (λ f. cc))
Move-ends specs p q (finishes ph last e) h = inr (rw e last)
Move-ends specs p q (stopping_moves ph e) h = inl (rw e (λ f. cc))
Move-ends specs p q (stops ph e) h = inl (rw e (λ f. cc))
Move-ends specs p q (stop_acknowledged ph e) h = inl (rw e (λ f. cc))

pub Moves-ends :
    (specs : List StepSpec) (p q : Progress) → Moves specs p q → EndsLast specs p → EndsLast specs q
Moves-ends specs p q none_yet h = h
Moves-ends specs p q (then_moves {q = mid} first_moves move) h =
    Move-ends specs mid q move (Moves-ends specs p mid first_moves h)

-- Nothing follows a phase that is over.
Move-over :
    (specs : List StepSpec) (p q : Progress) → Move specs p q → is_over p.phase ≡ true → q ≡ p
Move-over specs p q (idle e) h = e
Move-over specs p q (starts s n after at_p at_n lt ph live e) h = cc
Move-over specs p q (advances ph lt e) h = cc
Move-over specs p q (returns s id n target at_p to at_t lt at_n le ph e) h = cc
Move-over specs p q (breaks ph e) h = cc
Move-over specs p q (mends ph e) h = cc
Move-over specs p q (finishes ph last e) h = cc
Move-over specs p q (stopping_moves ph e) h = let on = live-over ph in cc
Move-over specs p q (stops ph e) h = let on = live-over ph in cc
Move-over specs p q (stop_acknowledged ph e) h = cc

pub Moves-over :
    (specs : List StepSpec) (p q : Progress) → Moves specs p q → is_over p.phase ≡ true → q ≡ p
Moves-over specs p q none_yet h = refl
Moves-over specs p q (then_moves {q = mid} first_moves move) h =
    let same = Moves-over specs p mid first_moves h in Move-over specs mid q move (rw same h) ∙ same
