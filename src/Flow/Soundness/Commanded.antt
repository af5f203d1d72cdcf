-- ===== src/Flow/Soundness/Commanded.antt =====
-- flows/runtime.py, `command_transition`, on a sound run whose contract the SDK accepted.
use autohub.Base.{
  some_injective, ℕ, suc, ◌<◌, ◌≡◌, refl, sym, subst, ◌∙◌, inl, inr, true, false, if-both, Returns,
  Returns-bind, Returns-guard, require-some, Option, some, none, List, [], ◌∷◌, arith, All, any,
  require, get_elem?, leb, ◌==◌,
}
use autohub.Flow.Model.{
  Flow, FlowStep, FlowAttempt, StepSpec, task_step, approval_step, TaskStep, ApprovalStep,
  RunStatus, queued, running, waiting, canceling, completed, canceled, failed, step_queued,
  step_completed, step_canceled,
}
use autohub.Flow.Contract.{Contract, contract}
use autohub.Flow.Declared.{spec_id}
use autohub.Flow.Runtime.{is_queued, put_at}
use autohub.Flow.Commands.{
  Action, approve, revise, cancel, resume, cancel_run, cancel_idle, can_cancel, is_open, decide,
  revise_run, send_back, resume_run, index_of, run_waits, run_failed, requeue,
}
use autohub.Flow.Rows.{
  get_elem?-map, length-put_at, length-reset_from, map-put_at, map-put_at_same,
  map-reset_from_tries, map-reset_from_reworks, reset_from-IsSplit, reset_at,
}
use autohub.Flow.Soundness.{
  IsSound, IsAgreed, IsClosed, rests, is_running, queued_rests, row_change-IsSound, row_change-view,
  row_done-IsSound, row_done-Move,
}
use autohub.Flow.Progress.{
  Move, mends, returns, stops, stopping_moves, IsLive, live_going, live_broken, view, phase_of,
  going, broken,
}

-- What a command does to a run whose revision was raised.
abbrev pub IsObeyed : Contract → Flow → Flow → Type 0
IsObeyed c g h = IsSound c h × Move c.steps (view g) (view h) × (h.run.revision ≡ g.run.revision)

-- An approval of the contract sends back to a step before it.
abbrev pub ReturnsEarlier : List StepSpec → Type 0
ReturnsEarlier specs =
    (i : ℕ) (s : ApprovalStep) (id target : ℕ)
    → get_elem? specs i ≡ some (approval_step s)
    → s.revise_to ≡ some id
    → index_of (λ spec. spec_id spec == id) specs ≡ some target
    → target < i

cancel-IsLive : (s : RunStatus) → can_cancel s ≡ true → IsLive (phase_of s)
cancel-IsLive queued h = live_going
cancel-IsLive running h = live_going
cancel-IsLive waiting h = live_going
cancel-IsLive failed h = live_broken
cancel-IsLive completed h = cc
cancel-IsLive canceling h = cc
cancel-IsLive canceled h = cc

any_open :
    (items : List FlowAttempt) → All IsClosed items → any (λ a. is_open a.status) items ≡ false
any_open [] h = refl
any_open (a ∷ rest) h = let later = any_open rest h.1 in ground (arith, h, later)

none_open :
    (items : List FlowAttempt) → any (λ a. is_open a.status) items ≡ false → All IsClosed items
none_open [] h = tt
none_open (a ∷ rest) h = (ground (arith, h), none_open rest (ground (arith, h)))

pub run_waits-going : (s : RunStatus) → run_waits s ≡ true → phase_of s ≡ going
run_waits-going s h = ground arith

pub run_failed-broken : (s : RunStatus) → run_failed s ≡ true → phase_of s ≡ broken
run_failed-broken s h = ground arith

canceled_rests :
    (row : FlowStep) (spec : Option StepSpec)
    → row.status ≡ step_canceled
    → rests canceled (some row) spec ≡ true
canceled_rests row none h = ground (arith, h)
canceled_rests row (some (task_step s)) h = ground (arith, h)
canceled_rests row (some (approval_step s)) h = ground (arith, h)

module _ (c : Contract) (g : Flow) (sound : IsSound c g) where
  -- The current row is not running, so no attempt is open.
  pub settled :
      (r : FlowStep)
      → get_elem? g.steps g.run.step_index ≡ some r
      → is_running r.status ≡ false
      → All IsClosed g.attempts
  settled r at_r still = elim sound.3 [
    | inl resting ↦ resting.1
    | inr working ↦
        let same : working.0.0 ≡ r = some_injective (sym working.0.4 ∙ at_r) in
        let busy : is_running r.status ≡ true =
          subst (λ x. is_running x.status ≡ true) same working.0.5 in
        absurd (cc)
  ]

  stopping_now :
      (now : ℕ)
      → can_cancel g.run.status ≡ true
      → any (λ a. is_open a.status) g.attempts ≡ true
      → IsAgreed g.run.status
          (get_elem? g.steps g.run.step_index)
          (get_elem? c.steps g.run.step_index)
          g.attempts
      → IsObeyed c g
          (record g { run = record g.run { status = canceling; next_action_at = some now } })
  unfolding contract
  stopping_now now may outstanding (inl resting) =
      let shut = any_open g.attempts resting.1 in absurd (cc)
  stopping_now now may outstanding (inr working) = (
    (sound.0, sound.1, sound.2, inr (working.0, refl)),
    stopping_moves (cancel-IsLive g.run.status may) refl,
    refl,
  )

  canceled_idle :
      (row : Option FlowStep)
      → get_elem? g.steps g.run.step_index ≡ row
      → can_cancel g.run.status ≡ true
      → All IsClosed g.attempts
      → IsObeyed c g (cancel_idle g row)
  unfolding contract
  canceled_idle none at_r may shut = (
    (sound.0, sound.1, sound.2, inl (refl, shut, rw at_r refl)),
    stops (cancel-IsLive g.run.status may) refl,
    refl,
  )
  canceled_idle (some r) at_r may shut =
      let row = record r { status = step_canceled; deadline = none } in
      let run = record g.run { status = canceled; next_action_at = none } in
      (
        row_change-IsSound c g sound r row run g.attempts at_r sound.0 refl refl
            (inl (refl, shut, canceled_rests row (get_elem? c.steps g.run.step_index) refl)),
        stops (cancel-IsLive g.run.status may)
            (row_change-view c g sound r row run g.attempts at_r refl refl refl),
        refl,
      )

  pub canceled_at :
      (now : ℕ)
      → can_cancel g.run.status ≡ true
      → IsObeyed c g (cancel_run g (get_elem? g.steps g.run.step_index) now)
  canceled_at now may =
      if-both (IsObeyed c g) (any (λ a. is_open a.status) g.attempts) _ _
        (λ outstanding. stopping_now now may outstanding sound.3)
        (λ quiet.
          canceled_idle (get_elem? g.steps g.run.step_index) refl may (none_open g.attempts quiet))

  module _ (r : FlowStep) (at_r : get_elem? g.steps g.run.step_index ≡ some r) where
    sent_back :
        (spec : ApprovalStep) (id target now : ℕ)
        → get_elem? c.steps g.run.step_index ≡ some (approval_step spec)
        → spec.revise_to ≡ some id
        → index_of (λ s. spec_id s == id) c.steps ≡ some target
        → target < g.run.step_index
        → leb spec.max_revisions r.rework_count ≡ false
        → phase_of g.run.status ≡ going
        → All IsClosed g.attempts
        → IsObeyed c g (send_back g r target now)
    unfolding contract
    sent_back spec id target now at_spec to at_t lt few live shut =
        let row = record r { rework_count = suc r.rework_count } in
        (
          (
            sound.0,
            length-reset_from target (put_at g.run.step_index row g.steps)
                ∙ length-put_at g.run.step_index row g.steps
                ∙ sound.1,
            reset_from-IsSplit g.run.step_index target row g.steps sound.2 lt,
            inl (
              refl,
              shut,
              queued_rests queued _ _
                  (λ q. reset_at target q (put_at g.run.step_index row g.steps)),
            ),
          ),
          returns spec id r.rework_count target at_spec to at_t lt
              (get_elem?-map (λ x. x.rework_count) g.run.step_index r g.steps at_r)
              (ground (arith, few)) live
              (rw
                (
                  live,
                  map-reset_from_tries target (put_at g.run.step_index row g.steps),
                  map-reset_from_reworks target (put_at g.run.step_index row g.steps),
                  map-put_at_same (λ x. x.attempt_count) g.run.step_index row r g.steps at_r refl,
                  map-put_at (λ x. x.rework_count) g.run.step_index row g.steps,
                )
                refl),
          refl,
        )

    revised :
        (earlier : ReturnsEarlier c.steps) (spec : ApprovalStep) (now : ℕ) (to : Option ℕ)
        → get_elem? c.steps g.run.step_index ≡ some (approval_step spec)
        → spec.revise_to ≡ to
        → phase_of g.run.status ≡ going
        → All IsClosed g.attempts
        → Returns (IsObeyed c g) (revise_run c g r spec now to)
    revised earlier spec now none at_spec to live shut = tt
    revised earlier spec now (some id) at_spec to live shut =
        Returns-guard (IsObeyed c g) (leb spec.max_revisions r.rework_count) 409 "revision-limit" _
          (λ few.
            Returns-bind (IsObeyed c g)
              (require (index_of (λ s. spec_id s == id) c.steps) 500 "StopIteration") _
              (λ target e.
                let at_t = require-some _ 500 "StopIteration" e in
                sent_back spec id target now at_spec to at_t
                  (earlier g.run.step_index spec id target at_spec to at_t) few live shut))

    pub decided :
        (earlier : ReturnsEarlier c.steps) (spec : ApprovalStep) (action : Action) (now : ℕ)
        → get_elem? c.steps g.run.step_index ≡ some (approval_step spec)
        → phase_of g.run.status ≡ going
        → All IsClosed g.attempts
        → Returns (IsObeyed c g) (decide c g r spec action now)
    unfolding contract
    decided earlier spec approve now at_spec live shut =
        let row = record r { status = step_completed; deadline = none } in
        let run = record (requeue g.run now) { step_index = suc g.run.step_index } in
        (
          row_done-IsSound c g sound r row run g.attempts at_r sound.0 refl refl refl refl refl
              shut,
          row_done-Move c g sound r row run g.attempts at_r sound.0 refl refl refl refl refl shut
              live,
          refl,
        )
    decided earlier spec revise now at_spec live shut =
        revised earlier spec now spec.revise_to at_spec refl live shut
    decided earlier spec cancel now at_spec live shut = tt
    decided earlier spec resume now at_spec live shut = tt

    pub resumed :
        (spec : TaskStep) (now : ℕ)
        → phase_of g.run.status ≡ broken
        → All IsClosed g.attempts
        → Returns (IsObeyed c g) (resume_run g r spec now)
    unfolding contract
    resumed spec now broken_now shut =
        let row = record r { status = step_queued; output = none } in
        Returns-guard (IsObeyed c g) (leb spec.max_attempts r.attempt_count) 409 "attempt-limit" _
          (λ few. (
            row_change-IsSound c g sound r row (requeue g.run now) g.attempts at_r sound.0 refl refl
                (inl (
                  refl,
                  shut,
                  queued_rests queued (some row) _
                      (λ q e. subst (λ x. is_queued x.status ≡ true) (some_injective e) refl),
                )),
            mends broken_now (
                row_change-view c g sound r row (requeue g.run now) g.attempts at_r refl refl refl),
            refl,
          ))
