-- ===== src/Flow/Soundness/Commanding.antt =====
-- flows/runtime.py, `command_transition`: all its branches together.
use autohub.Base.{
  ℕ, ◌≡◌, refl, Bool, true, false, ◌&&◌, if-both, Returns, Returns-bind, Returns-guard, Option,
  some, none, arith, ok, require, get_elem?, ◌>>=◌, sym, ◌∙◌, ok_injective, subst,
}
use autohub.Flow.Model.{Flow, FlowStep, StepSpec, task_step, approval_step, StepStatus}
use autohub.Flow.Contract.{Contract, contract}
use autohub.Flow.Commands.{
  Action, command_transition, command_at, spec_at, can_cancel, is_past, row_waits, run_waits,
  row_failed, run_failed, is_resume, is_cancel,
}
use autohub.Flow.Soundness.{IsSound, is_running}
use autohub.Flow.Soundness.Commanded.{
  IsObeyed, ReturnsEarlier, run_waits-going, run_failed-broken, settled, canceled_at, decided,
  resumed,
}

and_left : (a b : Bool) → (a && b) ≡ true → a ≡ true
and_left a b h = ground arith

and_right : (a b : Bool) → (a && b) ≡ true → b ≡ true
and_right a b h = ground arith

row_waits_still : (s : StepStatus) → row_waits s ≡ true → is_running s ≡ false
row_waits_still s h = ground arith

row_failed_still : (s : StepStatus) → row_failed s ≡ true → is_running s ≡ false
row_failed_still s h = ground arith

spec_found :
    (c : Contract) (i : ℕ) (r : FlowStep) (spec : Option StepSpec)
    → spec_at c i (some r) ≡ ok spec
    → get_elem? c.steps i ≡ spec
spec_found c i r spec h = found (get_elem? c.steps i) h
  where
    found :
        (o : Option StepSpec)
        → (require o 500 "IndexError" >>= λ s. ok (some s)) ≡ ok spec
        → o ≡ spec
    found none e = cc
    found (some s) e = ok_injective e

module _ (c : Contract) (g : Flow) (sound : IsSound c g) (earlier : ReturnsEarlier c.steps) where
  at-IsObeyed :
      (row : Option FlowStep) (spec : Option StepSpec) (action : Action) (now : ℕ)
      → get_elem? g.steps g.run.step_index ≡ row
      → spec_at c g.run.step_index row ≡ ok spec
      → Returns (IsObeyed c g) (command_at c g row spec action now)
  at-IsObeyed none spec action now at_r e = tt
  at-IsObeyed (some r) none action now at_r e = tt
  at-IsObeyed (some r) (some (approval_step s)) action now at_r e =
      if-both (Returns (IsObeyed c g)) (row_waits r.status && run_waits g.run.status) _ _
        (λ waits.
          let row_on = and_left (row_waits r.status) _ waits in
          let run_on = and_right (row_waits r.status) _ waits in
          Returns-guard (IsObeyed c g) (is_past r.deadline now) 409 "approval-expired" _ (λ early.
            decided c g sound r at_r earlier s action now (spec_found c g.run.step_index r _ e)
              (run_waits-going g.run.status run_on)
              (settled c g sound r at_r (row_waits_still r.status row_on))))
        (λ other. tt)
  at-IsObeyed (some r) (some (task_step s)) action now at_r e =
      if-both (Returns (IsObeyed c g))
        (is_resume action && (run_failed g.run.status && row_failed r.status)) _ _
        (λ failing.
          let both = and_right (is_resume action) _ failing in
          let run_on = and_left (run_failed g.run.status) _ both in
          let row_on = and_right (run_failed g.run.status) _ both in
          resumed c g sound r at_r s now (run_failed-broken g.run.status run_on)
            (settled c g sound r at_r (row_failed_still r.status row_on)))
        (λ other. tt)

  pub command_transition-IsObeyed :
      (action : Action) (now : ℕ) → Returns (IsObeyed c g) (command_transition g action now)
  unfolding command_transition
  command_transition-IsObeyed action now = Returns-bind (IsObeyed c g) (contract g.run) _ (λ d e.
      let same : d ≡ c = ok_injective (sym e ∙ sound.0) in
      Returns-bind (IsObeyed c g) (spec_at d g.run.step_index (get_elem? g.steps g.run.step_index))
        _
        (λ spec e_spec.
          if-both (Returns (IsObeyed c g)) (is_cancel action && can_cancel g.run.status) _ _
            (λ yes. canceled_at c g sound now (and_right (is_cancel action) _ yes))
            (λ no.
              subst
                (λ k.
                  Returns (IsObeyed c g)
                    (command_at k g (get_elem? g.steps g.run.step_index) spec action now))
                (sym same)
                (at-IsObeyed (get_elem? g.steps g.run.step_index) spec action now refl (
                  subst
                    (λ k. spec_at k g.run.step_index (get_elem? g.steps g.run.step_index) ≡ ok spec)
                    same e_spec)))))
