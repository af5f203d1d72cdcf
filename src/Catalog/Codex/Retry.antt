-- ===== src/Catalog/Codex/Retry.antt =====
-- codex_window.py: how many short refresh cycles a plan may spend before it waits a long one.
use autohub.Base.{
  ℕ, ◌+◌, ◌*◌, ◌≤◌, ◌≡◌, Bool, true, false, ◌&&◌, Option, some, List, [], ◌∷◌, Result, ◌>>=◌,
  bind_returned, ok, raise, arith, ltb, if◌then◌else◌,
}
use autohub.Catalog.Model.{
  AiCatalog, PolicyState, empty_state, codex_state, other_state, Note, codex_short_limit, is_probe,
}
use autohub.Catalog.Codex.{
  read_config, read_state, settle_probe, probe_is_over, hold_for_quota, admit, on_delivered,
  on_quota_signal, on_hold_cleared, on_availability_override,
}

-- What happens to a catalog: each event is a call of the policy.
pub data Event : Type 0 where
  admission : (now : ℕ) → Event
  delivery : (posted : ℕ) → Event
  quota_signal : (observed now : ℕ) → Event
  hold_cleared : (now : ℕ) → Event
  override : Event

unfoldable pub step : AiCatalog → Event → Result AiCatalog
step c (admission now) = admit c now
step c (delivery posted) = on_delivered c posted
step c (quota_signal observed now) = on_quota_signal c observed now
step c (hold_cleared now) = on_hold_cleared c now
step c override = on_availability_override c

abbrev pub is_short_note : Option Note → Bool
is_short_note (some codex_short_limit) = true
is_short_note _ = false

-- The signal opened a hold of a short cycle: it raised the revision and wrote the short note.
abbrev pub opened_short : AiCatalog → Event → AiCatalog → ℕ
opened_short c (quota_signal _ _) c' =
    if ltb c.revision c'.revision && is_short_note c'.availability_note then 1 else 0
opened_short _ _ _ = 0

abbrev over_at : AiCatalog → ℕ → ℕ
over_at c t = elim (read_config c.policy_config) [
  | raise _ ↦ 0
  | ok config ↦ elim (read_state c.policy_state) [
    | raise _ ↦ 0
    | ok s ↦ if is_probe c.availability_state && probe_is_over s config t then 1 else 0
  ]
]

-- The event finds a probe whose window has passed.
unfoldable pub completed_probe : AiCatalog → Event → ℕ
completed_probe c (admission now) = over_at c now
completed_probe c (quota_signal observed _) = over_at c observed
completed_probe _ _ = 0

-- The short cycles already spent.
unfoldable pub spent : PolicyState → ℕ
spent empty_state = 0
spent (codex_state s) = s.short_refresh_failure_count
spent other_state = 0

-- The books of one event: what it opened is paid by the counter or by completed probes.
abbrev Balanced : AiCatalog → Event → AiCatalog → Type 0
Balanced c e c' =
    (opened_short c e c' + spent c.policy_state ≤ spent c'.policy_state + 2 * completed_probe c e)
    × (spent c'.policy_state ≤ 2)

module _ (c c' : AiCatalog) (fits : spent c.policy_state ≤ 2) where
  admission_Balanced : (now : ℕ) → admit c now ≡ ok c' → Balanced c (admission now) c'
  unfolding admit read_state settle_probe spent completed_probe
  admission_Balanced now h = ground (arith, fits)

  delivery-Balanced : (t : ℕ) → on_delivered c t ≡ ok c' → Balanced c (delivery t) c'
  unfolding on_delivered read_state spent completed_probe
  delivery-Balanced t h = ground (arith, fits)

  quota_signal_Balanced :
      (o now : ℕ) → on_quota_signal c o now ≡ ok c' → Balanced c (quota_signal o now) c'
  unfolding on_quota_signal read_state settle_probe hold_for_quota spent completed_probe
  quota_signal_Balanced o now h = ground (arith, fits)

  hold_cleared_Balanced : (t : ℕ) → on_hold_cleared c t ≡ ok c' → Balanced c (hold_cleared t) c'
  unfolding on_hold_cleared read_state spent completed_probe
  hold_cleared_Balanced t h = ground (arith, fits)

  override_Balanced : on_availability_override c ≡ ok c' → Balanced c override c'
  unfolding on_availability_override read_state spent completed_probe
  override_Balanced h = ground (arith, fits)

  step-Balanced : (e : Event) → step c e ≡ ok c' → Balanced c e c'
  unfolding step
  step-Balanced (admission now) h = admission_Balanced now h
  step-Balanced (delivery t) h = delivery-Balanced t h
  step-Balanced (quota_signal o now) h = quota_signal_Balanced o now h
  step-Balanced (hold_cleared t) h = hold_cleared_Balanced t h
  step-Balanced override h = override_Balanced h

-- A list of events: the catalog at the end, the short holds opened, and the probes completed.
unfoldable pub run_events : AiCatalog → List Event → Result (AiCatalog × ℕ × ℕ)
run_events c [] = ok (c, 0, 0)
run_events c (e ∷ es) = do
  c' ← step c e
  (last, shorts, probes) ← run_events c' es
  ok (last, opened_short c e c' + shorts, completed_probe c e + probes)

run_events_Balanced :
    (c : AiCatalog) (es : List Event) {last : AiCatalog} {shorts probes : ℕ}
    → spent c.policy_state ≤ 2
    → run_events c es ≡ ok (last, shorts, probes)
    → shorts + spent c.policy_state ≤ spent last.policy_state + 2 * probes
      × spent last.policy_state ≤ 2
unfolding run_events
run_events_Balanced c [] fits h = ground (arith, fits)
run_events_Balanced c (e ∷ es) fits h =
    let (c', one, rest) = bind_returned (step c e) _ h in
    let (r, more, total) = bind_returned (run_events c' es) _ rest in
    let (paid, fits') = step-Balanced c c' fits e one in
    let ih = run_events_Balanced c' es {last = r.0} {shorts = r.1} {probes = r.2} fits' more in
    ground (arith, paid, ih)

-- Take a catalog whose counter of short cycles is at most 2. Over any list of policy events
-- that the policy accepts, the holds of a short cycle number at most two, and two more for each
-- probe whose window passed. The counter stays at most 2.
pub short_holds_bounded :
    (c : AiCatalog) (es : List Event) {last : AiCatalog} {shorts probes : ℕ}
    → spent c.policy_state ≤ 2
    → run_events c es ≡ ok (last, shorts, probes)
    → (shorts ≤ 2 + 2 * probes) × (spent last.policy_state ≤ 2)
short_holds_bounded c es fits h = omega (arith, run_events_Balanced c es fits h)
