-- ===== src/Tests/Catalog.antt =====
-- The gateway at work: a Codex plan that meets its limit, and a Jules plan with one task a day.
use autohub.Base.{
  ℕ, ◌+◌, ◌-◌, ◌%◌, ◌*◌, ◌≤◌, ◌<◌, ◌≡◌, refl, Bool, true, false, Option, none, some, List, [], ◌∷◌,
  ok, raise, project_error, arith, count, any, is_none, String, Result, ◌==◌, ◌⊎◌,
}
use autohub.Catalog.Model.{
  AiCatalog, AiCatalogState, normal, quota_blocked, probe, known, codex, jules,
  codex_github_mention, CodexWindowConfig, rolling, DailyQuotaConfig, codex_config, daily_config,
  PolicyState, empty_state, other_state, minutes, hold_state, is_shut, is_quota_blocked,
}
use autohub.Catalog.Codex
use autohub.Catalog.Codex.Hold
use autohub.Catalog.Codex.Probe
use autohub.Catalog.Codex.Retry
use autohub.Catalog.Daily
use autohub.Catalog.Daily.Room
use autohub.Catalog.Store.{
  Dispatch, Store, day, get_catalog, get_by_key, put_catalog, reserve_dispatch,
  active_dispatch_count, dispatch_times_since, run_holds_capacity, open_session_count,
  admits_dispatch,
}
use autohub.Catalog.Store.Ledger.{in_window_of}
use autohub.Catalog.Gateway
use autohub.Catalog.Gateway.{DispatchRequest}
use autohub.Catalog.Gateway.Checks
use autohub.Catalog.Gateway.Admission
use autohub.Catalog.Gateway.Holds

-- What the runs below compute with.
program : Unit {0}
unfolding Codex.read_config Codex.read_state Codex.config_fields_valid Codex.usage_window
    Codex.settle_probe Codex.admit Codex.on_delivered Codex.on_quota_signal Codex.held_until
    Codex.refresh_anchor Codex.hold_for_quota Codex.on_hold_cleared Codex.on_availability_override
    Codex.effective_concurrency Daily.read_config Daily.config_fields_valid Daily.window_start
    Daily.next_room_at Daily.admit hold_state get_catalog get_by_key put_catalog reserve_dispatch
    active_dispatch_count dispatch_times_since run_holds_capacity open_session_count
    Gateway.dispatch_rejection Gateway.policy_admit Gateway.policy_override
    Gateway.effective_concurrency Gateway.request_dispatch Gateway.set_enabled Retry.run_events
    Retry.step Retry.completed_probe Retry.spent
program = tt

abbrev zones : Daily.LocalMidnight
zones = record {
  known = λ _. true;
  midnight = λ _ t. t - t % day;
  next_midnight = λ _ t. t - t % day + day;
  next_midnight_later = λ _ t. omega arith;
}

abbrev pub plan : CodexWindowConfig
plan = record {
  short_refresh_enabled = true;
  short_refresh_cycle_minutes = 300;
  long_refresh_cycle_minutes = 10_080;
  probe_window_minutes = 10;
}

abbrev now : ℕ
now = 100 * day

abbrev codex_catalog : AiCatalogState → Option ℕ → PolicyState → AiCatalog
codex_catalog state held policy = record {
  id = 1;
  key = 10;
  name = 11;
  kind = known codex;
  adapter = codex_github_mention;
  connector_id = none;
  enabled = true;
  availability_state = state;
  available_at = held;
  availability_source = none;
  availability_updated_at = none;
  availability_note = none;
  configured_concurrency = 2;
  refresh_jitter_minutes = 10;
  policy_config = codex_config plan;
  policy_state = policy;
  revision = 1;
}

abbrev pub fresh_codex : AiCatalog
fresh_codex = codex_catalog normal none empty_state

abbrev held_codex : AiCatalog
held_codex = codex_catalog quota_blocked (some now) empty_state

abbrev pub store_of : AiCatalog → List Dispatch → Store
store_of c rows = record {
  catalogs = c ∷ [];
  connectors = [];
  dispatches = rows;
  sessions = [];
  tests = [];
  runs = [];
  attempts = [];
}

abbrev request : ℕ → ℕ → DispatchRequest
request key at = record {
  catalog_id = 1;
  run_id = none;
  dispatch_key = key;
  now = at;
  exclude_test_id = none;
  clock = at;
}

plan_read : Codex.read_config held_codex.policy_config ≡ ok plan
unfolding program
plan_read = refl

state_read : Codex.read_state held_codex.policy_state ≡ ok Codex.initial_state
unfolding program
state_read = refl

on_quota_signal_holds_example :
    (c' : AiCatalog) × (t' : ℕ) × (Codex.on_quota_signal held_codex (now + 5) (now + 6) ≡ ok c')
    × (c'.available_at ≡ some t')
    × (now ≤ t')
    × (now + 5 < t')
on_quota_signal_holds_example =
    Hold.on_quota_signal_holds held_codex plan Codex.initial_state (now + 5) (now + 6) now plan_read
      state_read (λ _. omega arith) refl refl

abbrev held : Probe.IsHeld held_codex plan Codex.initial_state now
held = record { config_read = plan_read; state_read = state_read; blocked = refl; until = refl }

probe_recovers_example :
    (p r n : AiCatalog) × (Codex.admit held_codex (now + 1) ≡ ok p)
    × (p.availability_state ≡ probe)
    × (Codex.effective_concurrency p ≡ 1)
    × (Codex.on_delivered p (now - 1) ≡ ok p)
    × (Codex.on_delivered p (now + 2) ≡ ok r)
    × (Codex.admit r (now + 3) ≡ ok r)
    × (Codex.effective_concurrency r ≡ 1)
    × (Codex.admit r (now + day) ≡ ok n)
    × (n.availability_state ≡ normal)
    × (n.available_at ≡ none)
    × (Codex.effective_concurrency n ≡ 2)
probe_recovers_example =
    Probe.probe_recovers held (now + 1) (now - 1) (now + 2) (now + 3) (now + day) (omega arith)
      (omega arith) (omega arith) (omega arith)

-- Three refusals, each after the hold before: two short cycles and a long one.
abbrev three_signals : List Retry.Event
three_signals =
    Retry.quota_signal now now
    ∷ Retry.quota_signal (now + day) (now + day)
    ∷ Retry.quota_signal (now + 2 * day) (now + 2 * day)
    ∷ []

abbrev after_signals : AiCatalog
unfolding program
after_signals = elim (Retry.run_events fresh_codex three_signals) [
  | ok r ↦ r.0
  | raise _ ↦ fresh_codex
]

three_signals_run : Retry.run_events fresh_codex three_signals ≡ ok (after_signals, 2, 0)
unfolding program
three_signals_run = refl

short_holds_bounded_example : (2 ≤ 2 + 2 * 0) × (Retry.spent after_signals.policy_state ≤ 2)
unfolding program
short_holds_bounded_example =
    Retry.short_holds_bounded fresh_codex three_signals {last = after_signals} (omega arith)
      three_signals_run

-- One task a day.
abbrev daily : DailyQuotaConfig
daily = record { daily_task_limit = 1; window = rolling; timezone = "UTC" }

abbrev jules_catalog : AiCatalog
jules_catalog = record fresh_codex { kind = known jules; policy_config = daily_config daily }

abbrev row : ℕ → ℕ → Dispatch
row key at = record { ai_catalog_id = 1; dispatch_key = key; admitted_at = at }

abbrev full_ledger : List Dispatch
full_ledger = row 7 now ∷ []

daily_read : Daily.read_config zones jules_catalog.policy_config ≡ ok daily
unfolding program
daily_read = refl

abbrev held_jules : AiCatalog
unfolding program
held_jules = elim (Daily.admit zones full_ledger jules_catalog 8 (now + 1)) [
  | ok r ↦ r.0
  | raise _ ↦ jules_catalog
]

second_task_waits :
    Daily.admit zones full_ledger jules_catalog 8 (now + 1)
    ≡ ok (held_jules, some (Daily.daily_limit_rejection zones))
unfolding program
second_task_waits = refl

held_jules_until : held_jules.available_at ≡ some (now + day + minutes 10)
unfolding program
held_jules_until = refl

admit_after_rejection_example :
    (free : AiCatalog) × (Daily.admit zones full_ledger held_jules 8 (now + 2 * day)
      ≡ ok (free, none))
admit_after_rejection_example =
    Room.admit_after_rejection zones full_ledger jules_catalog held_jules daily 8 (now + 1)
      (now + day + minutes 10) (now + 2 * day) daily_read refl second_task_waits held_jules_until
      (omega arith) (omega arith)

admit_total_example :
    (r : AiCatalog × Option String) × (Daily.admit zones full_ledger jules_catalog 8 (now + 1)
      ≡ ok r)
admit_total_example =
    Room.admit_total zones full_ledger jules_catalog daily 8 (now + 1) daily_read refl

admits_dispatch-dispatch_rejection_example :
    admits_dispatch held_codex (some (now - 1))
    ≡ is_none (Gateway.dispatch_rejection held_codex (now - 1))
admits_dispatch-dispatch_rejection_example =
    Checks.admits_dispatch-dispatch_rejection held_codex (now - 1)

admits_dispatch-none_example : Gateway.dispatch_rejection fresh_codex now ≡ none
unfolding program admits_dispatch
admits_dispatch-none_example = Checks.admits_dispatch-none fresh_codex now refl

abbrev one_codex : Store
one_codex = store_of held_codex []

abbrev switch : Store → Bool → ℕ → Store × AiCatalog
unfolding program
switch s on at = elim (Gateway.set_enabled s 10 on at) [ ok r ↦ r | raise _ ↦ (s, held_codex) ]

abbrev off : Store × AiCatalog
off = switch one_codex false (now - 3)

abbrev on_again : Store × AiCatalog
on_again = switch off.0 true (now - 2)

abbrev broken_codex : AiCatalog
broken_codex = codex_catalog quota_blocked (some now) other_state

abbrev stuck : {A : Type 0} → Result A
stuck = raise (project_error 409 "AI catalog has invalid Codex usage-window state; clear its hold")

invalid_state_stuck_example :
    (Gateway.clear_availability (store_of broken_codex []) 10 now ≡ stuck)
    × (Gateway.set_enabled (store_of broken_codex []) 10 false now ≡ stuck)
    × (Gateway.set_availability (store_of broken_codex []) 10 (now + 1) 5 none now ≡ stuck)
unfolding program
invalid_state_stuck_example =
    Checks.invalid_state_stuck (store_of broken_codex []) broken_codex 10 now (now + 1) 5 none false
      refl refl refl (omega arith)

abbrev one_jules : Store
one_jules = store_of jules_catalog []

abbrev answer : Store → DispatchRequest → Store × AiCatalog × Option String
unfolding program
answer s r = elim (Gateway.request_dispatch zones s r) [
  | ok x ↦ x
  | raise _ ↦ (s, jules_catalog, none)
]

abbrev first_answer : Store × AiCatalog × Option String
first_answer = answer one_jules (request 7 now)

first_admitted :
    Gateway.request_dispatch zones one_jules (request 7 now)
    ≡ ok (first_answer.0, first_answer.1, none)
unfolding program
first_admitted = refl

request_dispatch_admits_example :
    (c : AiCatalog) × (get_catalog one_jules 1 ≡ some c)
    × (Gateway.dispatch_rejection c now ≡ none)
    × (c.enabled ≡ true)
    × (is_shut c.availability_state ≡ false)
    × ((is_quota_blocked c.availability_state ≡ false)
        ⊎ ((t : ℕ) × (c.available_at ≡ some t) × (t ≤ now)))
    × (Gateway.policy_admit zones c.kind one_jules c 7 now ≡ ok (first_answer.1, none))
    × (Gateway.active_now one_jules (request 7 now)
        < Gateway.effective_concurrency first_answer.1.kind first_answer.1)
    × (any (λ row. row.dispatch_key == 7) first_answer.0.dispatches ≡ true)
    × (first_answer.0.sessions ≡ [])
    × (first_answer.0.tests ≡ [])
    × (first_answer.0.runs ≡ [])
    × (first_answer.0.attempts ≡ [])
request_dispatch_admits_example =
    Admission.request_dispatch_admits zones one_jules first_answer.0 (request 7 now) first_answer.1
      first_admitted

request_dispatch_daily_cap_example :
    (count (in_window_of 1 (Daily.window_start zones daily now)) first_answer.0.dispatches ≤ 1)
    × ((k : ℕ) → count (λ row. row.dispatch_key == k) first_answer.0.dispatches ≤ 1)
unfolding program
request_dispatch_daily_cap_example =
    Admission.request_dispatch_daily_cap zones one_jules first_answer.0 (request 7 now)
      jules_catalog first_answer.1 daily (λ k. omega arith) refl refl daily_read first_admitted

abbrev second_answer : Store × AiCatalog × Option String
second_answer = answer first_answer.0 (request 8 (now + 1))

second_rejected :
    Gateway.request_dispatch zones first_answer.0 (request 8 (now + 1))
    ≡ ok (second_answer.0, second_answer.1, some (Daily.daily_limit_rejection zones))
unfolding program
second_rejected = refl

second_found : get_catalog first_answer.0 1 ≡ some jules_catalog
unfolding program
second_found = refl

request_dispatch_rejects_example :
    (second_answer.0 ≡ first_answer.0)
    ⊎ ((Gateway.dispatch_rejection jules_catalog (now + 1) ≡ none)
        × (second_answer.0 ≡ put_catalog first_answer.0 second_answer.1))
request_dispatch_rejects_example =
    Admission.request_dispatch_rejects zones first_answer.0 second_answer.0 (request 8 (now + 1))
      jules_catalog second_answer.1 second_found second_rejected

abbrev one_fresh : Store
one_fresh = store_of fresh_codex []

fresh_found : get_catalog one_fresh 1 ≡ some fresh_codex
unfolding program
fresh_found = refl

fresh_ids : (id : ℕ) → count (λ c. c.id == id) one_fresh.catalogs ≤ 1
fresh_ids id = ground arith

record_quota_event_closes_gateway_example :
    (s' : Store) × (c' : AiCatalog) × (Gateway.record_quota_event zones one_fresh 1 now (now + 1)
      ≡ ok (s', c'))
    × (c'.available_at ≡ some (Codex.held_until plan fresh_codex Codex.initial_state now))
    × (now < Codex.held_until plan fresh_codex Codex.initial_state now)
    × (Gateway.request_dispatch zones s' (request 9 (now + 5)) ≡ ok (s', c', some Gateway.waiting))
unfolding program
record_quota_event_closes_gateway_example =
    Holds.record_quota_event_closes_gateway zones one_fresh fresh_codex plan Codex.initial_state now
      (now + 1) (request 9 (now + 5)) fresh_ids fresh_found refl refl plan_read state_read
      (λ _. omega arith) refl refl (omega arith)
