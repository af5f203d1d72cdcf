-- ===== src/Catalog/Codex.antt =====
-- ai_catalogs/policies/codex_window.py: a Codex plan resets a usage window a fixed time after its
-- first task. The mutating methods return the new catalog; `_store` replaces the stored state.
pub mod Hold
pub mod Retry
pub mod Probe
use autohub.Base.{
  ℕ, ◌+◌, ◌-◌, Bool, true, false, ◌&&◌, ◌||◌, Option, none, some, Result, ok, raise, project_error,
  ◌>>=◌, if◌then◌else◌, ltb, leb, is_none, is_some,
}
use autohub.Catalog.Model.{
  AiCatalog, quota_blocked, probe, normal, CodexWindowConfig, CodexWindowState, PolicyConfig,
  codex_config, daily_config, other_config, PolicyState, empty_state, codex_state, other_state,
  quota_short_cycle, quota_long_cycle, probe_completed, codex_short_limit, codex_long_limit,
  minutes, hold_state, is_quota_blocked, is_probe,
}

abbrev pub short_refresh_failure_limit : ℕ
short_refresh_failure_limit = 2

abbrev pub in_range : ℕ → ℕ → ℕ → Bool
in_range lo hi n = leb lo n && leb n hi

-- The `Field(ge=…, le=…)` bounds of the settings.
unfoldable pub config_fields_valid : CodexWindowConfig → Bool
config_fields_valid c =
    in_range 1 43_200 c.short_refresh_cycle_minutes
    && (in_range 1 525_600 c.long_refresh_cycle_minutes && in_range 1 1_440 c.probe_window_minutes)

unfoldable pub validate_config : PolicyConfig → Result PolicyConfig
unfolding config_fields_valid
validate_config (codex_config c) =
    if config_fields_valid c
    then ok (codex_config c)
    else raise (project_error 422 "Invalid Codex refresh policy")
validate_config (daily_config c) = raise (project_error 422 "Invalid Codex refresh policy")
validate_config other_config = raise (project_error 422 "Invalid Codex refresh policy")

abbrev config_error : Result CodexWindowConfig
config_error =
    raise (project_error 409 "AI catalog has an invalid Codex refresh policy; save it again")

-- `_config`.
unfoldable pub read_config : PolicyConfig → Result CodexWindowConfig
unfolding config_fields_valid
read_config (codex_config c) = if config_fields_valid c then ok c else config_error
read_config (daily_config c) = config_error
read_config other_config = config_error

abbrev pub initial_state : CodexWindowState
initial_state = record {
  probe_started_at = none;
  short_refresh_failure_count = 0;
  last_refreshed_at = none;
  usage_window_started_at = none;
}

-- `_state`.
unfoldable pub read_state : PolicyState → Result CodexWindowState
read_state empty_state = ok initial_state
read_state (codex_state s) = ok s
read_state other_state =
    raise (project_error 409 "AI catalog has invalid Codex usage-window state; clear its hold")

-- `_store`.
abbrev pub store : AiCatalog → CodexWindowState → AiCatalog
store catalog state = record catalog { policy_state = codex_state state }

-- `_usage_window`.
unfoldable pub usage_window : CodexWindowConfig → ℕ
usage_window c = minutes (
    if c.short_refresh_enabled then c.short_refresh_cycle_minutes else c.long_refresh_cycle_minutes)

unfoldable pub effective_concurrency : AiCatalog → ℕ
effective_concurrency catalog =
    if is_probe catalog.availability_state then 1 else catalog.configured_concurrency

-- `now - utc(started) >= timedelta(minutes=probe_window_minutes)`.
abbrev pub probe_is_over : CodexWindowState → CodexWindowConfig → ℕ → Bool
probe_is_over state config now = elim state.probe_started_at [
  | none ↦ false
  | some started ↦ leb (started + minutes config.probe_window_minutes) now
]

-- `_settle_probe`: a delivered probe whose window passed restores the normal concurrency.
unfoldable pub settle_probe :
    AiCatalog → CodexWindowState → CodexWindowConfig → ℕ → AiCatalog × CodexWindowState
settle_probe catalog state config now =
    if is_probe catalog.availability_state && probe_is_over state config now
    then (
      record catalog {
        availability_state = normal;
        available_at = none;
        availability_note = some probe_completed;
        revision = catalog.revision + 1;
      },
      record state { probe_started_at = none; short_refresh_failure_count = 0 },
    )
    else (catalog, state)

-- The branch of `admit` that resumes an expired hold through a probe.
abbrev pub start_probe : AiCatalog → CodexWindowState → ℕ → AiCatalog
start_probe catalog state until =
    store (record catalog { availability_state = probe; revision = catalog.revision + 1 })
      (record state {
        probe_started_at = none;
        usage_window_started_at = none;
        last_refreshed_at = some until;
      })

abbrev pub settled : AiCatalog × CodexWindowState → AiCatalog
settled (catalog, state) = store catalog state

abbrev pub resume_or_settle :
    AiCatalog → CodexWindowState → CodexWindowConfig → ℕ → Bool → Option ℕ → AiCatalog
resume_or_settle catalog state config now true (some until) = start_probe catalog state until
resume_or_settle catalog state config now _ _ = settled (settle_probe catalog state config now)

-- `admit` never rejects: Codex reports exhaustion only after a task ran.
unfoldable pub admit : AiCatalog → ℕ → Result AiCatalog
admit catalog now = do
  config ← read_config catalog.policy_config
  state ← read_state catalog.policy_state
  ok (
      resume_or_settle catalog state config now (is_quota_blocked catalog.availability_state)
        catalog.available_at)

-- `value is not None and observed < value`.
abbrev pub before : ℕ → Option ℕ → Bool
before observed none = false
before observed (some t) = ltb observed t

-- Whether a delivery opens a usage window: none is known, or the known one has reset.
abbrev pub opens_window : Option ℕ → ℕ → ℕ → Bool
opens_window none length posted = true
opens_window (some started) length posted = leb (started + length) posted

abbrev pub delivered : AiCatalog → CodexWindowState → CodexWindowConfig → ℕ → AiCatalog
delivered catalog state config posted =
    let opens = opens_window state.usage_window_started_at (usage_window config) posted in
    let probes = is_probe catalog.availability_state && is_none state.probe_started_at in
    let state' = record state {
      usage_window_started_at = if opens then some posted else state.usage_window_started_at;
      probe_started_at = if probes then some posted else state.probe_started_at;
    } in
    if opens || probes
    then store (record catalog { revision = catalog.revision + 1 }) state'
    else catalog

unfoldable pub on_delivered : AiCatalog → ℕ → Result AiCatalog
on_delivered catalog posted = do
  config ← read_config catalog.policy_config
  state ← read_state catalog.policy_state
  ok (
      if before posted state.last_refreshed_at
      then catalog
      else delivered catalog state config posted)

-- `catalog.available_at or state.last_refreshed_at`.
abbrev pub or_else : Option ℕ → Option ℕ → Option ℕ
or_else none b = b
or_else (some a) b = some a

-- The start of the usage window that holds the observation, or the observation itself.
unfoldable pub refresh_anchor : CodexWindowConfig → Option ℕ → ℕ → ℕ
unfolding usage_window
refresh_anchor config none observed = observed
refresh_anchor config (some started) observed =
    if leb started observed && ltb observed (started + usage_window config)
    then started
    else observed

abbrev pub use_short_cycle : CodexWindowConfig → CodexWindowState → Bool
use_short_cycle config state =
    config.short_refresh_enabled
    && ltb state.short_refresh_failure_count short_refresh_failure_limit

-- The end of the hold: a cycle after the anchor, with the catalog's jitter.
unfoldable pub held_until : CodexWindowConfig → AiCatalog → CodexWindowState → ℕ → ℕ
unfolding refresh_anchor
held_until config catalog state observed =
    refresh_anchor config state.usage_window_started_at observed
    + minutes (
        (if use_short_cycle config state
          then config.short_refresh_cycle_minutes
          else config.long_refresh_cycle_minutes)
        + catalog.refresh_jitter_minutes)

-- The hold that a quota observation opens.
unfoldable pub hold_for_quota : CodexWindowConfig → AiCatalog → CodexWindowState → ℕ → ℕ → AiCatalog
unfolding hold_state
hold_for_quota config catalog state observed now =
    let short = use_short_cycle config state in
    store
      (record catalog {
        available_at = some (held_until config catalog state observed);
        availability_source = some (if short then quota_short_cycle else quota_long_cycle);
        availability_state = hold_state catalog;
        availability_note = some (if short then codex_short_limit else codex_long_limit);
        availability_updated_at = some now;
        revision = catalog.revision + 1;
      })
      (record state {
        short_refresh_failure_count =
            if short
            then state.short_refresh_failure_count + 1
            else state.short_refresh_failure_count;
        probe_started_at = none;
      })

abbrev pub quota_observed : CodexWindowConfig → AiCatalog × CodexWindowState → ℕ → ℕ → AiCatalog
quota_observed config (catalog, state) observed now =
    if before observed (or_else catalog.available_at state.last_refreshed_at)
    then store catalog state
    else hold_for_quota config catalog state observed now

unfoldable pub on_quota_signal : AiCatalog → ℕ → ℕ → Result AiCatalog
on_quota_signal catalog observed now = do
  config ← read_config catalog.policy_config
  state ← read_state catalog.policy_state
  ok (quota_observed config (settle_probe catalog state config observed) observed now)

unfoldable pub on_hold_cleared : AiCatalog → ℕ → Result AiCatalog
on_hold_cleared catalog now = do
  state ← read_state catalog.policy_state
  ok (
      store catalog (record state {
        probe_started_at = none;
        last_refreshed_at = some now;
        usage_window_started_at = none;
      }))

unfoldable pub on_availability_override : AiCatalog → Result AiCatalog
on_availability_override catalog = do
  state ← read_state catalog.policy_state
  ok (store catalog (record state { probe_started_at = none }))
