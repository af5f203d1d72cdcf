-- ===== src/Catalog/Codex/Hold.antt =====
-- codex_window.py, `on_quota_signal`: where a quota observation puts the hold.
use autohub.Base.{
  ℕ, ◌+◌, ◌≤◌, ◌<◌, ◌≡◌, refl, ◌⊎◌, true, false, Option, none, some, ok, arith, ltb, Bool-cases,
  inl, inr,
}
use autohub.Catalog.Model.{AiCatalog, CodexWindowConfig, CodexWindowState, PolicyConfig, is_probe}
use autohub.Catalog.Codex.{
  read_config, read_state, usage_window, refresh_anchor, settle_probe, held_until, hold_for_quota,
  quota_observed, on_quota_signal, before, or_else,
}

-- The short cycle is no longer than the long one, where the plan has a short cycle.
abbrev pub CyclesOrdered : CodexWindowConfig → Type 0
CyclesOrdered config =
    config.short_refresh_enabled ≡ true
    → config.short_refresh_cycle_minutes ≤ config.long_refresh_cycle_minutes

settle_probe_idle :
    (c : AiCatalog) (s : CodexWindowState) (config : CodexWindowConfig) (t : ℕ)
    → is_probe c.availability_state ≡ false
    → settle_probe c s config t ≡ (c, s)
unfolding settle_probe
settle_probe_idle c s config t h = ground arith

-- The observation lies before the end of the shortest cycle counted from the anchor.
refresh_anchor_bound :
    (config : CodexWindowConfig) (started : Option ℕ) (o : ℕ)
    → (refresh_anchor config started o ≡ o)
      ⊎ (o < refresh_anchor config started o + usage_window config)
unfolding refresh_anchor
refresh_anchor_bound config none o = inl refl
refresh_anchor_bound config (some s) o = ground arith

-- A hold that an observation opens ends after the observation.
held_until_later :
    (config : CodexWindowConfig) (c : AiCatalog) (s : CodexWindowState) (o : ℕ)
    → CyclesOrdered config
    → 1 ≤ config.short_refresh_cycle_minutes
    → 1 ≤ config.long_refresh_cycle_minutes
    → o < held_until config c s o
unfolding held_until usage_window
held_until_later config c s o ordered short long =
    ground (arith, refresh_anchor_bound config s.usage_window_started_at o)

config_fields_positive :
    (p : PolicyConfig) {config : CodexWindowConfig}
    → read_config p ≡ ok config
    → (1 ≤ config.short_refresh_cycle_minutes) × (1 ≤ config.long_refresh_cycle_minutes)
unfolding read_config
config_fields_positive p h = ground arith

-- What a quota observation does outside a probe.
pub on_quota_signal_idle :
    (c : AiCatalog) (config : CodexWindowConfig) (s : CodexWindowState) (o now : ℕ)
    → read_config c.policy_config ≡ ok config
    → read_state c.policy_state ≡ ok s
    → is_probe c.availability_state ≡ false
    → on_quota_signal c o now ≡ ok (quota_observed config (c, s) o now)
unfolding on_quota_signal
on_quota_signal_idle c config s o now hc hs idle =
    rw (hc, hs, settle_probe_idle c s config o idle) refl

-- Take a catalog outside a probe that holds until `t`, with readable settings and state and with
-- the short cycle, where enabled, no longer than the long one. A quota observation succeeds and
-- leaves it held until a time that is no earlier than `t` and later than the observation.
pub on_quota_signal_holds :
    (c : AiCatalog) (config : CodexWindowConfig) (s : CodexWindowState) (o now t : ℕ)
    → read_config c.policy_config ≡ ok config
    → read_state c.policy_state ≡ ok s
    → CyclesOrdered config
    → is_probe c.availability_state ≡ false
    → c.available_at ≡ some t
    → (c' : AiCatalog) × (t' : ℕ) × (on_quota_signal c o now ≡ ok c')
      × (c'.available_at ≡ some t')
      × (t ≤ t')
      × (o < t')
unfolding hold_for_quota
on_quota_signal_holds c config s o now t hc hs ordered idle held =
    let runs = on_quota_signal_idle c config s o now hc hs idle in
    let (short, long) = config_fields_positive c.policy_config hc in
    let later = held_until_later config c s o ordered short long in
    elim (Bool-cases (ltb o t)) [
      | inl old ↦ (_, t, runs, ground arith, ground arith, ground arith)
      | inr new ↦ (_, held_until config c s o, runs, ground arith, ground arith, later)
    ]

-- An observation that neither the hold nor the latest refresh covers opens a hold, which is later
-- than the observation.
pub on_quota_signal_fresh :
    (c : AiCatalog) (config : CodexWindowConfig) (s : CodexWindowState) (o now : ℕ)
    → read_config c.policy_config ≡ ok config
    → read_state c.policy_state ≡ ok s
    → CyclesOrdered config
    → is_probe c.availability_state ≡ false
    → before o (or_else c.available_at s.last_refreshed_at) ≡ false
    → (on_quota_signal c o now ≡ ok (hold_for_quota config c s o now))
      × (o < held_until config c s o)
on_quota_signal_fresh c config s o now hc hs ordered idle fresh =
    let (short, long) = config_fields_positive c.policy_config hc in
    (
      rw (on_quota_signal_idle c config s o now hc hs idle) (rw fresh refl),
      held_until_later config c s o ordered short long,
    )
