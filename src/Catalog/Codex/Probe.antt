-- ===== src/Catalog/Codex/Probe.antt =====
-- codex_window.py: an expired hold resumes through a probe that runs one task, and the probe ends
-- a fixed time after its task was delivered.
use autohub.Base.{ℕ, ◌+◌, ◌≤◌, ◌<◌, ◌≡◌, refl, none, some, ok, arith}
use autohub.Catalog.Model.{
  AiCatalog, CodexWindowConfig, CodexWindowState, quota_blocked, probe, normal, minutes,
  codex_state, probe_completed,
}
use autohub.Catalog.Codex.{
  read_config, read_state, settle_probe, effective_concurrency, admit, on_delivered, start_probe,
  store,
}

-- The catalog is held up to `t`, and its settings and state are readable.
pub record IsHeld (c : AiCatalog) (config : CodexWindowConfig) (s : CodexWindowState) (t : ℕ)
    : Type 0 where
  pub config_read : read_config c.policy_config ≡ ok config
  pub state_read : read_state c.policy_state ≡ ok s
  pub blocked : c.availability_state ≡ quota_blocked
  pub until : c.available_at ≡ some t

module _ {c : AiCatalog} {config : CodexWindowConfig} {s : CodexWindowState} {t : ℕ}
    (held : IsHeld c config s t) where
  abbrev probing : AiCatalog
  probing = start_probe c s t

  -- The catalog after the delivery of the probe's task.
  abbrev pub running : ℕ → AiCatalog
  running posted =
      store (record probing { revision = probing.revision + 1 })
        (record s {
          probe_started_at = some posted;
          usage_window_started_at = some posted;
          last_refreshed_at = some t;
        })

  -- The first admission after a hold starts a probe.
  admit_held : (now : ℕ) → admit c now ≡ ok probing
  unfolding admit
  admit_held now = ground (arith, held)

  -- A delivery from before the end of the hold changes nothing.
  delivered_early : (posted : ℕ) → posted < t → on_delivered probing posted ≡ ok probing
  unfolding on_delivered read_state
  delivered_early posted h = ground (arith, held)

  delivered_fresh : (posted : ℕ) → t ≤ posted → on_delivered probing posted ≡ ok (running posted)
  unfolding on_delivered read_state
  delivered_fresh posted h = ground (arith, held)

  admit-running_within :
      (posted now : ℕ)
      → now < posted + minutes config.probe_window_minutes
      → admit (running posted) now ≡ ok (running posted)
  unfolding admit read_state settle_probe
  admit-running_within posted now h = ground (arith, held)

  admit-running_after :
      (posted now : ℕ)
      → posted + minutes config.probe_window_minutes ≤ now
      → (c' : AiCatalog) × (admit (running posted) now ≡ ok c')
        × (c'.availability_state ≡ normal)
        × (c'.available_at ≡ none)
        × (effective_concurrency c' ≡ c.configured_concurrency)
  unfolding admit read_state settle_probe effective_concurrency
  admit-running_after posted now h = (
    record (running posted) {
      availability_state = normal;
      available_at = none;
      availability_note = some probe_completed;
      revision = c.revision + 1 + 1 + 1;
      policy_state = codex_state (record s {
        probe_started_at = none;
        usage_window_started_at = some posted;
        last_refreshed_at = some t;
        short_refresh_failure_count = 0;
      });
    },
    ground (arith, held),
    refl,
    refl,
    refl,
  )

-- Take a catalog that holds up to `t`, with readable settings and state. The next admission turns
-- it into a probe that runs one task; a delivery from before `t` changes nothing; a delivery from
-- `t` on starts the probe window; inside the window an admission changes nothing and one task may
-- run; from its end on an admission restores the configured concurrency and drops the hold.
pub probe_recovers :
    {c : AiCatalog} {config : CodexWindowConfig} {s : CodexWindowState} {t : ℕ}
    → IsHeld c config s t
    → (now early posted during after : ℕ) → early < t
    → t ≤ posted
    → during < posted + minutes config.probe_window_minutes
    → posted + minutes config.probe_window_minutes ≤ after
    → (p r n : AiCatalog) × (admit c now ≡ ok p)
      × (p.availability_state ≡ probe)
      × (effective_concurrency p ≡ 1)
      × (on_delivered p early ≡ ok p)
      × (on_delivered p posted ≡ ok r)
      × (admit r during ≡ ok r)
      × (effective_concurrency r ≡ 1)
      × (admit r after ≡ ok n)
      × (n.availability_state ≡ normal)
      × (n.available_at ≡ none)
      × (effective_concurrency n ≡ c.configured_concurrency)
unfolding effective_concurrency
probe_recovers held now early posted during after h1 h2 h3 h4 =
    let (n, runs, is_normal, free, restored) = admit-running_after held posted after h4 in
    (
      probing held,
      running held posted,
      n,
      admit_held held now,
      refl,
      refl,
      delivered_early held early h1,
      delivered_fresh held posted h2,
      admit-running_within held posted during h3,
      refl,
      runs,
      is_normal,
      free,
      restored,
    )
