-- ===== src/Catalog/Gateway/Holds.antt =====
-- services.py, `record_quota_event` and `request_dispatch`: requests after a quota observation.
use autohub.Base.{ℕ, ◌<◌, ◌≡◌, refl, true, false, some, ok, String, arith}
use autohub.Catalog.Model.{
  AiCatalog, known, codex, CodexWindowConfig, CodexWindowState, is_probe, hold_state,
}
use autohub.Catalog.Store.{Store, get_catalog, put_catalog}
use autohub.Catalog.Store.Rows.{IdsUnique, get_catalog-put_catalog}
use autohub.Catalog.Codex
use autohub.Catalog.Codex.{read_config, read_state, hold_for_quota, held_until, before, or_else}
use autohub.Catalog.Codex.Hold.{CyclesOrdered, on_quota_signal_fresh}
use autohub.Catalog.Daily.{LocalMidnight}
use autohub.Catalog.Gateway.{
  dispatch_rejection, policy_quota_signal, DispatchRequest, request_dispatch, record_quota_event,
  waiting,
}

-- The gateway's answer to a request for a catalog that the shared checks reject.
request_rejected :
    (zones : LocalMidnight) (s : Store) (r : DispatchRequest) (c : AiCatalog) {why : String}
    → get_catalog s r.catalog_id ≡ some c
    → dispatch_rejection c r.now ≡ some why
    → request_dispatch zones s r ≡ ok (s, c, some why)
unfolding request_dispatch
request_rejected zones s r c found e = rw found (rw e refl)

hold_for_quota_rejects :
    (config : CodexWindowConfig) (c : AiCatalog) (s : CodexWindowState) (o now t : ℕ)
    → c.enabled ≡ true
    → t < held_until config c s o
    → dispatch_rejection (hold_for_quota config c s o now) t ≡ some waiting
unfolding dispatch_rejection hold_for_quota hold_state
hold_for_quota_rejects config c s o now t on h = ground arith

quota_event_lem :
    (zones : LocalMidnight) (s : Store) (id o now : ℕ) (c c' : AiCatalog)
    → get_catalog s id ≡ some c
    → c.kind ≡ known codex
    → Codex.on_quota_signal c o now ≡ ok c'
    → record_quota_event zones s id o now ≡ ok (put_catalog s c', c')
unfolding record_quota_event policy_quota_signal
quota_event_lem zones s id o now c c' found kind runs = rw found (ground arith)

-- Take an enabled Codex catalog outside a probe, with readable settings and state, its short cycle
-- no longer than the long one. A quota event that neither its hold nor its latest refresh covers
-- is recorded, and holds the catalog until a time after the observation. Every request for the
-- catalog before that time is rejected and changes nothing.
pub record_quota_event_closes_gateway :
    (zones : LocalMidnight) (s : Store) (c : AiCatalog) (config : CodexWindowConfig)
    (state : CodexWindowState) (o now : ℕ) (r : DispatchRequest)
    → IdsUnique s.catalogs
    → get_catalog s r.catalog_id ≡ some c
    → c.kind ≡ known codex
    → c.enabled ≡ true
    → read_config c.policy_config ≡ ok config
    → read_state c.policy_state ≡ ok state
    → CyclesOrdered config
    → is_probe c.availability_state ≡ false
    → before o (or_else c.available_at state.last_refreshed_at) ≡ false
    → r.now < held_until config c state o
    → (s' : Store) × (c' : AiCatalog) × (record_quota_event zones s r.catalog_id o now
        ≡ ok (s', c'))
      × (c'.available_at ≡ some (held_until config c state o))
      × (o < held_until config c state o)
      × (request_dispatch zones s' r ≡ ok (s', c', some waiting))
unfolding hold_for_quota
record_quota_event_closes_gateway zones s c config state o now r u found kind on hc hs ordered idle
      fresh early =
    let (runs, later) = on_quota_signal_fresh c config state o now hc hs ordered idle fresh in
    let c' = hold_for_quota config c state o now in
    (
      put_catalog s c',
      c',
      quota_event_lem zones s r.catalog_id o now c c' found kind runs,
      refl,
      later,
      request_rejected zones (put_catalog s c') r c'
          (get_catalog-put_catalog s c c' u refl r.catalog_id found)
          (hold_for_quota_rejects config c state o now r.now on early),
    )
