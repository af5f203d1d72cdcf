-- ===== src/Catalog/Gateway.antt =====
-- ai_catalogs/services.py and policies/registry.py: the gateway in front of every catalog. A method
-- returns the new tables; an exception rolls the transaction back, so it returns none.
pub mod Checks
pub mod Admission
pub mod Holds
use autohub.Base.{
  ℕ, ◌+◌, String, Bool, true, false, not, ◌&&◌, ◌||◌, Option, none, some, List, [], ◌∷◌, Result, ok,
  raise, project_error, raise_if, require, ◌>>=◌, ◌>>◌, if◌then◌else◌, ltb, leb, is_none, is_some,
}
use autohub.Catalog.Model.{
  AiCatalog, AiCatalogKind, codex, jules, KindText, known, other_kind, Adapter,
  codex_github_mention, jules_api, AiCatalogState, normal, quota_blocked, disabled, PolicyConfig,
  empty_state, Source, manual, given_source, Note, given_note, hold_state, is_quota_blocked,
  is_shut,
}
use autohub.Catalog.Store.{
  Store, Connector, Provider, jules_provider, other_provider, get_catalog, get_by_key,
  get_connector, put_catalog, reserve_dispatch, active_dispatch_count, later_than,
}
use autohub.Catalog.Codex
use autohub.Catalog.Daily
use autohub.Catalog.Daily.{LocalMidnight}

abbrev pub unavailable : String
unavailable = "AI catalog is unavailable"

abbrev pub waiting : String
waiting = "AI catalog is quota-blocked; wait for its refresh time"

-- `_dispatch_rejection`.
unfoldable pub dispatch_rejection : AiCatalog → ℕ → Option String
dispatch_rejection catalog now =
    if not catalog.enabled || is_shut catalog.availability_state
    then some unavailable
    else if is_quota_blocked catalog.availability_state
        && (is_none catalog.available_at || later_than catalog.available_at now)
    then some waiting
    else none

abbrev no_policy : {A : Type 0} → Result A
no_policy = raise (project_error 409 "AI catalog kind has no quota policy")

abbrev pub removed : {A : Type 0} → Option A → Result A
removed o = require o 409 "AI catalog was removed"

abbrev pub not_found : {A : Type 0} → Option A → Result A
not_found o = require o 404 "AI catalog not found"

module _ (zones : LocalMidnight) where
  -- The policies of `_POLICIES`, one method each.
  unfoldable pub policy_admit :
      KindText → Store → AiCatalog → ℕ → ℕ → Result (AiCatalog × Option String)
  policy_admit (known codex) s c key now = do c' ← Codex.admit c now; ok (c', none)
  policy_admit (known jules) s c key now = Daily.admit zones s.dispatches c key now
  policy_admit (other_kind _) s c key now = no_policy

  unfoldable pub policy_quota_signal : KindText → AiCatalog → ℕ → ℕ → Result AiCatalog
  policy_quota_signal (known codex) c observed now = Codex.on_quota_signal c observed now
  policy_quota_signal (known jules) c observed now = Daily.on_quota_signal zones c observed now
  policy_quota_signal (other_kind _) c observed now = no_policy

  unfoldable pub policy_validate : KindText → PolicyConfig → Result PolicyConfig
  policy_validate (known codex) p = Codex.validate_config p
  policy_validate (known jules) p = Daily.validate_config zones p
  policy_validate (other_kind _) p = no_policy

unfoldable pub policy_delivered : KindText → AiCatalog → ℕ → Result AiCatalog
policy_delivered (known codex) c posted = Codex.on_delivered c posted
policy_delivered (known jules) c posted = ok c
policy_delivered (other_kind _) c posted = no_policy

-- A kind without a policy has no recovery state, and must still be switchable.
unfoldable pub policy_hold_cleared : KindText → AiCatalog → ℕ → Result AiCatalog
policy_hold_cleared (known codex) c now = Codex.on_hold_cleared c now
policy_hold_cleared _ c now = ok c

-- `_override_policy_state`.
unfoldable pub policy_override : KindText → AiCatalog → Result AiCatalog
policy_override (known codex) c = Codex.on_availability_override c
policy_override _ c = ok c

-- `effective_concurrency`: a kind without a policy has no capacity.
unfoldable pub effective_concurrency : KindText → AiCatalog → ℕ
effective_concurrency (known codex) c = Codex.effective_concurrency c
effective_concurrency (known jules) c = c.configured_concurrency
effective_concurrency (other_kind _) c = 0

abbrev pub over_capacity : String
over_capacity = "AI catalog has reached its concurrency limit"

-- The shared capacity check, after the policy's.
abbrev pub capacity_rejection : ℕ → AiCatalog → Option String → Option String
capacity_rejection active c (some why) = some why
capacity_rejection active c none =
    if leb (effective_concurrency c.kind c) active then some over_capacity else none

-- The work enters the ledger if nothing rejected it. The catalog's row is flushed either way.
abbrev pub conclude :
    Store → ℕ → ℕ → ℕ → AiCatalog → Option String → Store × AiCatalog × Option String
conclude s catalog_id key now c (some why) = (put_catalog s c, c, some why)
conclude s catalog_id key now c none = (
  record (put_catalog s c) { dispatches = reserve_dispatch s.dispatches catalog_id key now },
  c,
  none,
)

-- The request of one piece of work: `clock` is the time that the count of capacity reads itself.
pub record DispatchRequest : Type 0 where
  pub catalog_id : ℕ
  pub run_id : Option ℕ
  pub dispatch_key : ℕ
  pub now : ℕ
  pub exclude_test_id : Option ℕ
  pub clock : ℕ

abbrev pub active_now : Store → DispatchRequest → ℕ
active_now s r = active_dispatch_count s r.clock r.catalog_id r.run_id r.exclude_test_id

abbrev pub decide_dispatch :
    LocalMidnight
    → Store
    → DispatchRequest
    → AiCatalog
    → Option String
    → Result (Store × AiCatalog × Option String)
decide_dispatch zones s r catalog (some why) = ok (s, catalog, some why)
decide_dispatch zones s r catalog none = do
  (c, why) ← policy_admit zones catalog.kind s catalog r.dispatch_key r.now
  ok (conclude s r.catalog_id r.dispatch_key r.now c (capacity_rejection (active_now s r) c why))

unfoldable pub request_dispatch :
    LocalMidnight → Store → DispatchRequest → Result (Store × AiCatalog × Option String)
request_dispatch zones s r = do
  catalog ← removed (get_catalog s r.catalog_id)
  decide_dispatch zones s r catalog (dispatch_rejection catalog r.now)

abbrev flush : Store → Result AiCatalog → Result (Store × AiCatalog)
flush s m = do c ← m; ok (put_catalog s c, c)

-- A catalog that was removed records no delivery.
unfoldable pub record_dispatch_delivered : Store → ℕ → ℕ → Result Store
record_dispatch_delivered s catalog_id posted = elim (get_catalog s catalog_id) [
  | none ↦ ok s
  | some c ↦ policy_delivered c.kind c posted >>= λ c'. ok (put_catalog s c')
]

unfoldable pub require_dispatchable : Store → ℕ → ℕ → Result AiCatalog
require_dispatchable s catalog_id now = do
  c ← require (get_catalog s catalog_id) 409 unavailable
  elim (dispatch_rejection c now) [ none ↦ ok c | some why ↦ raise (project_error 409 why) ]

abbrev pub bump : AiCatalog → AiCatalog
bump c = record c { revision = c.revision + 1 }

unfoldable pub set_availability :
    Store → ℕ → (available_at source : ℕ) → Option ℕ → ℕ → Result (Store × AiCatalog)
set_availability s key available_at source note now = do
  c ← not_found (get_by_key s key)
  raise_if (leb available_at now) 422 "Availability time must be in the future"
  c' ← policy_override c.kind (record c {
    availability_state = hold_state c;
    available_at = some available_at;
    availability_source = some (given_source source);
    availability_note = (elim note [ none ↦ none | some n ↦ some (given_note n) ]);
    availability_updated_at = some now;
  })
  ok (put_catalog s (bump c'), bump c')

unfoldable pub clear_availability : Store → ℕ → ℕ → Result (Store × AiCatalog)
clear_availability s key now = do
  c ← not_found (get_by_key s key)
  c' ←
      policy_hold_cleared c.kind
        (record c {
          availability_state = if c.enabled then normal else disabled;
          available_at = none;
          availability_source = some manual;
          availability_note = none;
          availability_updated_at = some now;
        })
        now
  ok (put_catalog s (bump c'), bump c')

-- The state that the switch leads to: a pending hold survives re-enabling.
abbrev pub switched : Bool → Option ℕ → AiCatalogState
switched false held = disabled
switched true (some _) = quota_blocked
switched true none = normal

-- Without the schedules' resync, which touches no row of these tables.
unfoldable pub set_enabled : Store → ℕ → Bool → ℕ → Result (Store × AiCatalog)
set_enabled s key on now = do
  c ← not_found (get_by_key s key)
  c' ← policy_override c.kind (record c {
    enabled = on;
    availability_state = switched on c.available_at;
    availability_source = some manual;
    availability_updated_at = some now;
  })
  ok (put_catalog s (bump c'), bump c')

unfoldable pub set_concurrency : Store → ℕ → ℕ → Result (Store × AiCatalog)
set_concurrency s key n = do
  c ← not_found (get_by_key s key)
  let c' = bump (record c { configured_concurrency = n })
  ok (put_catalog s c', c')

unfoldable pub update_policy_config :
    LocalMidnight → Store → ℕ → PolicyConfig → Result (Store × AiCatalog)
update_policy_config zones s key config = do
  c ← not_found (get_by_key s key)
  checked ← policy_validate zones c.kind config
  let c' = bump (record c { policy_config = checked })
  ok (put_catalog s c', c')

unfoldable pub record_quota_event :
    LocalMidnight → Store → ℕ → (observed clock : ℕ) → Result (Store × AiCatalog)
record_quota_event zones s catalog_id observed clock = do
  c ← removed (get_catalog s catalog_id)
  c' ← policy_quota_signal zones c.kind c observed clock
  ok (put_catalog s c', c')
