-- ===== src/Catalog/Model.antt =====
-- ai_catalogs/models.py and policies/base.py: a catalog row and what the policies share.
-- An instant is the number of microseconds since 0001-01-01T00:00 UTC, the resolution of
-- `datetime`; `utc` only re-expresses an instant in UTC, so it is the identity here. Identifiers,
-- keys and the texts that a caller gives are only stored and compared, so they are numbers.
use autohub.Base.{ℕ, ◌*◌, String, Bool, true, false, Option, if◌then◌else◌}

pub data AiCatalogState : Type 0 where
  normal quota_blocked probe disabled unknown : AiCatalogState

pub data AiCatalogKind : Type 0 where
  codex jules : AiCatalogKind

-- `kind` is a text column: one of the two kinds, or any other text that a row may hold.
pub data KindText : Type 0 where
  known : AiCatalogKind → KindText
  other_kind : ℕ → KindText

pub data Adapter : Type 0 where
  codex_github_mention jules_api : Adapter

abbrev pub minute : ℕ
minute = 60_000_000

-- `timedelta(minutes=n)`.
abbrev pub minutes : ℕ → ℕ
minutes n = n * minute

pub record CodexWindowConfig : Type 0 where
  pub short_refresh_enabled : Bool
  pub short_refresh_cycle_minutes : ℕ
  pub long_refresh_cycle_minutes : ℕ
  pub probe_window_minutes : ℕ

pub record CodexWindowState : Type 0 where
  pub probe_started_at : Option ℕ
  pub short_refresh_failure_count : ℕ
  pub last_refreshed_at : Option ℕ
  pub usage_window_started_at : Option ℕ

pub data Window : Type 0 where
  rolling calendar : Window

pub record DailyQuotaConfig : Type 0 where
  pub daily_task_limit : ℕ
  pub window : Window
  pub timezone : String

-- The JSON of `policy_config`: the fields of one kind's settings, or what neither kind reads.
pub data PolicyConfig : Type 0 where
  codex_config : CodexWindowConfig → PolicyConfig
  daily_config : DailyQuotaConfig → PolicyConfig
  other_config : PolicyConfig

-- The JSON of `policy_state`: `{}`, the usage-window state, or what does not validate as one.
pub data PolicyState : Type 0 where
  empty_state : PolicyState
  codex_state : CodexWindowState → PolicyState
  other_state : PolicyState

-- The texts that the code writes to `availability_source`.
pub data Source : Type 0 where
  manual daily_task_limit_source quota_short_cycle quota_long_cycle : Source
  given_source : ℕ → Source

-- The texts that the code writes to `availability_note`, with the values that it formats.
pub data Note : Type 0 where
  daily_window_refreshed provider_daily_limit probe_completed : Note
  daily_limit_reached : ℕ → Note
  codex_short_limit codex_long_limit : Note
  given_note : ℕ → Note

pub record AiCatalog : Type 0 where
  pub id : ℕ
  pub key : ℕ
  pub name : ℕ
  pub kind : KindText
  pub adapter : Adapter
  pub connector_id : Option ℕ
  pub enabled : Bool
  pub availability_state : AiCatalogState
  pub available_at : Option ℕ
  pub availability_source : Option Source
  pub availability_updated_at : Option ℕ
  pub availability_note : Option Note
  pub configured_concurrency : ℕ
  pub refresh_jitter_minutes : ℕ
  pub policy_config : PolicyConfig
  pub policy_state : PolicyState
  pub revision : ℕ

-- A disabled catalog keeps its hold time and stays disabled.
unfoldable pub hold_state : AiCatalog → AiCatalogState
hold_state catalog = if catalog.enabled then quota_blocked else disabled

abbrev pub is_quota_blocked : AiCatalogState → Bool
is_quota_blocked quota_blocked = true
is_quota_blocked _ = false

abbrev pub is_probe : AiCatalogState → Bool
is_probe probe = true
is_probe _ = false

abbrev pub is_shut : AiCatalogState → Bool
is_shut disabled = true
is_shut unknown = true
is_shut _ = false
