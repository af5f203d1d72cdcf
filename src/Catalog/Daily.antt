-- ===== src/Catalog/Daily.antt =====
-- ai_catalogs/policies/daily_quota.py: a plan with a cap on tasks per day, counted in the ledger.
-- The time-zone database is not part of the program: `LocalMidnight` stands for it.
pub mod Room
use autohub.Base.{
  ℕ, ◌+◌, ◌-◌, ◌<◌, String, Bool, true, false, ◌&&◌, Option, none, some, List, [], ◌∷◌, Result, ok,
  raise, project_error, ◌>>=◌, if◌then◌else◌, ltb, leb, length, get_elem?,
}
use autohub.Catalog.Model.{
  AiCatalog, normal, Window, rolling, calendar, DailyQuotaConfig, PolicyConfig, codex_config,
  daily_config, other_config, Note, daily_task_limit_source, daily_window_refreshed,
  provider_daily_limit, daily_limit_reached, minutes, hold_state, is_quota_blocked,
}
use autohub.Catalog.Codex.{before, in_range}
use autohub.Catalog.Store.{Dispatch, day, dispatch_times_since}

-- `known` tells the names that `ZoneInfo` (or UTC) accepts; `midnight zone t` is the last local
-- midnight at or before `t`, and `next_midnight zone t` the local midnight after that.
pub record LocalMidnight : Type 0 where
  pub known : String → Bool
  pub midnight : String → ℕ → ℕ
  pub next_midnight : String → ℕ → ℕ
  pub next_midnight_later : (zone : String) (t : ℕ) → t < next_midnight zone t

module _ (zones : LocalMidnight) where
  open zones use {known, midnight, next_midnight}

  -- The `Field` bounds and the validator of the time zone.
  unfoldable pub config_fields_valid : DailyQuotaConfig → Bool
  config_fields_valid c = in_range 1 10_000 c.daily_task_limit && known c.timezone

  unfoldable pub validate_config : PolicyConfig → Result PolicyConfig
  unfolding config_fields_valid
  validate_config (daily_config c) =
      if config_fields_valid c
      then ok (daily_config c)
      else raise (project_error 422 "Invalid daily quota policy")
  validate_config (codex_config c) = raise (project_error 422 "Invalid daily quota policy")
  validate_config other_config = raise (project_error 422 "Invalid daily quota policy")

  abbrev pub config_error : Result DailyQuotaConfig
  config_error =
      raise (project_error 409 "AI catalog has no valid daily quota policy; configure it first")

  -- `_config`.
  unfoldable pub read_config : PolicyConfig → Result DailyQuotaConfig
  unfolding config_fields_valid
  read_config (daily_config c) = if config_fields_valid c then ok c else config_error
  read_config (codex_config c) = config_error
  read_config other_config = config_error

  -- `_window_start`.
  abbrev pub start_of : Window → String → ℕ → ℕ
  start_of rolling zone now = now - day
  start_of calendar zone now = midnight zone now

  unfoldable pub window_start : DailyQuotaConfig → ℕ → ℕ
  window_start c now = start_of c.window c.timezone now

  -- `_next_room_at`. `admitted[len(admitted) - limit]` raises IndexError out of range, which
  -- `none` stands for.
  abbrev pub reset_at : Window → DailyQuotaConfig → List ℕ → ℕ → Option ℕ
  reset_at calendar c admitted now = some (next_midnight c.timezone now)
  reset_at rolling c admitted now =
      elim (get_elem? admitted (length admitted - c.daily_task_limit)) [
        | none ↦ none
        | some t ↦ some (t + day)
      ]

  unfoldable pub next_room_at : AiCatalog → DailyQuotaConfig → List ℕ → ℕ → Option ℕ
  next_room_at catalog c admitted now = elim (reset_at c.window c admitted now) [
    | none ↦ none
    | some t ↦ some (t + minutes catalog.refresh_jitter_minutes)
  ]

  -- `_hold`.
  abbrev pub hold : AiCatalog → ℕ → ℕ → Note → AiCatalog
  hold catalog until now note = record catalog {
    available_at = some until;
    availability_state = hold_state catalog;
    availability_source = some daily_task_limit_source;
    availability_note = some note;
    availability_updated_at = some now;
    revision = catalog.revision + 1;
  }

  -- `IndexError`, an exception that no caller catches.
  abbrev pub hold_or_fail : AiCatalog → Option ℕ → ℕ → Note → Result AiCatalog
  hold_or_fail catalog none now note = raise (project_error 500 "list index out of range")
  hold_or_fail catalog (some until) now note = ok (hold catalog until now note)

  -- The gateway admits only an expired hold, which ends here.
  abbrev pub end_hold : AiCatalog → AiCatalog
  end_hold catalog =
      if is_quota_blocked catalog.availability_state
      then record catalog {
        availability_state = normal;
        available_at = none;
        availability_note = some daily_window_refreshed;
        revision = catalog.revision + 1;
      }
      else catalog

  abbrev pub daily_limit_rejection : String
  daily_limit_rejection = "AI catalog has reached its daily task limit; wait for its refresh time"

  abbrev pub admit_within :
      AiCatalog → DailyQuotaConfig → List ℕ → ℕ → Result (AiCatalog × Option String)
  admit_within catalog c admitted now =
      if ltb (length admitted) c.daily_task_limit
      then ok (catalog, none)
      else (hold_or_fail catalog (next_room_at catalog c admitted now) now
            (daily_limit_reached c.daily_task_limit)
          >>= λ held. ok (held, some daily_limit_rejection))

  unfoldable pub admit : List Dispatch → AiCatalog → ℕ → ℕ → Result (AiCatalog × Option String)
  admit rows catalog key now = do
    c ← read_config catalog.policy_config
    admit_within (end_hold catalog) c
        (dispatch_times_since rows catalog.id (window_start c now) key) now

  abbrev pub signal_until : Window → AiCatalog → DailyQuotaConfig → ℕ → Option ℕ
  signal_until calendar catalog c observed = next_room_at catalog c [] observed
  signal_until rolling catalog c observed =
      some (observed + day + minutes catalog.refresh_jitter_minutes)

  unfoldable pub on_quota_signal : AiCatalog → ℕ → ℕ → Result AiCatalog
  on_quota_signal catalog observed now =
      if before observed catalog.available_at
      then ok catalog
      else (read_config catalog.policy_config >>= λ c.
          hold_or_fail catalog (signal_until c.window catalog c observed) now provider_daily_limit)
