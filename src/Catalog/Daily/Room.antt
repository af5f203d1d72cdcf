-- ===== src/Catalog/Daily/Room.antt =====
-- daily_quota.py, `admit` and `_next_room_at`: when a full window has room again.
use autohub.Base.{
  ℕ, suc, zero, ◌+◌, ◌-◌, ◌≤◌, ◌<◌, ◌≡◌, refl, Option, some, none, List, [], ◌∷◌, ok, arith, length,
  count, get_elem?, String, ◌⊎◌, inl, inr, dec_lt,
}
use autohub.Catalog.Model.{AiCatalog, rolling, DailyQuotaConfig, minutes, daily_limit_reached}
use autohub.Catalog.Store.{Dispatch, day, in_window, dispatch_times_since}
use autohub.Catalog.Store.Ledger.{
  count_later, count-dispatch_times_since, length-dispatch_times_since,
  dispatch_times_since-IsSorted,
}
use autohub.Catalog.Daily.{
  LocalMidnight, read_config, window_start, next_room_at, hold, end_hold, admit,
  daily_limit_rejection,
}

get_elem?-some :
    {A : Type 0} (xs : List A) (i : ℕ) → i < length xs → (a : A) × (get_elem? xs i ≡ some a)
get_elem?-some [] i h = absurd (omega arith)
get_elem?-some (x ∷ xs) zero h = (x, refl)
get_elem?-some (x ∷ xs) (suc i) h = get_elem?-some xs i (omega arith)

-- Once the row that the hold waits for is a day old, fewer rows than the limit are younger.
count-after_hold :
    (rows : List Dispatch) (id since key limit t b : ℕ)
    → 1 ≤ limit
    → limit ≤ length (dispatch_times_since rows id since key)
    → get_elem?
        (dispatch_times_since rows id since key)
        (length (dispatch_times_since rows id since key) - limit)
      ≡ some t
    → since ≤ b
    → t < b
    → count (in_window id b key) rows < limit
count-after_hold rows id since key limit t b h1 h2 e h3 h4 = omega (
  arith,
  count_later (dispatch_times_since rows id since key)
      (length (dispatch_times_since rows id since key) - limit) t b
      (dispatch_times_since-IsSorted id since key rows) e h4,
  count-dispatch_times_since id since key rows b h3,
)

module _ (zones : LocalMidnight) (rows : List Dispatch) (c : AiCatalog) (config : DailyQuotaConfig)
    (key : ℕ) where
  config_positive : read_config zones c.policy_config ≡ ok config → 1 ≤ config.daily_task_limit
  unfolding read_config
  config_positive h = ground arith

  abbrev times : ℕ → List ℕ
  times now = dispatch_times_since rows c.id (window_start zones config now) key

  -- Room in the window admits.
  admit_room :
      (now : ℕ)
      → read_config zones c.policy_config ≡ ok config
      → length (times now) < config.daily_task_limit
      → admit zones rows c key now ≡ ok (end_hold zones c, none)
  unfolding admit
  admit_room now hc room = rw hc (ground arith)

  -- A full rolling window holds the catalog until its oldest counted task is a day old.
  admit_full :
      (now t : ℕ)
      → read_config zones c.policy_config ≡ ok config
      → config.window ≡ rolling
      → config.daily_task_limit ≤ length (times now)
      → get_elem? (times now) (length (times now) - config.daily_task_limit) ≡ some t
      → admit zones rows c key now
        ≡ ok (
          hold zones
              (end_hold zones c)
              (t + day + minutes c.refresh_jitter_minutes)
              now
              (daily_limit_reached config.daily_task_limit),
          some (daily_limit_rejection zones),
        )
  unfolding admit next_room_at
  admit_full now t hc hw full e = rw hc (ground arith)

-- The catalog that a full rolling window holds up to `until`.
abbrev held_until :
    (zones : LocalMidnight) → AiCatalog → DailyQuotaConfig → (until now : ℕ) → AiCatalog
held_until zones c config until now =
    hold zones (end_hold zones c) until now (daily_limit_reached config.daily_task_limit)

module _ (zones : LocalMidnight) (rows : List Dispatch) (c : AiCatalog) (config : DailyQuotaConfig)
    (key : ℕ) (hc : read_config zones c.policy_config ≡ ok config)
    (hw : config.window ≡ rolling) where
  -- Either the window has room, or the task waits for the oldest counted one.
  admit_cases :
      (now : ℕ)
      → (admit zones rows c key now ≡ ok (end_hold zones c, none))
        ⊎ ((t : ℕ) × (config.daily_task_limit ≤ length (times zones rows c config key now))
            × (get_elem?
                  (times zones rows c config key now)
                  (length (times zones rows c config key now) - config.daily_task_limit)
                ≡ some t)
            × (admit zones rows c key now
                ≡ ok (
                  held_until zones c config (t + day + minutes c.refresh_jitter_minutes) now,
                  some (daily_limit_rejection zones),
                )))
  admit_cases now =
      elim (dec_lt (length (times zones rows c config key now)) config.daily_task_limit) [
        | yes room ↦ inl (admit_room zones rows c config key now hc room)
        | no full ↦
            let pos = config_positive zones rows c config key hc in
            let le : config.daily_task_limit ≤ length (times zones rows c config key now) =
              omega arith in
            let (t, e) = get_elem?-some (times zones rows c config key now) _ (omega arith) in
            inr (t, le, e, admit_full zones rows c config key now t hc hw le e)
      ]

  times-rolling :
      (now : ℕ) → times zones rows c config key now ≡ dispatch_times_since rows c.id (now - day) key
  unfolding window_start
  times-rolling now = rw hw

  held_until-id : (until now : ℕ) → (held_until zones c config until now).id ≡ c.id
  held_until-id until now = ground arith

  times_later :
      (now t later : ℕ)
      → config.daily_task_limit ≤ length (times zones rows c config key now)
      → get_elem?
          (times zones rows c config key now)
          (length (times zones rows c config key now) - config.daily_task_limit)
        ≡ some t
      → now ≤ later
      → t + day < later
      → length (times zones rows c config key later) < config.daily_task_limit
  times_later now t later full e h1 h2 =
      let count_lt =
        count-after_hold rows c.id (now - day) key config.daily_task_limit t (later - day)
          (config_positive zones rows c config key hc) (rw (times-rolling now) at full)
          (rw (times-rolling now) at e) (omega arith) (omega arith) in
      rw (times-rolling later)
        (rw (length-dispatch_times_since c.id (later - day) key rows) count_lt)

  admit_held_later :
      (now t later : ℕ)
      → config.daily_task_limit ≤ length (times zones rows c config key now)
      → get_elem?
          (times zones rows c config key now)
          (length (times zones rows c config key now) - config.daily_task_limit)
        ≡ some t
      → now ≤ later
      → t + day < later
      → (until : ℕ)
      → admit zones rows (held_until zones c config until now) key later
        ≡ ok (end_hold zones (held_until zones c config until now), none)
  unfolding window_start
  admit_held_later now t later full e h1 h2 until =
      admit_room zones rows (held_until zones c config until now) config key later
        (ground (arith, hc)) (rw (held_until-id until now) (times_later now t later full e h1 h2))

-- Take a catalog with readable settings and a rolling window, and an admission that was rejected at
-- `now` and left the catalog held until `until`. At every time after `until` the same task is
-- admitted, if the ledger did not change.
pub admit_after_rejection :
    (zones : LocalMidnight) (rows : List Dispatch) (c held : AiCatalog) (config : DailyQuotaConfig)
    (key now until later : ℕ) {why : String}
    → read_config zones c.policy_config ≡ ok config
    → config.window ≡ rolling
    → admit zones rows c key now ≡ ok (held, some why)
    → held.available_at ≡ some until
    → now ≤ later
    → until < later
    → (free : AiCatalog) × (admit zones rows held key later ≡ ok (free, none))
admit_after_rejection zones rows c held config key now until later hc hw h at_until h1 h2 =
    elim (admit_cases zones rows c config key hc hw now) [
      | inl room ↦ cc
      | inr (t, full, e, rejected) ↦
          let start : ℕ = t + day + minutes c.refresh_jitter_minutes in
          let same : held ≡ held_until zones c config start now = cc in
          let ends : start ≡ until = cc in
          rw same (
            _,
            admit_held_later zones rows c config key hc hw now t later full e h1 (omega arith)
                start,
          )
    ]

-- With readable settings an admission decides: it never fails, and no index is out of range.
pub admit_total :
    (zones : LocalMidnight) (rows : List Dispatch) (c : AiCatalog) (config : DailyQuotaConfig)
    (key now : ℕ)
    → read_config zones c.policy_config ≡ ok config
    → config.window ≡ rolling
    → (r : AiCatalog × Option String) × (admit zones rows c key now ≡ ok r)
admit_total zones rows c config key now hc hw =
    elim (admit_cases zones rows c config key hc hw now) [
      | inl room ↦ (_, room)
      | inr (t, full, e, rejected) ↦ (_, rejected)
    ]

end_hold-id : (zones : LocalMidnight) (c : AiCatalog) → (end_hold zones c).id ≡ c.id
end_hold-id zones c = ground arith

-- An admission without a rejection found room in the window.
pub admit_found_room :
    (zones : LocalMidnight) (rows : List Dispatch) (c c' : AiCatalog) (config : DailyQuotaConfig)
    (key now : ℕ)
    → read_config zones c.policy_config ≡ ok config
    → admit zones rows c key now ≡ ok (c', none)
    → length (dispatch_times_since rows c.id (window_start zones config now) key)
      < config.daily_task_limit
unfolding admit
admit_found_room zones rows c c' config key now hc h = ground (arith, hc, end_hold-id zones c)
