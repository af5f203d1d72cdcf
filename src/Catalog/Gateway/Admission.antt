-- ===== src/Catalog/Gateway/Admission.antt =====
-- services.py, `request_dispatch`: admissions and rejections.
use autohub.Base.{
  ℕ, ◌<◌, ◌≤◌, ◌≡◌, refl, true, false, Option, none, some, ok, Bool-cases, arith, String, any, ◌==◌,
  bind_returned, count, length, inl, inr, ==_refl, subst, ◌⊎◌, List,
}
use autohub.Catalog.Model.{
  AiCatalog, known, jules, codex, KindText, other_kind, DailyQuotaConfig, is_shut, is_quota_blocked,
}
use autohub.Catalog.Store.{
  Store, Dispatch, get_catalog, put_catalog, reserve_dispatch, dispatch_times_since,
}
use autohub.Catalog.Store.Ledger.{
  KeysUnique, in_window_of, count-reserve_dispatch, reserve_dispatch-KeysUnique,
  length-dispatch_times_since,
}
use autohub.Catalog.Store.Rows.{get_catalog-id}
use autohub.Catalog.Daily
use autohub.Catalog.Daily.{LocalMidnight}
use autohub.Catalog.Gateway.{
  dispatch_rejection, policy_admit, effective_concurrency, DispatchRequest, active_now,
  request_dispatch, conclude, decide_dispatch, removed, capacity_rejection,
}

ok_inj {ℓ} : {A : Type ℓ} {a b : A} → ok a ≡ ok b → a ≡ b
ok_inj h = cc

removed_ok : (o : Option AiCatalog) {c : AiCatalog} → removed o ≡ ok c → o ≡ some c
removed_ok none h = cc
removed_ok (some c) h = cc

-- The tables after an admission.
abbrev pub admitted_store : Store → DispatchRequest → AiCatalog → Store
admitted_store s r c = record (put_catalog s c) {
  dispatches = reserve_dispatch s.dispatches r.catalog_id r.dispatch_key r.now;
}

-- The last two checks and the ledger.
conclude_admits :
    (s s' : Store) (r : DispatchRequest) (c c' : AiCatalog) (why : Option String)
    → conclude s r.catalog_id r.dispatch_key r.now c (capacity_rejection (active_now s r) c why)
      ≡ (s', c', none)
    → (why ≡ none)
      × (c ≡ c')
      × (active_now s r < effective_concurrency c'.kind c')
      × (s' ≡ admitted_store s r c')
conclude_admits s s' r c c' none h = ground arith
conclude_admits s s' r c c' (some w) h = ground arith

-- What an admission guarantees: the catalog exists, passes the shared checks and its policy, has
-- room, and only its row and the ledger change.
pub record IsAdmission (zones : LocalMidnight) (s s' : Store) (r : DispatchRequest)
    (c c' : AiCatalog) : Type 0 where
  pub found : get_catalog s r.catalog_id ≡ some c
  pub open_gate : dispatch_rejection c r.now ≡ none
  pub policy : policy_admit zones c.kind s c r.dispatch_key r.now ≡ ok (c', none)
  pub room : active_now s r < effective_concurrency c'.kind c'
  pub after : s' ≡ admitted_store s r c'

module _ (zones : LocalMidnight) (s s' : Store) (r : DispatchRequest) (c' : AiCatalog) where
  decide_admits :
      (c : AiCatalog) (why : Option String)
      → get_catalog s r.catalog_id ≡ some c
      → dispatch_rejection c r.now ≡ why
      → decide_dispatch zones s r c why ≡ ok (s', c', none)
      → IsAdmission zones s s' r c c'
  decide_admits c (some w) found gate h = cc
  decide_admits c none found gate h =
      let ((c1, w1), policy, rest) =
        bind_returned (policy_admit zones c.kind s c r.dispatch_key r.now) _ h in
      let (free, same, room, after) = conclude_admits s s' r c1 c' w1 (ok_inj rest) in
      record { found = found; open_gate = gate; policy = cc; room = room; after = after }

  -- Every admission is one in this sense.
  admitted :
      request_dispatch zones s r ≡ ok (s', c', none)
      → (c : AiCatalog) × IsAdmission zones s s' r c c'
  unfolding request_dispatch
  admitted h =
      let (c, found, rest) = bind_returned (removed (get_catalog s r.catalog_id)) _ h in
      (c, decide_admits c _ (removed_ok (get_catalog s r.catalog_id) found) refl rest)

any-reserve_dispatch :
    (rows : List Dispatch) (id key now : ℕ)
    → any (λ row. row.dispatch_key == key) (reserve_dispatch rows id key now) ≡ true
unfolding reserve_dispatch
any-reserve_dispatch rows id key now = ground (arith, ==_refl key)

-- The checks shared by every kind pass only a quota hold whose time has come.
gate_is_over :
    (c : AiCatalog) (now : ℕ) (available : Option ℕ)
    → c.available_at ≡ available
    → dispatch_rejection c now ≡ none
    → is_quota_blocked c.availability_state ≡ true
    → (t : ℕ) × (available ≡ some t) × (t ≤ now)
unfolding dispatch_rejection
gate_is_over c now none e gate held = ground (arith, gate, held, e)
gate_is_over c now (some t) e gate held = (t, refl, ground (arith, gate, held, e))

-- An admission at `now` names a catalog that the checks shared by every kind pass: it is enabled, not
-- shut, and not held for its quota, or held until a time that has come. Its policy admits it, less
-- work is active than the catalog may run, the work stands in the ledger afterwards, and sessions,
-- tests, runs and attempts are as before.
pub request_dispatch_admits :
    (zones : LocalMidnight) (s s' : Store) (r : DispatchRequest) (c' : AiCatalog)
    → request_dispatch zones s r ≡ ok (s', c', none)
    → (c : AiCatalog) × (get_catalog s r.catalog_id ≡ some c)
      × (dispatch_rejection c r.now ≡ none)
      × (c.enabled ≡ true)
      × (is_shut c.availability_state ≡ false)
      × ((is_quota_blocked c.availability_state ≡ false)
          ⊎ ((t : ℕ) × (c.available_at ≡ some t) × (t ≤ r.now)))
      × (policy_admit zones c.kind s c r.dispatch_key r.now ≡ ok (c', none))
      × (active_now s r < effective_concurrency c'.kind c')
      × (any (λ row. row.dispatch_key == r.dispatch_key) s'.dispatches ≡ true)
      × (s'.sessions ≡ s.sessions)
      × (s'.tests ≡ s.tests)
      × (s'.runs ≡ s.runs)
      × (s'.attempts ≡ s.attempts)
unfolding dispatch_rejection put_catalog
request_dispatch_admits zones s s' r c' h =
    let (c, a) = admitted zones s s' r c' h in
    let gate = a.open_gate in
    (
      c,
      a.found,
      gate,
      ground arith,
      ground arith,
      elim (Bool-cases (is_quota_blocked c.availability_state)) [
        | inl held ↦ inr (gate_is_over c r.now c.available_at refl gate held)
        | inr free ↦ inl free
      ],
      a.policy,
      a.room,
      rw a.after (any-reserve_dispatch s.dispatches r.catalog_id r.dispatch_key r.now),
      rw a.after refl,
      rw a.after refl,
      rw a.after refl,
      rw a.after refl,
    )

daily_policy :
    (zones : LocalMidnight) (s : Store) (c : AiCatalog) (k : KindText) (key now : ℕ)
    {x : AiCatalog × Option String}
    → k ≡ known jules
    → policy_admit zones k s c key now ≡ ok x
    → Daily.admit zones s.dispatches c key now ≡ ok x
unfolding policy_admit
daily_policy zones s c (known jules) key now e h = h
daily_policy zones s c (known codex) key now e h = cc
daily_policy zones s c (other_kind _) key now e h = cc

-- A daily plan never admits more than its limit: right after an admission at `now` the ledger, whose
-- keys are unique before and after, holds at most `daily_task_limit` rows of the catalog in the
-- window that ends at `now`.
pub request_dispatch_daily_cap :
    (zones : LocalMidnight) (s s' : Store) (r : DispatchRequest) (c c' : AiCatalog)
    (config : DailyQuotaConfig)
    → KeysUnique s.dispatches
    → get_catalog s r.catalog_id ≡ some c
    → c.kind ≡ known jules
    → Daily.read_config zones c.policy_config ≡ ok config
    → request_dispatch zones s r ≡ ok (s', c', none)
    → (count (in_window_of r.catalog_id (Daily.window_start zones config r.now)) s'.dispatches
        ≤ config.daily_task_limit)
      × KeysUnique s'.dispatches
request_dispatch_daily_cap zones s s' r c c' config u found kind hc h =
    let (c0, a) = admitted zones s s' r c' h in
    let same : c0 ≡ c = cc (a.found) in
    let id = get_catalog-id s r.catalog_id c found in
    let policy : Daily.admit zones s.dispatches c r.dispatch_key r.now ≡ ok (c', none) =
      daily_policy zones s c c.kind r.dispatch_key r.now kind (rw same at a.policy) in
    let room =
      subst
        (λ k.
          length (
            dispatch_times_since s.dispatches k (Daily.window_start zones config r.now)
              r.dispatch_key)
          < config.daily_task_limit)
        id
        (Daily.Room.admit_found_room zones s.dispatches c c' config r.dispatch_key r.now hc
          policy) in
    let start = Daily.window_start zones config r.now in
    (
      rw a.after (
          omega (
            arith,
            count-reserve_dispatch s.dispatches r.catalog_id start r.dispatch_key r.now u,
            length-dispatch_times_since r.catalog_id start r.dispatch_key s.dispatches,
          )),
      rw a.after (reserve_dispatch-KeysUnique s.dispatches r.catalog_id r.dispatch_key r.now u),
    )

conclude_rejects :
    (s s' : Store) (r : DispatchRequest) (c c' : AiCatalog) (o : Option String) {why : String}
    → conclude s r.catalog_id r.dispatch_key r.now c o ≡ (s', c', some why)
    → s' ≡ put_catalog s c'
conclude_rejects s s' r c c' none h = ground arith
conclude_rejects s s' r c c' (some w) h = ground arith

decide_rejects :
    (zones : LocalMidnight) (s s' : Store) (r : DispatchRequest) (c c' : AiCatalog)
    (gate : Option String) {why : String}
    → dispatch_rejection c r.now ≡ gate
    → decide_dispatch zones s r c gate ≡ ok (s', c', some why)
    → (s' ≡ s) ⊎ ((dispatch_rejection c r.now ≡ none) × (s' ≡ put_catalog s c'))
decide_rejects zones s s' r c c' (some w) e h = inl (cc)
decide_rejects zones s s' r c c' none e h =
    let ((c1, w1), _, rest) =
      bind_returned (policy_admit zones c.kind s c r.dispatch_key r.now) _ h in
    inr (e, conclude_rejects s s' r c1 c' _ (ok_inj rest))

-- A rejected request changes the catalog's row at most: ledger, sessions, tests, runs and attempts
-- are as before. A catalog that the shared checks reject is not touched at all.
pub request_dispatch_rejects :
    (zones : LocalMidnight) (s s' : Store) (r : DispatchRequest) (c c' : AiCatalog) {why : String}
    → get_catalog s r.catalog_id ≡ some c
    → request_dispatch zones s r ≡ ok (s', c', some why)
    → (s' ≡ s) ⊎ ((dispatch_rejection c r.now ≡ none) × (s' ≡ put_catalog s c'))
unfolding request_dispatch
request_dispatch_rejects zones s s' r c c' found h =
    decide_rejects zones s s' r c c' (dispatch_rejection c r.now) refl (rw found at h)
