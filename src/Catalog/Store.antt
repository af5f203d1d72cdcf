-- ===== src/Catalog/Store.antt =====
-- ai_catalogs/repos.py: the tables that the gateway reads, and its queries. A table is a list of
-- rows; a query filters it as its WHERE clause does.
pub mod Ledger
pub mod Rows
use autohub.Base.{
  ℕ, ◌+◌, ◌*◌, ◌-◌, Bool, true, false, not, ◌&&◌, ◌||◌, Option, none, some, List, [], ◌∷◌, ◌++◌,
  if◌then◌else◌, ltb, leb, ◌==◌, opt_is, is_none, length, select, first, any, count, map,
}
use autohub.Catalog.Model.{AiCatalog, is_quota_blocked, is_shut, minute}
use autohub.Run.Model.{
  PipelineRun, PipelineRunState, implementing, dispatching, ExecutionAttempt,
  is_attempt_dispatching,
}

-- `AiCatalogDispatch`: one admitted unit of work.
pub record Dispatch : Type 0 where
  pub ai_catalog_id : ℕ
  pub dispatch_key : ℕ
  pub admitted_at : ℕ

-- SESSION_TERMINAL_STATES and the open-ended provider states.
pub data SessionState : Type 0 where
  session_dispatching session_completed session_failed : SessionState
  provider_state : ℕ → SessionState

pub record CatalogSession : Type 0 where
  pub ai_catalog_id : ℕ
  pub state : SessionState

pub data TestStatus : Type 0 where
  test_running test_succeeded : TestStatus
  test_other : ℕ → TestStatus

-- `ConnectionTest`, as far as the count of capacity reads it.
pub record ConnectionTest : Type 0 where
  pub id : ℕ
  pub ai_catalog_id : ℕ
  pub catalog_admitted : Bool
  pub execution_finished : Bool
  pub status : TestStatus
  pub finished_at : Option ℕ

pub data Provider : Type 0 where
  jules_provider : Provider
  other_provider : ℕ → Provider

-- A row of `connectors`, as far as the gateway reads it.
pub record Connector : Type 0 where
  pub id : ℕ
  pub provider : Provider
  pub enabled : Bool

pub record Store : Type 0 where
  pub catalogs : List AiCatalog
  pub connectors : List Connector
  pub dispatches : List Dispatch
  pub sessions : List CatalogSession
  pub tests : List ConnectionTest
  pub runs : List PipelineRun
  pub attempts : List ExecutionAttempt

abbrev pub day : ℕ
day = 1440 * minute

-- DISPATCH_LEDGER_RETENTION.
abbrev pub dispatch_ledger_retention : ℕ
dispatch_ledger_retention = 30 * day

-- `get`.
unfoldable pub get_catalog : Store → ℕ → Option AiCatalog
get_catalog s id = first (λ c. c.id == id) s.catalogs

-- `get_by_key`.
unfoldable pub get_by_key : Store → ℕ → Option AiCatalog
get_by_key s key = first (λ c. c.key == key) s.catalogs

unfoldable pub get_connector : Store → ℕ → Option Connector
get_connector s id = first (λ c. c.id == id) s.connectors

-- The flush of a changed row.
abbrev pub put : AiCatalog → List AiCatalog → List AiCatalog
put c [] = []
put c (d ∷ ds) = (if d.id == c.id then c else d) ∷ put c ds

unfoldable pub put_catalog : Store → AiCatalog → Store
put_catalog s c = record s { catalogs = put c s.catalogs }

-- `admits_dispatch` on one row, the SQL form of the gateway's shared checks. `available_at >
-- ready_at` is NULL, so not true, where `available_at` is NULL.
abbrev pub later_than : Option ℕ → ℕ → Bool
later_than none t = false
later_than (some a) t = ltb t a

abbrev pub sql_hold : AiCatalog → Option ℕ → Bool
sql_hold c none = is_quota_blocked c.availability_state
sql_hold c (some ready) =
    is_quota_blocked c.availability_state
    && (is_none c.available_at || later_than c.available_at ready)

unfoldable pub admits_dispatch : AiCatalog → Option ℕ → Bool
admits_dispatch c ready_at =
    c.enabled && (not (is_shut c.availability_state) && not (sql_hold c ready_at))

-- `dispatch_times_since`, before the ORDER BY.
abbrev pub in_window : ℕ → ℕ → ℕ → Dispatch → Bool
in_window catalog_id since exclude_key row =
    row.ai_catalog_id == catalog_id
    && (leb since row.admitted_at && not (row.dispatch_key == exclude_key))

-- ORDER BY admitted_at.
abbrev pub insert_time : ℕ → List ℕ → List ℕ
insert_time t [] = t ∷ []
insert_time t (x ∷ xs) = let rest = insert_time t xs in if leb t x then t ∷ x ∷ xs else x ∷ rest

abbrev pub sort_times : List ℕ → List ℕ
sort_times [] = []
sort_times (t ∷ ts) = insert_time t (sort_times ts)

unfoldable pub dispatch_times_since : List Dispatch → ℕ → ℕ → ℕ → List ℕ
dispatch_times_since rows catalog_id since exclude_key =
    sort_times (map (λ row. row.admitted_at) (select (in_window catalog_id since exclude_key) rows))

-- `reserve_dispatch`: prunes expired history, and adds a row unless the key has one.
abbrev pub prune : ℕ → List Dispatch → List Dispatch
prune admitted_at rows =
    select (λ row. not (ltb row.admitted_at (admitted_at - dispatch_ledger_retention))) rows

unfoldable pub reserve_dispatch : List Dispatch → ℕ → ℕ → ℕ → List Dispatch
reserve_dispatch rows catalog_id key admitted_at =
    let kept = prune admitted_at rows in
    if any (λ row. row.dispatch_key == key) kept
    then kept
    else record { ai_catalog_id = catalog_id; dispatch_key = key; admitted_at = admitted_at } ∷ kept

-- `run_holds_capacity`: delivered or admitted, and not waiting for admission.
abbrev pub state_holds : PipelineRunState → Bool → Bool
state_holds implementing admitted = true
state_holds dispatching admitted = admitted
state_holds _ admitted = false

unfoldable pub run_holds_capacity : List ExecutionAttempt → PipelineRun → Bool
run_holds_capacity attempts run =
    state_holds run.state
      (any (λ a. a.pipeline_run_id == run.id && is_attempt_dispatching a.state) attempts)

abbrev pub is_terminal_session : SessionState → Bool
is_terminal_session session_completed = true
is_terminal_session session_failed = true
is_terminal_session _ = false

unfoldable pub open_session_count : Store → ℕ → ℕ
open_session_count s catalog_id =
    count (λ row. row.ai_catalog_id == catalog_id && not (is_terminal_session row.state)) s.sessions

-- A test holds capacity while it runs, and for a day after it finished without success.
abbrev pub test_status_holds : TestStatus → Option ℕ → ℕ → Bool
test_status_holds test_running finished clock = true
test_status_holds test_succeeded finished clock = false
test_status_holds (test_other _) finished clock = later_than finished (clock - day)

abbrev pub test_holds_capacity : ℕ → ConnectionTest → Bool
test_holds_capacity clock t =
    t.catalog_admitted
    && (not t.execution_finished && test_status_holds t.status t.finished_at clock)

-- `active_dispatch_count` at the wall-clock time `clock`, leaving out the named run and test.
unfoldable pub active_dispatch_count : Store → ℕ → ℕ → Option ℕ → Option ℕ → ℕ
unfolding run_holds_capacity open_session_count
active_dispatch_count s clock catalog_id run_id test_id =
    count
      (λ run.
        run.ai_catalog_id == catalog_id
        && (run_holds_capacity s.attempts run && not (opt_is run_id run.id)))
      s.runs
    + count
        (λ t.
          t.ai_catalog_id == catalog_id
          && (test_holds_capacity clock t && not (opt_is test_id t.id)))
        s.tests
    + open_session_count s catalog_id
