-- ===== src/Catalog/Gateway/Checks.antt =====
-- services.py and repos.py: the gateway's shared checks, in Python and in SQL, and the
-- operator's switches on a held catalog.
use autohub.Base.{ℕ, ◌<◌, ◌≡◌, Bool, true, Option, none, some, raise, project_error, arith, is_none}
use autohub.Catalog.Model.{AiCatalog, known, codex, other_state}
use autohub.Catalog.Codex.{read_state, on_hold_cleared, on_availability_override}
use autohub.Catalog.Store.{Store, admits_dispatch, get_by_key}
use autohub.Catalog.Gateway.{
  dispatch_rejection, policy_override, policy_hold_cleared, set_availability, clear_availability,
  set_enabled,
}

-- The SQL predicate and the Python check agree on every row and at every time: the query that picks
-- runs for dispatch keeps a catalog exactly when the gateway does not reject it.
pub admits_dispatch-dispatch_rejection :
    (c : AiCatalog) (now : ℕ) → admits_dispatch c (some now) ≡ is_none (dispatch_rejection c now)
unfolding admits_dispatch dispatch_rejection
admits_dispatch-dispatch_rejection c now = ground arith

-- Without a time the SQL predicate is stricter: whatever it admits is admitted at every time.
pub admits_dispatch-none :
    (c : AiCatalog) (now : ℕ) → admits_dispatch c none ≡ true → dispatch_rejection c now ≡ none
unfolding admits_dispatch dispatch_rejection
admits_dispatch-none c now h = ground arith

-- A Codex catalog whose stored usage-window state does not validate can neither be held, switched
-- nor cleared by its operator: each of the three calls is refused with the same error.
pub invalid_state_stuck :
    (s : Store) (c : AiCatalog) (key now at source : ℕ) (why : Option ℕ) (on : Bool)
    → get_by_key s key ≡ some c
    → c.kind ≡ known codex
    → c.policy_state ≡ other_state
    → now < at
    → (clear_availability s key now
        ≡ raise
            (project_error 409 "AI catalog has invalid Codex usage-window state; clear its hold"))
      × (set_enabled s key on now
          ≡ raise
              (project_error 409 "AI catalog has invalid Codex usage-window state; clear its hold"))
      × (set_availability s key at source why now
          ≡ raise
              (project_error 409 "AI catalog has invalid Codex usage-window state; clear its hold"))
unfolding clear_availability set_enabled set_availability policy_override policy_hold_cleared
    on_hold_cleared on_availability_override read_state
invalid_state_stuck s c key now at source why on hc hk hs later =
    (ground arith, ground arith, ground arith)
