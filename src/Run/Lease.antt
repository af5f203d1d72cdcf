-- ===== src/Run/Lease.antt =====
-- pipeline_runs/repos.py and usecases/leases.py: the lease by which one worker at a time advances
-- a run. Each method is one UPDATE … WHERE … RETURNING in its own transaction.
pub mod Exclusion
use autohub.Base.{
  ℕ, ◌+◌, ◌*◌, Bool, true, false, not, ◌&&◌, ◌||◌, Option, none, some, List, [], ◌∷◌, Result, ok,
  raise, project_error, ◌>>=◌, if◌then◌else◌, ltb, leb, ◌==◌, opt_is, is_none, first,
}
use autohub.Run.Model.{PipelineRun, is_active}
use autohub.Run.Tables.{Tables, get_run, put_run}

-- `expires_at > now`; NULL is not later than any time.
abbrev pub expires_after : Option ℕ → ℕ → Bool
expires_after none now = false
expires_after (some t) now = ltb now t

abbrev pub expired_at : Option ℕ → ℕ → Bool
expired_at none now = false
expired_at (some t) now = leb t now

-- The WHERE clause of `acquire_lease`, the id aside.
abbrev pub can_acquire : PipelineRun → ℕ → Bool
can_acquire run now =
    is_active run.state && (is_none run.lease_token || expired_at run.lease_expires_at now)

-- The WHERE clause that `get_leased`, `renew_lease` and `release_lease` share.
abbrev pub holds_lease : PipelineRun → (owner token now : ℕ) → Bool
holds_lease run owner token now =
    opt_is run.lease_owner owner
    && (opt_is run.lease_token token && expires_after run.lease_expires_at now)

-- An UPDATE of the run with this id, where the rest of the WHERE clause holds. It returns the row.
abbrev pub update_where :
    Tables → ℕ → (PipelineRun → Bool) → (PipelineRun → PipelineRun) → Tables × Option PipelineRun
update_where t id test change = elim (get_run t id) [
  | none ↦ (t, none)
  | some run ↦
      if test run
      then (record t { runs = put_run (change run) t.runs }, some (change run))
      else (t, none)
]

unfoldable pub get_leased : Tables → (run_id owner token now : ℕ) → Option PipelineRun
get_leased t run_id owner token now = elim (get_run t run_id) [
  | none ↦ none
  | some run ↦ if holds_lease run owner token now then some run else none
]

unfoldable pub acquire :
    Tables → (run_id owner token now expires_at : ℕ) → Tables × Option PipelineRun
acquire t run_id owner token now expires_at =
    update_where t run_id (λ run. can_acquire run now)
      (λ run. record run {
        lease_owner = some owner;
        lease_token = some token;
        lease_expires_at = some expires_at;
      })

unfoldable pub renew :
    Tables → (run_id owner token now expires_at : ℕ) → Tables × Option PipelineRun
renew t run_id owner token now expires_at =
    update_where t run_id (λ run. holds_lease run owner token now)
      (λ run. record run { lease_expires_at = some expires_at })

unfoldable pub release : Tables → (run_id owner token now : ℕ) → Tables × Option PipelineRun
release t run_id owner token now =
    update_where t run_id (λ run. holds_lease run owner token now)
      (λ run. record run {
        lease_owner = none;
        lease_token = none;
        lease_expires_at = none;
        updated_at = now;
      })

pub record LeaseGrant : Type 0 where
  pub run_id : ℕ
  pub owner : ℕ
  pub token : ℕ
  pub expires_at : ℕ
  pub run_revision : ℕ

-- `_lease_grant`.
abbrev pub grant_of : PipelineRun → Option ℕ → Option ℕ → Option ℕ → Result LeaseGrant
grant_of run (some owner) (some token) (some expires) = ok (record {
  run_id = run.id;
  owner = owner;
  token = token;
  expires_at = expires;
  run_revision = run.revision;
})
grant_of run _ _ _ = raise (project_error 500 "Lease update returned incomplete lease state")

unfoldable pub lease_grant : PipelineRun → Result LeaseGrant
lease_grant run = grant_of run run.lease_owner run.lease_token run.lease_expires_at

-- `raise_lease_conflict`.
abbrev pub lease_conflict : {A : Type 0} → Tables → ℕ → Result A
lease_conflict t run_id = elim (get_run t run_id) [
  | none ↦ raise (project_error 404 "Pipeline run not found")
  | some _ ↦ raise (project_error 409 "Pipeline run lease was rejected")
]

abbrev pub granted : Tables → ℕ → Tables × Option PipelineRun → Result (Tables × LeaseGrant)
granted t run_id (t', none) = lease_conflict t run_id
granted t run_id (t', some run) = do g ← lease_grant run; ok (t', g)

-- `timedelta(seconds=n)` in microseconds.
abbrev pub seconds : ℕ → ℕ
seconds n = n * 1_000_000

unfoldable pub acquire_lease :
    Tables → (run_id owner ttl_seconds token now : ℕ) → Result (Tables × LeaseGrant)
acquire_lease t run_id owner ttl_seconds token now =
    granted t run_id (acquire t run_id owner token now (now + seconds ttl_seconds))

unfoldable pub renew_lease :
    Tables → (run_id owner token ttl_seconds now : ℕ) → Result (Tables × LeaseGrant)
renew_lease t run_id owner token ttl_seconds now =
    granted t run_id (renew t run_id owner token now (now + seconds ttl_seconds))

abbrev pub released : Tables → ℕ → Tables × Option PipelineRun → Result Tables
released t run_id (t', none) = lease_conflict t run_id
released t run_id (t', some run) = ok t'

unfoldable pub release_lease : Tables → (run_id owner token now : ℕ) → Result Tables
release_lease t run_id owner token now = released t run_id (release t run_id owner token now)
