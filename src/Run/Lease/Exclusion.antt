-- ===== src/Run/Lease/Exclusion.antt =====
-- repos.py and leases.py: sequences of lease requests from several workers.
use autohub.Base.{
  ℕ, ◌+◌, ◌<◌, ◌≡◌, ◌≢◌, refl, ◌∙◌, Bool, true, false, some, none, List, [], ◌∷◌, ok, arith, All,
  Bool-cases, inl, inr, ℕ_discrete, Option-cases, sym,
}
use autohub.Run.Model.{PipelineRun}
use autohub.Run.Tables.{Tables, get_run, put_run}
use autohub.Run.Tables.Rows.{first-put_run, first-put_run_ne, get_run-id}
use autohub.Run.Lease.{
  can_acquire, update_where, get_leased, acquire, renew, release, seconds, lease_grant,
  acquire_lease,
}

-- A lease request of some worker, at a time.
pub data LeaseEvent : Type 0 where
  acquires : (run_id owner token now expires_at : ℕ) → LeaseEvent
  renews : (run_id owner token now expires_at : ℕ) → LeaseEvent
  releases : (run_id owner token now : ℕ) → LeaseEvent

unfoldable pub lease_step : Tables → LeaseEvent → Tables
lease_step t (acquires id owner token now expires) = (acquire t id owner token now expires).0
lease_step t (renews id owner token now expires) = (renew t id owner token now expires).0
lease_step t (releases id owner token now) = (release t id owner token now).0

unfoldable pub lease_steps : Tables → List LeaseEvent → Tables
lease_steps t [] = t
lease_steps t (e ∷ es) = lease_steps (lease_step t e) es

-- The event comes before the lease expires, and does not show its token. (Acquiring shows none.)
abbrev pub IsForeign : (token expires_at : ℕ) → LeaseEvent → Type 0
IsForeign mine until (acquires id owner token now expires) = now < until
IsForeign mine until (renews id owner token now expires) = token ≢ mine
IsForeign mine until (releases id owner token now) = token ≢ mine

-- The flush of another run keeps this one.
get_run-put_ne :
    (t : Tables) (q : PipelineRun) (id : ℕ)
    → q.id ≢ id
    → get_run (record t { runs = put_run q t.runs }) id ≡ get_run t id
unfolding get_run
get_run-put_ne t q id ne = first-put_run_ne q id t.runs ne

module _ (t : Tables) (id : ℕ) (test : PipelineRun → Bool)
    (change : PipelineRun → PipelineRun) where
  update_where_gone : get_run t id ≡ none → update_where t id test change ≡ (t, none)
  update_where_gone h = ground arith

  module _ (run : PipelineRun) (h : get_run t id ≡ some run) where
    update_where_off : test run ≡ false → update_where t id test change ≡ (t, none)
    update_where_off off = ground arith

    pub update_where_on :
        test run ≡ true
        → update_where t id test change
          ≡ (record t { runs = put_run (change run) t.runs }, some (change run))
    update_where_on on = ground arith

-- An UPDATE that its WHERE clause keeps off the run leaves the run as it is.
update_where_keeps :
    (t : Tables) (id id' : ℕ) (test : PipelineRun → Bool) (change : PipelineRun → PipelineRun)
    (run : PipelineRun)
    → get_run t id ≡ some run
    → test run ≡ false
    → ((q : PipelineRun) → (change q).id ≡ q.id)
    → get_run (update_where t id' test change).0 id ≡ some run
update_where_keeps t id id' test change run h off same = elim (ℕ_discrete id' id) [
  | yes e ↦ rw (update_where_off t id' test change run (rw e h) off) h
  | no ne ↦ elim (Option-cases (get_run t id')) [
    | inl gone ↦ rw (update_where_gone t id' test change gone) h
    | inr (q, found) ↦ elim (Bool-cases (test q)) [
      | inr off_q ↦ rw (update_where_off t id' test change q found off_q) h
      | inl on_q ↦
          let q_id = get_run-id t id' q found in
          rw (update_where_on t id' test change q found on_q)
            (get_run-put_ne t (change q) id (λ e. ne (sym q_id ∙ sym (same q) ∙ e)) ∙ h)
    ]
  ]
]

module _ (id owner token until now : ℕ) (run : PipelineRun)
    (held : (run.lease_owner ≡ some owner)
      × (run.lease_token ≡ some token)
      × (run.lease_expires_at ≡ some until)) where
  lease_step_keeps :
      (t : Tables) (e : LeaseEvent)
      → get_run t id ≡ some run
      → IsForeign token until e
      → get_run (lease_step t e) id ≡ some run
  unfolding lease_step acquire renew release
  lease_step_keeps t (acquires id' o k at expires) h f =
      update_where_keeps t id id' _ _ run h (ground (arith, held)) (λ q. refl)
  lease_step_keeps t (renews id' o k at expires) h f =
      update_where_keeps t id id' _ _ run h (ground (arith, held)) (λ q. refl)
  lease_step_keeps t (releases id' o k at) h f =
      update_where_keeps t id id' _ _ run h (ground (arith, held)) (λ q. refl)

  lease_steps_keep :
      (t : Tables) (es : List LeaseEvent)
      → get_run t id ≡ some run
      → All (IsForeign token until) es
      → get_run (lease_steps t es) id ≡ some run
  unfolding lease_steps
  lease_steps_keep t [] h f = h
  lease_steps_keep t (e ∷ es) h f =
      lease_steps_keep (lease_step t e) es (lease_step_keeps t e h f.0) f.1

  held_leased :
      (t : Tables)
      → get_run t id ≡ some run
      → now < until
      → get_leased t id owner token now ≡ some run
  unfolding get_leased
  held_leased t h early = ground (arith, held)

-- Take a run whose lease `owner` holds with `token` until `until`. Whatever requests come in before
-- `until` from workers that do not know the token, on this run and on others, the run is untouched,
-- and at every time before `until` the owner still holds it.
pub lease_exclusive :
    (t : Tables) (es : List LeaseEvent) (id owner token until now : ℕ) (run : PipelineRun)
    → get_run t id ≡ some run
    → (run.lease_owner ≡ some owner)
    → (run.lease_token ≡ some token)
    → (run.lease_expires_at ≡ some until)
    → All (IsForeign token until) es
    → now < until
    → get_leased (lease_steps t es) id owner token now ≡ some run
lease_exclusive t es id owner token until now run h h1 h2 h3 f early =
    held_leased id owner token until now run (h1, h2, h3) (lease_steps t es)
      (lease_steps_keep id owner token until now run (h1, h2, h3) t es h f) early

get_run-put_self :
    (t : Tables) (id : ℕ) (run r : PipelineRun)
    → get_run t id ≡ some run
    → r.id ≡ run.id
    → get_run (record t { runs = put_run r t.runs }) id ≡ some r
get_run-put_self t id run r h e =
    let at_id = get_run-id t id run h in
    unfold get_run in first-put_run r id t.runs {old = run} (e ∙ at_id) h

-- An active run without a lease, or with an expired one, is leased to whoever asks: the grant shows
-- the caller's owner and token, and the caller holds the lease at every time before it expires.
pub acquire_lease_grants :
    (t : Tables) (id owner ttl token now at : ℕ) (run : PipelineRun)
    → get_run t id ≡ some run
    → can_acquire run now ≡ true
    → at < now + seconds ttl
    → (t' : Tables) × (leased : PipelineRun) × (acquire_lease t id owner ttl token now
        ≡ ok (
          t',
          record {
            run_id = id;
            owner = owner;
            token = token;
            expires_at = now + seconds ttl;
            run_revision = run.revision;
          },
        ))
      × (get_leased t' id owner token at ≡ some leased)
      × (leased.state ≡ run.state)
unfolding acquire_lease acquire lease_grant
acquire_lease_grants t id owner ttl token now at run h free early =
    let leased : PipelineRun = record run {
      lease_owner = some owner;
      lease_token = some token;
      lease_expires_at = some (now + seconds ttl);
    } in
    let t' : Tables = record t { runs = put_run leased t.runs } in
    (
      t',
      leased,
      rw (update_where_on t id (λ q. can_acquire q now) _ run h free)
          (rw (get_run-id t id run h) refl),
      held_leased id owner token (now + seconds ttl) at leased (refl, refl, refl) t'
          (get_run-put_self t id run leased h refl) early,
      refl,
    )
