-- ===== src/Plans/Graph/Verdict.antt =====
-- work_plans/schemas.py: what `validate_graph` says of a graph.
use autohub.Base.{
  ℕ, zero, suc, ◌≤◌, ◌<◌, ◌≡◌, ◌↔◌, ◌⊎◌, inl, inr, refl, ◌∙◌, Bool, true, false, not, ◌||◌,
  Bool-cases, List, [], ◌∷◌, ok, raise, raise_if_passed, ◌==◌, ==_refl, ==_iff, any, select, length,
  All, arith, project_error, if-both,
}
use autohub.Plans.Graph.{
  Node, has, keys, is_empty, ready_keys, minus, strip, is_dangling, rounds, validate_graph,
}
use autohub.Plans.Graph.Order.{IsRanked, IsClosed, IsDict, ready_is_key}
use autohub.Plans.Graph.Accepted.{rounds-IsRanked, some_ready}

select-All : (P : ℕ → Type 0) (q : ℕ → Bool) (ps : List ℕ) → All P ps → All P (select q ps)
select-All P q [] h = tt
select-All P q (p ∷ ps) h =
    if-both (All P) (q p) (p ∷ select q ps) (select q ps) (λ yes. (h.0, select-All P q ps h.1))
      (λ no. select-All P q ps h.1)

strip-IsRanked :
    (ready : List ℕ) (rank : ℕ → ℕ) (graph : List Node)
    → IsRanked rank graph
    → IsRanked rank (strip ready graph)
strip-IsRanked ready rank [] h = tt
strip-IsRanked ready rank ((key, parents) ∷ rest) h =
    if-both (IsRanked rank) (has key ready) (strip ready rest)
      ((key, minus parents ready) ∷ strip ready rest) (λ gone. strip-IsRanked ready rank rest h.1)
      (λ stays. (
        select-All (λ p. rank p < rank key) (λ p. not (has p ready)) parents h.0,
        strip-IsRanked ready rank rest h.1,
      ))

still_known :
    (ready : List ℕ) (graph : List Node) (p : ℕ)
    → has p (keys graph) ≡ true
    → has p ready ≡ false
    → has p (keys (strip ready graph)) ≡ true
still_known ready [] p known stays = cc
still_known ready ((key, parents) ∷ rest) p known stays = elim (Bool-cases (key == p)) [
  | inl same ↦ here key parents rest ((==_iff key p).0 same)
  | inr other ↦
      let later = still_known ready rest p (rw other at known) stays in ground (arith, later)
]
  where
    here :
        (key : ℕ) (parents : List ℕ) (rest : List Node)
        → key ≡ p
        → has p (keys (strip ready ((key, parents) ∷ rest))) ≡ true
    here key parents rest same = rw (same, stays, ==_refl p) refl

minus-known :
    (known known' ready : List ℕ) (parents : List ℕ)
    → ((p : ℕ) → has p known ≡ true → has p ready ≡ false → has p known' ≡ true)
    → All (λ p. has p known ≡ true) parents
    → All (λ p. has p known' ≡ true) (minus parents ready)
minus-known known known' ready [] still h = tt
minus-known known known' ready (p ∷ ps) still h = elim (Bool-cases (has p ready)) [
  | inl gone ↦ rw gone (minus-known known known' ready ps still h.1)
  | inr kept ↦ rw kept (still p h.0 kept, minus-known known known' ready ps still h.1)
]

strip-IsClosed :
    (known known' ready : List ℕ) (graph : List Node)
    → ((p : ℕ) → has p known ≡ true → has p ready ≡ false → has p known' ≡ true)
    → IsClosed known graph
    → IsClosed known' (strip ready graph)
strip-IsClosed known known' ready [] still h = tt
strip-IsClosed known known' ready ((key, parents) ∷ rest) still h =
    if-both (IsClosed known') (has key ready) (strip ready rest)
      ((key, minus parents ready) ∷ strip ready rest)
      (λ gone. strip-IsClosed known known' ready rest still h.1)
      (λ stays. (
        minus-known known known' ready parents still h.0,
        strip-IsClosed known known' ready rest still h.1,
      ))

length-strip : (ready : List ℕ) (graph : List Node) → length (strip ready graph) ≤ length graph
length-strip ready [] = omega arith
length-strip ready ((key, parents) ∷ rest) = ground (arith, length-strip ready rest)

strip_drops :
    (ready : List ℕ) (graph : List Node) (k : ℕ)
    → has k ready ≡ true
    → has k (keys graph) ≡ true
    → length (strip ready graph) < length graph
strip_drops ready [] k gone known = cc
strip_drops ready ((key, parents) ∷ rest) k gone known =
    if-both (λ g. length g < suc (length rest)) (has key ready) (strip ready rest)
      ((key, minus parents ready) ∷ strip ready rest)
      (λ dropped. let le = length-strip ready rest in omega (arith, le))
      (λ stays.
        let shorter = strip_drops ready rest k gone (other_key (Bool-cases (key == k)) stays) in
        omega (arith, shorter))
  where
    other_key :
        ((key == k) ≡ true) ⊎ ((key == k) ≡ false)
        → has key ready ≡ false
        → has k (keys rest) ≡ true
    other_key (inl same) stays =
        let e = (==_iff key k).0 same in let back : has key ready ≡ true = rw e gone in cc
    other_key (inr other) stays = rw other at known

one_of : (ks : List ℕ) → is_empty ks ≡ false → (r : ℕ) × (has r ks ≡ true)
one_of [] h = cc
one_of (r ∷ rs) h = (r, rw (==_refl r) refl)

round_shorter :
    (graph : List Node)
    → is_empty (ready_keys graph) ≡ false
    → length (strip (ready_keys graph) graph) < length graph
round_shorter graph h =
    let (r, ready) = one_of (ready_keys graph) h in
    strip_drops (ready_keys graph) graph r ready (ready_is_key r graph ready)

-- A round with a ready key goes on with the rest.
round_goes :
    (fuel : ℕ) (n : Node) (ns : List Node)
    → is_empty (ready_keys (n ∷ ns)) ≡ false
    → rounds (suc fuel) (n ∷ ns) ≡ rounds fuel (strip (ready_keys (n ∷ ns)) (n ∷ ns))
round_goes fuel n ns h = rw h refl

rounds-accepts :
    (fuel : ℕ) (graph : List Node) (rank : ℕ → ℕ)
    → length graph ≤ fuel
    → IsRanked rank graph
    → IsClosed (keys graph) graph
    → rounds fuel graph ≡ ok tt
rounds-accepts fuel [] rank enough ranked closed = refl
rounds-accepts zero (n ∷ ns) rank enough ranked closed = absurd (omega (arith, enough))
rounds-accepts (suc fuel) (n ∷ ns) rank enough ranked closed =
    let graph = n ∷ ns in
    let ready = ready_keys graph in
    let more = some_ready rank n ns ranked closed in
    let shorter = round_shorter graph more in
    round_goes fuel n ns more
    ∙ rounds-accepts fuel (strip ready graph) rank (omega (arith, shorter, enough))
        (strip-IsRanked ready rank graph ranked)
        (strip-IsClosed (keys graph) (keys (strip ready graph)) ready graph
          (λ p known stays. still_known ready graph p known stays) closed)

dangling_or_closed :
    (known : List ℕ) (graph : List Node)
    → any (is_dangling known) graph ≡ false
    → IsClosed known graph
dangling_or_closed known [] h = tt
dangling_or_closed known ((key, parents) ∷ rest) h =
    (parents_known parents (or_left _ _ h), dangling_or_closed known rest (or_right _ _ h))
  where
    or_left : (a b : Bool) → (a || b) ≡ false → a ≡ false
    or_left a b e = ground arith

    or_right : (a b : Bool) → (a || b) ≡ false → b ≡ false
    or_right a b e = ground arith

    parents_known :
        (ps : List ℕ) → any (λ p. not (has p known)) ps ≡ false → All (λ p. has p known ≡ true) ps
    parents_known [] e = tt
    parents_known (p ∷ ps) e = (not_not (or_left _ _ e), parents_known ps (or_right _ _ e))
      where
        not_not : not (has p known) ≡ false → has p known ≡ true
        not_not e = ground (arith, e)

closed_none_dangling :
    (known : List ℕ) (graph : List Node)
    → IsClosed known graph
    → any (is_dangling known) graph ≡ false
closed_none_dangling known [] h = refl
closed_none_dangling known ((key, parents) ∷ rest) h =
    rw (parents_known parents h.0, closed_none_dangling known rest h.1) refl
  where
    parents_known :
        (ps : List ℕ) → All (λ p. has p known ≡ true) ps → any (λ p. not (has p known)) ps ≡ false
    parents_known [] e = refl
    parents_known (p ∷ ps) e = rw (e.0, parents_known ps e.1) refl

-- A dictionary is accepted exactly if every key depends only on keys of it and the keys can be ranked
-- so that each comes after those that it depends on. So no key of an accepted graph depends on itself,
-- in any number of steps.
pub validate_graph-IsRanked :
    (graph : List Node)
    → IsDict graph
    → (validate_graph graph ≡ ok tt)
      ↔ (IsClosed (keys graph) graph × ((rank : ℕ → ℕ) × IsRanked rank graph))
unfolding validate_graph
validate_graph-IsRanked graph dict = (
  λ h.
      let passed =
        raise_if_passed (any (is_dangling (keys graph)) graph) 422
          "Dependency target does not exist in this scope" _ h in
      (
        dangling_or_closed (keys graph) graph passed.0,
        rounds-IsRanked (length graph) graph dict passed.1,
      ),
  λ (closed, (rank, ranked)).
      rw (closed_none_dangling (keys graph) graph closed)
        (rounds-accepts (length graph) graph rank (omega arith) ranked closed),
)

rounds-ends :
    (fuel : ℕ) (graph : List Node)
    → length graph ≤ fuel
    → (rounds fuel graph ≡ ok tt)
      ⊎ (rounds fuel graph
          ≡ raise (project_error 422 "Dependencies must not contain cycles or self references"))
rounds-ends fuel [] enough = inl refl
rounds-ends zero (n ∷ ns) enough = absurd (omega (arith, enough))
rounds-ends (suc fuel) (n ∷ ns) enough = elim (Bool-cases (is_empty (ready_keys (n ∷ ns)))) [
  | inl stuck ↦ inr (rw stuck refl)
  | inr more ↦
      let shorter = round_shorter (n ∷ ns) more in
      rw (round_goes fuel n ns more)
        (rounds-ends fuel (strip (ready_keys (n ∷ ns)) (n ∷ ns)) (omega (arith, shorter, enough)))
]

-- The loop ends on every graph: it is accepted, or refused for a missing target, or for a cycle.
pub validate_graph-ends :
    (graph : List Node)
    → (validate_graph graph ≡ ok tt)
      ⊎ ((validate_graph graph
            ≡ raise (project_error 422 "Dependency target does not exist in this scope"))
          ⊎ (validate_graph graph
              ≡ raise
                  (project_error 422 "Dependencies must not contain cycles or self references")))
unfolding validate_graph
validate_graph-ends graph = elim (Bool-cases (any (is_dangling (keys graph)) graph)) [
  | inl dangling ↦ inr (inl (rw dangling refl))
  | inr known ↦ elim (rounds-ends (length graph) graph (omega arith)) [
    | inl accepted ↦ inl (rw known accepted)
    | inr cycle ↦ inr (inr (rw known cycle))
  ]
]
