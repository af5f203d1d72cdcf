-- ===== src/Plans/Graph/Accepted.antt =====
-- work_plans/schemas.py: the rounds of `validate_graph` and the orders of a graph.
use autohub.Base.{
  ℕ, zero, suc, ◌<◌, ◌≡◌, ◌⊎◌, inl, inr, refl, true, false, Bool-cases, List, [], ◌∷◌, ok, ◌==◌,
  ==_refl, All, All-from, arith, subst,
}
use autohub.Plans.Graph.{Node, has, keys, is_empty, ready_keys, strip, rounds}
use autohub.Plans.Graph.Order.{
  IsRanked, IsClosed, IsDict, raise_rank, graph-IsRanked, ready_empty, strip-IsDict,
}

round_passed :
    (fuel : ℕ) (n : Node) (ns : List Node)
    → rounds (suc fuel) (n ∷ ns) ≡ ok tt
    → (is_empty (ready_keys (n ∷ ns)) ≡ false)
      × (rounds fuel (strip (ready_keys (n ∷ ns)) (n ∷ ns)) ≡ ok tt)
round_passed fuel n ns h = elim (Bool-cases (is_empty (ready_keys (n ∷ ns)))) [
  | inl none_ready ↦ let wrong = rw none_ready at h in cc
  | inr some_ready ↦ (some_ready, rw some_ready at h)
]

pub rounds-IsRanked :
    (fuel : ℕ) (graph : List Node)
    → IsDict graph
    → rounds fuel graph ≡ ok tt
    → (rank : ℕ → ℕ) × IsRanked rank graph
rounds-IsRanked fuel [] dict h = ((λ k. 0), tt)
rounds-IsRanked zero (n ∷ ns) dict h = cc
rounds-IsRanked (suc fuel) (n ∷ ns) dict h =
    let graph = n ∷ ns in
    let ready = ready_keys graph in
    let passed = round_passed fuel n ns h in
    let (rank, ranked) =
      rounds-IsRanked fuel (strip ready graph) (strip-IsDict ready graph dict) passed.1 in
    (
      raise_rank ready rank,
      graph-IsRanked ready rank graph ranked (
          All-from (λ node. (has node.0 ready ≡ false) ⊎ (is_empty node.1 ≡ true)) graph
            (λ i node at_i. elim (Bool-cases (has node.0 ready)) [
              | inl gone ↦ inr (ready_empty graph i node dict at_i gone)
              | inr stays ↦ inl stays
            ])),
    )

-- A node of a graph by its key.
node_of :
    (P : Node → Type 0) (graph : List Node) (k : ℕ)
    → All P graph
    → has k (keys graph) ≡ true
    → (parents : List ℕ) × P (k, parents)
node_of P [] k h known = cc
node_of P ((key, parents) ∷ rest) k h known = elim (Bool-cases (key == k)) [
  | inl same ↦ (parents, subst (λ j. P (j, parents)) (ground (arith, same)) h.0)
  | inr other ↦ node_of P rest k h.1 (rw other at known)
]

-- What each node has in a closed, ranked graph in which none is ready.
abbrev IsHeld : (ℕ → ℕ) → List ℕ → Node → Type 0
IsHeld rank known (key, parents) =
    (is_empty parents ≡ false)
    × All (λ p. rank p < rank key) parents
    × All (λ p. has p known ≡ true) parents

lower_parent :
    (rank : ℕ → ℕ) (known : List ℕ) (key : ℕ) (parents : List ℕ)
    → IsHeld rank known (key, parents)
    → (p : ℕ) × (rank p < rank key) × (has p known ≡ true)
lower_parent rank known key [] h = let wrong = h.0 in cc
lower_parent rank known key (p ∷ ps) h = (p, h.1.0, h.2.0)

no_descent :
    (rank : ℕ → ℕ) (graph : List Node) (n k : ℕ)
    → All (IsHeld rank (keys graph)) graph
    → has k (keys graph) ≡ true
    → ¬ (rank k < n)
no_descent rank graph zero k held known lt = omega arith
no_descent rank graph (suc n) k held known lt =
    let (parents, h) = node_of (IsHeld rank (keys graph)) graph k held known in
    let (p, below, there) = lower_parent rank (keys graph) k parents h in
    no_descent rank graph n p held there (omega (arith, below, lt))

none_ready_held :
    (rank : ℕ → ℕ) (known : List ℕ) (graph : List Node)
    → is_empty (ready_keys graph) ≡ true
    → IsRanked rank graph
    → IsClosed known graph
    → All (IsHeld rank known) graph
none_ready_held rank known [] h ranked closed = tt
none_ready_held rank known ((key, []) ∷ rest) h ranked closed = cc
none_ready_held rank known ((key, p ∷ ps) ∷ rest) h ranked closed =
    ((refl, ranked.0, closed.0), none_ready_held rank known rest h ranked.1 closed.1)

pub some_ready :
    (rank : ℕ → ℕ) (n : Node) (ns : List Node)
    → IsRanked rank (n ∷ ns)
    → IsClosed (keys (n ∷ ns)) (n ∷ ns)
    → is_empty (ready_keys (n ∷ ns)) ≡ false
some_ready rank (key, parents) ns ranked closed =
    elim (Bool-cases (is_empty (ready_keys ((key, parents) ∷ ns)))) [
      | inl stuck ↦
          let held =
            none_ready_held rank (keys ((key, parents) ∷ ns)) ((key, parents) ∷ ns) stuck ranked
              closed in
          absurd (
            no_descent rank ((key, parents) ∷ ns) (suc (rank key)) key held (rw (==_refl key) refl)
              (omega arith))
      | inr ready ↦ ready
    ]
