-- ===== src/Plans/Graph/Order.antt =====
-- work_plans/schemas.py: which graphs `validate_graph` accepts.
use autohub.Base.{
  ℕ, zero, suc, ◌<◌, ◌≡◌, ◌⊎◌, inl, inr, refl, true, false, Bool-cases, List, [], ◌∷◌,
  if◌then◌else◌, ◌==◌, ==_iff, ==_refl, All, arith, get_elem?, some, some_injective, if-both, subst,
}
use autohub.Plans.Graph.{Node, has, keys, is_empty, ready_keys, minus, strip}

-- Every key comes after the keys that it depends on.
abbrev pub IsRanked : (ℕ → ℕ) → List Node → Type 0
IsRanked rank graph = All (λ node. All (λ p. rank p < rank node.0) node.1) graph

-- Each key depends on keys of the graph.
abbrev pub IsClosed : List ℕ → List Node → Type 0
IsClosed known graph = All (λ node. All (λ p. has p known ≡ true) node.1) graph

-- The keys of a dictionary are different.
abbrev pub IsDict : List Node → Type 0
IsDict [] = Unit
IsDict ((key, parents) ∷ rest) = (has key (keys rest) ≡ false) × IsDict rest

no_parent : (parents : List ℕ) (P : ℕ → Type 0) → is_empty parents ≡ true → All P parents
no_parent [] P h = tt
no_parent (p ∷ ps) P h = cc

pub ready_is_key :
    (k : ℕ) (graph : List Node) → has k (ready_keys graph) ≡ true → has k (keys graph) ≡ true
ready_is_key k [] h = cc
ready_is_key k ((key, parents) ∷ rest) h = ground (arith, ready_is_key k rest, h)

has-at :
    (graph : List Node) (i : ℕ) (node : Node)
    → get_elem? graph i ≡ some node
    → has node.0 (keys graph) ≡ true
has-at [] i node h = cc
has-at ((key, parents) ∷ rest) zero node h =
    subst (λ n. has n.0 (key ∷ keys rest) ≡ true) (some_injective h) (rw (==_refl key) refl)
has-at ((key, parents) ∷ rest) (suc i) node h =
    let there = has-at rest i node h in ground (arith, there)

-- In a dictionary a key that is ready has no parents.
pub ready_empty :
    (graph : List Node) (i : ℕ) (node : Node)
    → IsDict graph
    → get_elem? graph i ≡ some node
    → has node.0 (ready_keys graph) ≡ true
    → is_empty node.1 ≡ true
ready_empty [] i node dict at_i h = cc
ready_empty ((key, parents) ∷ rest) zero node dict at_i h =
    subst (λ n. has n.0 (ready_keys ((key, parents) ∷ rest)) ≡ true → is_empty n.1 ≡ true)
      (some_injective at_i) (head_empty key parents rest dict.0) h
  where
    head_empty :
        (key : ℕ) (parents : List ℕ) (rest : List Node)
        → has key (keys rest) ≡ false
        → has key (ready_keys ((key, parents) ∷ rest)) ≡ true
        → is_empty parents ≡ true
    head_empty key [] rest new h = refl
    head_empty key (p ∷ ps) rest new h = let known = ready_is_key key rest h in cc
ready_empty ((key, parents) ∷ rest) (suc i) node dict at_i h =
    let known = has-at rest i node at_i in
    elim (Bool-cases (key == node.0)) [
      | inl same ↦
          let e = (==_iff key node.0).0 same in
          let twice : has key (keys rest) ≡ true = rw e known in let new = dict.0 in cc
      | inr other ↦ ready_empty rest i node dict.1 at_i (not_head key parents rest node.0 other h)
    ]
  where
    not_head :
        (key : ℕ) (parents : List ℕ) (rest : List Node) (k : ℕ)
        → (key == k) ≡ false
        → has k (ready_keys ((key, parents) ∷ rest)) ≡ true
        → has k (ready_keys rest) ≡ true
    not_head key [] rest k other h = rw other at h
    not_head key (p ∷ ps) rest k other h = h

-- What is left after a round.
kept_key :
    (ready : List ℕ) (graph : List Node) (k : ℕ)
    → has k (keys graph) ≡ false
    → has k (keys (strip ready graph)) ≡ false
kept_key ready [] k h = refl
kept_key ready ((key, parents) ∷ rest) k h =
    let later = kept_key ready rest k in ground (arith, later, h)

pub strip-IsDict : (ready : List ℕ) (graph : List Node) → IsDict graph → IsDict (strip ready graph)
strip-IsDict ready [] h = tt
strip-IsDict ready ((key, parents) ∷ rest) h =
    if-both IsDict (has key ready) (strip ready rest)
      ((key, minus parents ready) ∷ strip ready rest) (λ gone. strip-IsDict ready rest h.1)
      (λ stays. (kept_key ready rest key h.0, strip-IsDict ready rest h.1))

-- The rank of a key by the rounds: those of the first round have the rank 0.
abbrev pub raise_rank : List ℕ → (ℕ → ℕ) → ℕ → ℕ
raise_rank ready rank k = if has k ready then 0 else suc (rank k)

ranked_parents :
    (ready : List ℕ) (rank : ℕ → ℕ) (k : ℕ) (parents : List ℕ)
    → All (λ p. rank p < rank k) (minus parents ready)
    → has k ready ≡ false
    → All (λ p. raise_rank ready rank p < raise_rank ready rank k) parents
ranked_parents ready rank k [] h stays = tt
ranked_parents ready rank k (p ∷ ps) h stays = elim (Bool-cases (has p ready)) [
  | inl gone ↦ (rw (gone, stays) (omega arith), ranked_parents ready rank k ps (rw gone at h) stays)
  | inr kept ↦
      let both = rw kept at h in
      (rw (kept, stays) (omega (arith, both.0)), ranked_parents ready rank k ps both.1 stays)
]

pub graph-IsRanked :
    (ready : List ℕ) (rank : ℕ → ℕ) (graph : List Node)
    → IsRanked rank (strip ready graph)
    → All (λ node. (has node.0 ready ≡ false) ⊎ (is_empty node.1 ≡ true)) graph
    → IsRanked (raise_rank ready rank) graph
graph-IsRanked ready rank [] h e = tt
graph-IsRanked ready rank ((key, parents) ∷ rest) h e = elim (Bool-cases (has key ready)) [
  | inl gone ↦ (ready_parents e.0 gone, graph-IsRanked ready rank rest (rw gone at h) e.1)
  | inr stays ↦
      let both = rw stays at h in
      (
        ranked_parents ready rank key parents both.0 stays,
        graph-IsRanked ready rank rest both.1 e.1,
      )
]
  where
    ready_parents :
        (has key ready ≡ false) ⊎ (is_empty parents ≡ true)
        → has key ready ≡ true
        → All (λ p. raise_rank ready rank p < raise_rank ready rank key) parents
    ready_parents (inl not_ready) gone = cc
    ready_parents (inr empty) gone = no_parent parents _ empty
