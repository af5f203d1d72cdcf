-- ===== src/Sdd/Batch/Cycle.antt =====
-- batch_policy.py: how the loop that orders the selected members ends.
use autohub.Base.{
  ℕ, zero, suc, ◌≡◌, ◌≤◌, refl, true, false, not, none, some, List, [], ◌∷◌, arith, ◌==◌, length,
  All, Bool-cases, Option-cases, inl, inr, ok, raise, project_error, Result, ==_refl, ◌∙◌, sym, ◌≢◌,
  ◌↔◌, ◌⊎◌, subst, ==_iff, ◌>>=◌,
}
use autohub.Sdd.Batch.{Edge, mem, depends, is_blocked, least, remove, drain}
use autohub.Sdd.Batch.Order.{
  least-none, least-some, length-remove, mem-remove, any_subset, IsOrdered, drain-IsOrdered,
  drain-mem,
}

module _ (selected : List ℕ) (edges : List Edge) where
  -- The loop stops at a cycle: a set of keys, all of them to be ordered, in which every one waits.
  pub record IsStuck (remaining cycle : List ℕ) : Type 0 where
    pub inhabited : 1 ≤ length cycle
    pub inside : (k : ℕ) → mem k cycle ≡ true → mem k remaining ≡ true
    pub waits : All (λ k. is_blocked selected edges k cycle ≡ true) cycle

  -- The results of the loop.
  pub data Outcome (remaining : List ℕ) (r : Result (List ℕ)) : Type 0 where
    ordered : (order : List ℕ) → r ≡ ok order → Outcome remaining r
    cyclic :
        (cycle : List ℕ)
        → IsStuck remaining cycle
        → r ≡ raise (project_error 422 "Selected members have a dependency cycle")
        → Outcome remaining r

  drain_gone :
      (fuel r : ℕ) (rs : List ℕ)
      → least (λ k. not (is_blocked selected edges k (r ∷ rs))) (r ∷ rs) ≡ none
      → drain selected edges (suc fuel) (r ∷ rs)
        ≡ raise (project_error 422 "Selected members have a dependency cycle")
  unfolding drain
  drain_gone fuel r rs gone = rw gone refl

  drain_found :
      (fuel r : ℕ) (rs : List ℕ) (key : ℕ)
      → least (λ k. not (is_blocked selected edges k (r ∷ rs))) (r ∷ rs) ≡ some key
      → drain selected edges (suc fuel) (r ∷ rs)
        ≡ (drain selected edges fuel (remove key (r ∷ rs)) >>= λ rest. ok (key ∷ rest))
  unfolding drain
  drain_found fuel r rs key found = rw found refl

  drain_nil : (fuel : ℕ) → drain selected edges fuel [] ≡ ok []
  unfolding drain
  drain_nil zero = refl
  drain_nil (suc fuel) = refl

  every_waits :
      (ks js : List ℕ)
      → All (λ k. not (is_blocked selected edges k js) ≡ false) ks
      → All (λ k. is_blocked selected edges k js ≡ true) ks
  every_waits [] js a = tt
  every_waits (k ∷ ks) js a = (ground (arith, a.0), every_waits ks js a.1)

  IsStuck-widens : (key : ℕ) (ks cycle : List ℕ) → IsStuck (remove key ks) cycle → IsStuck ks cycle
  IsStuck-widens key ks cycle s = record {
    inhabited = s.inhabited;
    inside = λ k there. ground (arith, s.inside k there, mem-remove key k ks);
    waits = s.waits;
  }

  after_step :
      (fuel r : ℕ) (rs : List ℕ) (key : ℕ)
      → least (λ k. not (is_blocked selected edges k (r ∷ rs))) (r ∷ rs) ≡ some key
      → Outcome (remove key (r ∷ rs)) (drain selected edges fuel (remove key (r ∷ rs)))
      → Outcome (r ∷ rs) (drain selected edges (suc fuel) (r ∷ rs))
  after_step fuel r rs key found (ordered rest e) =
      ordered (key ∷ rest) (drain_found fuel r rs key found ∙ rw e refl)
  after_step fuel r rs key found (cyclic cycle s e) =
      cyclic cycle (IsStuck-widens key (r ∷ rs) cycle s)
        (drain_found fuel r rs key found ∙ rw e refl)

  pub drain_enough :
      (fuel : ℕ) (remaining : List ℕ)
      → length remaining ≤ fuel
      → Outcome remaining (drain selected edges fuel remaining)
  drain_enough fuel [] le = ordered [] (drain_nil fuel)
  drain_enough zero (r ∷ rs) le = absurd (omega (arith, le))
  drain_enough (suc fuel) (r ∷ rs) le =
      elim (Option-cases (least (λ k. not (is_blocked selected edges k (r ∷ rs))) (r ∷ rs))) [
        | inl gone ↦
            cyclic (r ∷ rs)
              (record {
                inhabited = omega arith;
                inside = λ k there. there;
                waits =
                    every_waits (r ∷ rs) (r ∷ rs)
                      (least-none (λ k. not (is_blocked selected edges k (r ∷ rs))) (r ∷ rs) gone);
              })
              (drain_gone fuel r rs gone)
        | inr (key, found) ↦ after_step fuel r rs key found (
            drain_enough fuel (remove key (r ∷ rs)) (
              omega (
                arith,
                le,
                length-remove key (r ∷ rs)
                    (least-some (λ k. not (is_blocked selected edges k (r ∷ rs))) (r ∷ rs) key
                      found).1,
              )))
      ]

  -- An order keeps every set of its keys from waiting on itself.
  waits_of :
      (k : ℕ) (js cycle : List ℕ)
      → All (λ k. is_blocked selected edges k js ≡ true) cycle
      → mem k cycle ≡ true
      → is_blocked selected edges k js ≡ true
  waits_of k js [] a h = cc
  waits_of k js (j ∷ cycle) a h = elim (Bool-cases (j == k)) [
    | inl same ↦ subst (λ x. is_blocked selected edges x js ≡ true) ((==_iff j k).0 same) a.0
    | inr other ↦ waits_of k js cycle a.1 (rw other at h)
  ]

  free_of_cycles :
      (order cycle : List ℕ)
      → IsOrdered selected edges order
      → 1 ≤ length cycle
      → ((k : ℕ) → mem k cycle ≡ true → mem k order ≡ true)
      → All (λ k. is_blocked selected edges k cycle ≡ true) cycle
      → false ≡ true
  free_of_cycles order [] o some' sub waits = absurd (omega (arith, some'))
  free_of_cycles [] (c ∷ cycle) o some' sub waits = sub c (rw (==_refl c) refl)
  free_of_cycles (k ∷ order) (c ∷ cycle) o some' sub waits = elim (Bool-cases (mem k (c ∷ cycle))) [
    | inl inside' ↦
        sym (any_subset (depends selected edges k) (c ∷ cycle) (k ∷ order) sub o.0)
        ∙ waits_of k (c ∷ cycle) (c ∷ cycle) waits inside'
    | inr outside ↦
        free_of_cycles order (c ∷ cycle) o.1 some'
          (λ j there. passes_over k order (c ∷ cycle) outside j there (sub j there)) waits
  ]
    where
      passes_over :
          (k : ℕ) (order cycle : List ℕ)
          → mem k cycle ≡ false
          → (j : ℕ) → mem j cycle ≡ true
          → mem j (k ∷ order) ≡ true
          → mem j order ≡ true
      passes_over k order cycle outside j there h = elim (Bool-cases (k == j)) [
        | inl same ↦
            cc (sym (subst (λ x. mem x cycle ≡ false) ((==_iff k j).0 same) outside) ∙ there)
        | inr other ↦ rw other at h
      ]

  pub stuck-unordered :
      (fuel : ℕ) (remaining cycle order : List ℕ)
      → IsStuck remaining cycle
      → drain selected edges fuel remaining ≢ ok order
  stuck-unordered fuel remaining cycle order s h = cc (
      free_of_cycles order cycle (drain-IsOrdered selected edges fuel remaining order h) s.inhabited
        (λ k there. drain-mem selected edges fuel remaining order k h ∙ s.inside k there) s.waits)

-- The loop, given one step for each key, always ends with an answer, never for want of steps: an order
-- of just these keys in which none depends on itself or a later one, or the 422 of a dependency cycle.
-- It fails exactly if some of the keys form a cycle: a set of them, not empty, in which each key
-- depends on one of the set.
pub drain-cycle :
    (selected : List ℕ) (edges : List Edge) (remaining : List ℕ)
    → (((order : List ℕ) × (drain selected edges (length remaining) remaining ≡ ok order)
          × IsOrdered selected edges order
          × ((k : ℕ) → mem k order ≡ mem k remaining))
        ⊎ (drain selected edges (length remaining) remaining
            ≡ raise (project_error 422 "Selected members have a dependency cycle")))
      × ((drain selected edges (length remaining) remaining
            ≡ raise (project_error 422 "Selected members have a dependency cycle"))
          ↔ ((cycle : List ℕ) × IsStuck selected edges remaining cycle))
drain-cycle selected edges remaining = (
  ends (drain_enough selected edges (length remaining) remaining (omega arith)),
  (
    (λ h. fails h (drain_enough selected edges (length remaining) remaining (omega arith))),
    (λ x. stuck x.0 x.1 (drain_enough selected edges (length remaining) remaining (omega arith))),
  ),
)
  where
    ends :
        Outcome selected edges remaining (drain selected edges (length remaining) remaining)
        → ((order : List ℕ) × (drain selected edges (length remaining) remaining ≡ ok order)
            × IsOrdered selected edges order
            × ((k : ℕ) → mem k order ≡ mem k remaining))
          ⊎ (drain selected edges (length remaining) remaining
              ≡ raise (project_error 422 "Selected members have a dependency cycle"))
    ends (ordered order e) = inl (
      order,
      e,
      drain-IsOrdered selected edges (length remaining) remaining order e,
      (λ k. drain-mem selected edges (length remaining) remaining order k e),
    )
    ends (cyclic cycle s e) = inr e

    fails :
        drain selected edges (length remaining) remaining
          ≡ raise (project_error 422 "Selected members have a dependency cycle")
        → Outcome selected edges remaining (drain selected edges (length remaining) remaining)
        → (cycle : List ℕ) × IsStuck selected edges remaining cycle
    fails h (ordered order e) = cc
    fails h (cyclic cycle s e) = (cycle, s)

    stuck :
        (cycle : List ℕ)
        → IsStuck selected edges remaining cycle
        → Outcome selected edges remaining (drain selected edges (length remaining) remaining)
        → drain selected edges (length remaining) remaining
          ≡ raise (project_error 422 "Selected members have a dependency cycle")
    stuck cycle s (ordered order e) =
        absurd (stuck-unordered selected edges (length remaining) remaining cycle order s e)
    stuck cycle s (cyclic cycle' s' e) = e
