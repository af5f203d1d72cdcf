-- ===== src/Sdd/Batch/Order.antt =====
-- batch_policy.py: the loop that orders the selected members.
use autohub.Base.{
  ℕ, zero, suc, ◌≡◌, ◌≤◌, ◌<◌, refl, Bool, true, false, not, ◌&&◌, Option, none, some, List, [],
  ◌∷◌, arith, ◌==◌, any, length, All, Bool-cases, inl, inr, ok, require, String, ◌≢◌, bind_returned,
  ok_injective, subst, ==_refl, sym, ◌∙◌, ◌⊎◌, ==_iff,
}
use autohub.Sdd.Batch.{Edge, mem, depends, is_blocked, lesser, least, remove, drain, distinct}

lesser_cases : (j : ℕ) (o : Option ℕ) (k : ℕ) → lesser j o ≡ some k → (k ≡ j) ⊎ (o ≡ some k)
lesser_cases j o k h = ground arith

pub least-some :
    (p : ℕ → Bool) (ks : List ℕ) (k : ℕ) → least p ks ≡ some k → (p k ≡ true) × (mem k ks ≡ true)
least-some p [] k h = ground arith
least-some p (j ∷ ks) k h = elim (Bool-cases (p j)) [
  | inr fails ↦ let (ok_k, in_ks) = least-some p ks k (rw fails at h) in (ok_k, ground arith)
  | inl passes ↦ elim (lesser_cases j (least p ks) k (rw passes at h)) [
    | inl same ↦ rw same (passes, rw (==_refl j) refl)
    | inr found ↦ let (ok_k, in_ks) = least-some p ks k found in (ok_k, ground arith)
  ]
]

lesser_ne : (j : ℕ) (o : Option ℕ) → lesser j o ≡ none → false ≡ true
lesser_ne j none h = cc
lesser_ne j (some i) h = ground arith

pub least-none : (p : ℕ → Bool) (ks : List ℕ) → least p ks ≡ none → All (λ k. p k ≡ false) ks
least-none p [] h = tt
least-none p (j ∷ ks) h = elim (Bool-cases (p j)) [
  | inl passes ↦ cc (lesser_ne j (least p ks) (rw passes at h))
  | inr fails ↦ (fails, least-none p ks (rw fails at h))
]

length-remove_le : (k : ℕ) (ks : List ℕ) → length (remove k ks) ≤ length ks
length-remove_le k [] = omega arith
length-remove_le k (j ∷ ks) = ground (arith, length-remove_le k ks)

pub length-remove : (k : ℕ) (ks : List ℕ) → mem k ks ≡ true → length (remove k ks) < length ks
length-remove k [] h = ground arith
length-remove k (j ∷ ks) h = ground (arith, length-remove_le k ks, length-remove k ks)

pub mem-remove : (k j : ℕ) (ks : List ℕ) → mem j (remove k ks) ≡ (mem j ks && not (j == k))
mem-remove k j [] = refl
mem-remove k j (i ∷ ks) = ground (arith, mem-remove k j ks)

module _ (p : ℕ → Bool) where
  any-mem : (ks : List ℕ) → any p ks ≡ true → (k : ℕ) × (mem k ks ≡ true) × (p k ≡ true)
  any-mem [] h = cc
  any-mem (j ∷ ks) h = elim (Bool-cases (p j)) [
    | inl passes ↦ (j, rw (==_refl j) refl, passes)
    | inr fails ↦ let (k, there, passes) = any-mem ks (rw fails at h) in (k, ground arith, passes)
  ]

  pub mem-any : (k : ℕ) (ks : List ℕ) → mem k ks ≡ true → p k ≡ true → any p ks ≡ true
  mem-any k [] h passes = cc
  mem-any k (j ∷ ks) h passes = elim (Bool-cases (j == k)) [
    | inl same ↦ rw (subst (λ x. p x ≡ true) (sym ((==_iff j k).0 same)) passes) refl
    | inr other ↦ ground (arith, mem-any k ks (rw other at h) passes)
  ]

  pub any_subset :
      (ks js : List ℕ)
      → ((k : ℕ) → mem k ks ≡ true → mem k js ≡ true)
      → any p js ≡ false
      → any p ks ≡ false
  any_subset ks js sub h = elim (Bool-cases (any p ks)) [
    | inr none' ↦ none'
    | inl some' ↦
        let (k, there, passes) = any-mem ks some' in cc (mem-any k js (sub k there) passes)
  ]

module _ (selected : List ℕ) (edges : List Edge) where
  abbrev waiting : ℕ → List ℕ → Bool
  waiting key remaining = is_blocked selected edges key remaining

  -- Every key depends on none that comes with it or after it.
  abbrev pub IsOrdered : List ℕ → Type 0
  IsOrdered [] = Unit
  IsOrdered (k ∷ ks) = (is_blocked selected edges k (k ∷ ks) ≡ false) × IsOrdered ks

  -- The keys of an order are those that were to be ordered, each once.
  mem-order :
      (key k : ℕ) (ks rest : List ℕ)
      → mem key ks ≡ true
      → mem k rest ≡ mem k (remove key ks)
      → mem k (key ∷ rest) ≡ mem k ks
  mem-order key k ks rest there e = elim (Bool-cases (key == k)) [
    | inl same ↦ rw same (sym (subst (λ x. mem x ks ≡ true) ((==_iff key k).0 same) there))
    | inr other ↦ rw other (e ∙ mem-remove key k ks ∙ ground arith)
  ]

  required :
      {o : Option ℕ} (status : ℕ) (detail : String) {k : ℕ}
      → require o status detail ≡ ok k
      → o ≡ some k
  required {o = none} status detail h = cc
  required {o = some j} status detail h = cc

  not-true : (b : Bool) → not b ≡ true → b ≡ false
  not-true b h = ground arith

  -- A step of the loop: what it takes, and what it leaves.
  pub drain_step :
      (fuel r : ℕ) (rs : List ℕ) (order : List ℕ)
      → drain selected edges (suc fuel) (r ∷ rs) ≡ ok order
      → (key : ℕ) × (rest : List ℕ) × (is_blocked selected edges key (r ∷ rs) ≡ false)
        × (mem key (r ∷ rs) ≡ true)
        × (drain selected edges fuel (remove key (r ∷ rs)) ≡ ok rest)
        × (key ∷ rest ≡ order)
  unfolding drain
  drain_step fuel r rs order h =
      let (key, found, next) =
        bind_returned
          (require (least (λ k. not (waiting k (r ∷ rs))) (r ∷ rs)) 422
            "Selected members have a dependency cycle")
          _ h in
      let (rest, drained, same) =
        bind_returned (drain selected edges fuel (remove key (r ∷ rs))) _ next in
      let (free, there) =
        least-some (λ k. not (waiting k (r ∷ rs))) (r ∷ rs) key (required _ _ found) in
      (key, rest, not-true (waiting key (r ∷ rs)) free, there, drained, ok_injective same)

  drain_empty : (fuel : ℕ) (order : List ℕ) → drain selected edges fuel [] ≡ ok order → [] ≡ order
  unfolding drain
  drain_empty zero order h = ok_injective h
  drain_empty (suc fuel) order h = ok_injective h

  drain_starved : (r : ℕ) (rs order : List ℕ) → drain selected edges zero (r ∷ rs) ≢ ok order
  unfolding drain
  drain_starved r rs order h = cc

  pub drain-mem :
      (fuel : ℕ) (remaining order : List ℕ) (k : ℕ)
      → drain selected edges fuel remaining ≡ ok order
      → mem k order ≡ mem k remaining
  drain-mem fuel [] order k h = subst (λ o. mem k o ≡ false) (drain_empty fuel order h) refl
  drain-mem zero (r ∷ rs) order k h = absurd (drain_starved r rs order h)
  drain-mem (suc fuel) (r ∷ rs) order k h =
      let (key, rest, free, there, drained, same) = drain_step fuel r rs order h in
      subst (λ o. mem k o ≡ mem k (r ∷ rs)) same
        (mem-order key k (r ∷ rs) rest there (drain-mem fuel (remove key (r ∷ rs)) rest k drained))

  pub drain-IsOrdered :
      (fuel : ℕ) (remaining order : List ℕ)
      → drain selected edges fuel remaining ≡ ok order
      → IsOrdered order
  drain-IsOrdered fuel [] order h = subst IsOrdered (drain_empty fuel order h) tt
  drain-IsOrdered zero (r ∷ rs) order h = absurd (drain_starved r rs order h)
  drain-IsOrdered (suc fuel) (r ∷ rs) order h =
      let (key, rest, free, there, drained, same) = drain_step fuel r rs order h in
      let kept = λ (k : ℕ) (m : mem k (key ∷ rest) ≡ true).
        sym (
          mem-order key k (r ∷ rs) rest there (drain-mem fuel (remove key (r ∷ rs)) rest k drained))
        ∙ m in
      subst IsOrdered same (
        any_subset (depends selected edges key) (key ∷ rest) (r ∷ rs) kept free,
        drain-IsOrdered fuel (remove key (r ∷ rs)) rest drained,
      )

  -- An order has each key once.
  pub drain-distinct :
      (fuel : ℕ) (remaining order : List ℕ)
      → drain selected edges fuel remaining ≡ ok order
      → distinct order ≡ true
  drain-distinct fuel [] order h = subst (λ o. distinct o ≡ true) (drain_empty fuel order h) refl
  drain-distinct zero (r ∷ rs) order h = absurd (drain_starved r rs order h)
  drain-distinct (suc fuel) (r ∷ rs) order h =
      let (key, rest, free, there, drained, same) = drain_step fuel r rs order h in
      subst (λ o. distinct o ≡ true) same
        (rw (drain-mem fuel (remove key (r ∷ rs)) rest key drained)
          (rw (removed_gone key (r ∷ rs)) (drain-distinct fuel (remove key (r ∷ rs)) rest drained)))
    where
      removed_gone : (key : ℕ) (ks : List ℕ) → mem key (remove key ks) ≡ false
      removed_gone key ks = mem-remove key key ks ∙ ground (arith, ==_refl key)
