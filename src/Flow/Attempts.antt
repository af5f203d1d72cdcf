-- ===== src/Flow/Attempts.antt =====
-- The FlowAttempt rows of a run, against the counts of its FlowStep rows.
pub mod Made
pub mod Commanded
pub mod Counted
use autohub.Base.{
  ℕ, zero, suc, ◌≡◌, ◌≢◌, refl, sym, ap, subst, ◌∙◌, Bool, true, false, Option, some, none, List,
  [], ◌∷◌, arith, All, map, count, get_elem?, ◌==◌, ==_refl,
}
use autohub.Flow.Model.{Flow, FlowStep, FlowAttempt}
use autohub.Flow.Runtime.{put_at}
use autohub.Flow.Rows.{map-put_at_same}

-- The attempts that each step of a run has, in the order of the steps.
abbrev pub attempts_made : Flow → List ℕ
attempts_made f = map (λ row. count (λ a. a.step_id == row.id) f.attempts) f.steps

-- A row's id with its count, and the step of an attempt.
abbrev pub tallied : FlowStep → ℕ × ℕ
tallied row = (row.id, row.attempt_count)

abbrev pub tally : Flow → List (ℕ × ℕ)
tally f = map tallied f.steps

abbrev pub owners : Flow → List ℕ
owners f = map (λ a. a.step_id) f.attempts

abbrev pub AreApart : List ℕ → Type 0
AreApart [] = Unit
AreApart (id ∷ ids) = All (λ other. id ≢ other) ids × AreApart ids

-- The count of a row is the number of its attempts.
abbrev pub IsTallied : List ℕ → ℕ × ℕ → Type 0
IsTallied steps (id, n) = count (λ k. k == id) steps ≡ n

-- The rows have different ids, and each the attempts that it counts.
abbrev pub IsCounted : Flow → Type 0
IsCounted f = AreApart (map (λ x. x.0) (tally f)) × All (IsTallied (owners f)) (tally f)

-- An attempt of a step that has none of these ids.
others-IsTallied :
    (id : ℕ) (steps : List ℕ) (rows : List (ℕ × ℕ))
    → All (λ other. id ≢ other) (map (λ x. x.0) rows)
    → All (IsTallied steps) rows
    → All (IsTallied (id ∷ steps)) rows
others-IsTallied id steps [] apart h = tt
others-IsTallied id steps ((k, n) ∷ rows) apart h =
    (ground (arith, apart.0, h.0), others-IsTallied id steps rows apart.1 h.1)

some_eq {ℓ} : {A : Type ℓ} {x y : A} → some x ≡ some y → x ≡ y
some_eq h = cc

apart_at :
    (k i id n : ℕ) (rows : List (ℕ × ℕ))
    → All (λ other. k ≢ other) (map (λ x. x.0) rows)
    → get_elem? rows i ≡ some (id, n)
    → k ≢ id
apart_at k i id n [] apart at_i = cc
apart_at k zero id n ((j, m) ∷ rows) apart at_i = let ne = apart.0 in ground (arith, ne, at_i)
apart_at k (suc i) id n ((j, m) ∷ rows) apart at_i = apart_at k i id n rows apart.1 at_i

-- One more attempt, and one more in the count of its row.
pub next-IsTallied :
    (i id n : ℕ) (steps : List ℕ) (rows : List (ℕ × ℕ))
    → AreApart (map (λ x. x.0) rows)
    → get_elem? rows i ≡ some (id, n)
    → All (IsTallied steps) rows
    → All (IsTallied (id ∷ steps)) (put_at i (id, suc n) rows)
next-IsTallied i id n steps [] apart at_i h = tt
next-IsTallied zero id n steps ((k, m) ∷ rows) apart at_i h =
    let same : (k, m) ≡ (id, n) = some_eq at_i in
    (
      rw (==_refl id) (ap suc (subst (IsTallied steps) same h.0)),
      others-IsTallied id steps rows
          (subst (λ x. All (λ other. x.0 ≢ other) (map (λ y. y.0) rows)) same apart.0) h.1,
    )
next-IsTallied (suc i) id n steps ((k, m) ∷ rows) apart at_i h = (
  (let ne = apart_at k i id n rows apart.0 at_i in ground (arith, ne, h.0)),
  next-IsTallied i id n steps rows apart.1 at_i h.1,
)

count-map :
    (id : ℕ) (items : List FlowAttempt)
    → count (λ k. k == id) (map (λ a. a.step_id) items) ≡ count (λ a. a.step_id == id) items
count-map id [] = refl
count-map id (a ∷ items) = rw (count-map id items) refl

rows-attempts_made :
    (rows : List FlowStep) (items : List FlowAttempt)
    → All (IsTallied (map (λ a. a.step_id) items)) (map tallied rows)
    → map (λ row. count (λ a. a.step_id == row.id) items) rows ≡ map (λ row. row.attempt_count) rows
rows-attempts_made [] items h = refl
rows-attempts_made (r ∷ rows) items h =
    rw (sym (count-map r.id items) ∙ h.0, rows-attempts_made rows items h.1) refl

-- The counts of the rows are their numbers of attempts.
pub attempts_made-tries :
    (f : Flow) → IsCounted f → attempts_made f ≡ map (λ row. row.attempt_count) f.steps
attempts_made-tries f h = rows-attempts_made f.steps f.attempts h.1
