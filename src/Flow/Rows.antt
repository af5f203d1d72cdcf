-- ===== src/Flow/Rows.antt =====
-- The rows of a run: those before the current step are completed, and those behind it queued.
use autohub.Base.{
  ℕ, zero, suc, ◌≤◌, ◌<◌, ◌≡◌, refl, ap, Bool, true, false, some, List, [], ◌∷◌, arith, get_elem?,
  length, All, map,
}
use autohub.Flow.Model.{FlowStep, StepStatus, step_completed}
use autohub.Flow.Runtime.{put_at, is_queued}
use autohub.Flow.Commands.{reset_from}

abbrev pub is_done : StepStatus → Bool
is_done step_completed = true
is_done _ = false

abbrev pub IsQueued : FlowStep → Type 0
IsQueued row = is_queued row.status ≡ true

abbrev pub IsSplit : ℕ → List FlowStep → Type 0
IsSplit i [] = i ≡ 0
IsSplit zero (r ∷ rs) = (is_done r.status ≡ false) × All IsQueued rs
IsSplit (suc i) (r ∷ rs) = (is_done r.status ≡ true) × IsSplit i rs

module _ {ℓ} {A : Type ℓ} where
  pub get_elem?-put_at :
      (i : ℕ) (x y : A) (xs : List A)
      → get_elem? xs i ≡ some y
      → get_elem? (put_at i x xs) i ≡ some x
  get_elem?-put_at i x y [] h = cc
  get_elem?-put_at zero x y (z ∷ zs) h = refl
  get_elem?-put_at (suc i) x y (z ∷ zs) h = get_elem?-put_at i x y zs h

  pub length-put_at : (i : ℕ) (x : A) (xs : List A) → length (put_at i x xs) ≡ length xs
  length-put_at i x [] = refl
  length-put_at zero x (z ∷ zs) = refl
  length-put_at (suc i) x (z ∷ zs) = ap suc (length-put_at i x zs)

  pub get_elem?-lt : (i : ℕ) (x : A) (xs : List A) → get_elem? xs i ≡ some x → i < length xs
  get_elem?-lt i x [] h = cc
  get_elem?-lt zero x (z ∷ zs) h = omega arith
  get_elem?-lt (suc i) x (z ∷ zs) h = omega (arith, get_elem?-lt i x zs h)

  pub get_elem?-map {κ} :
      {B : Type κ} (g : A → B) (i : ℕ) (x : A) (xs : List A)
      → get_elem? xs i ≡ some x
      → get_elem? (map g xs) i ≡ some (g x)
  get_elem?-map g i x [] h = cc
  get_elem?-map g zero x (z ∷ zs) h = cc
  get_elem?-map g (suc i) x (z ∷ zs) h = get_elem?-map g i x zs h

  pub map-put_at {κ} :
      {B : Type κ} (g : A → B) (i : ℕ) (x : A) (xs : List A)
      → map g (put_at i x xs) ≡ put_at i (g x) (map g xs)
  map-put_at g i x [] = refl
  map-put_at g zero x (z ∷ zs) = refl
  map-put_at g (suc i) x (z ∷ zs) = ap (λ l. g z ∷ l) (map-put_at g i x zs)

  -- A change that a function does not see.
  pub map-put_at_same {κ} :
      {B : Type κ} (g : A → B) (i : ℕ) (x y : A) (xs : List A)
      → get_elem? xs i ≡ some y
      → g x ≡ g y
      → map g (put_at i x xs) ≡ map g xs
  map-put_at_same g i x y [] h e = refl
  map-put_at_same g zero x y (z ∷ zs) h e = cc
  map-put_at_same g (suc i) x y (z ∷ zs) h e = ap (λ l. g z ∷ l) (map-put_at_same g i x y zs h e)

pub map-reset_from_tries :
    (i : ℕ) (rows : List FlowStep)
    → map (λ row. row.attempt_count) (reset_from i rows) ≡ map (λ row. row.attempt_count) rows
map-reset_from_tries i [] = refl
map-reset_from_tries zero (r ∷ rs) = ap (λ l. r.attempt_count ∷ l) (map-reset_from_tries zero rs)
map-reset_from_tries (suc i) (r ∷ rs) = ap (λ l. r.attempt_count ∷ l) (map-reset_from_tries i rs)

pub map-reset_from_reworks :
    (i : ℕ) (rows : List FlowStep)
    → map (λ row. row.rework_count) (reset_from i rows) ≡ map (λ row. row.rework_count) rows
map-reset_from_reworks i [] = refl
map-reset_from_reworks zero (r ∷ rs) = ap (λ l. r.rework_count ∷ l) (map-reset_from_reworks zero rs)
map-reset_from_reworks (suc i) (r ∷ rs) = ap (λ l. r.rework_count ∷ l) (map-reset_from_reworks i rs)

pub length-reset_from : (i : ℕ) (rows : List FlowStep) → length (reset_from i rows) ≡ length rows
length-reset_from i [] = refl
length-reset_from zero (r ∷ rs) = ap suc (length-reset_from zero rs)
length-reset_from (suc i) (r ∷ rs) = ap suc (length-reset_from i rs)

pub IsSplit-le : (i : ℕ) (rows : List FlowStep) → IsSplit i rows → i ≤ length rows
IsSplit-le i [] h = omega arith
IsSplit-le zero (r ∷ rs) h = omega arith
IsSplit-le (suc i) (r ∷ rs) h = omega (arith, IsSplit-le i rs h.1)

-- The current row may change, but not to a completed one.
pub put_at-IsSplit :
    (i : ℕ) (row : FlowStep) (rows : List FlowStep)
    → IsSplit i rows
    → is_done row.status ≡ false
    → IsSplit i (put_at i row rows)
put_at-IsSplit i row [] h e = h
put_at-IsSplit zero row (r ∷ rs) h e = (e, h.1)
put_at-IsSplit (suc i) row (r ∷ rs) h e = (h.0, put_at-IsSplit i row rs h.1 e)

-- The rows behind a completed current row begin with a queued one.
pub queued-IsSplit : (rows : List FlowStep) → All IsQueued rows → IsSplit 0 rows
queued-IsSplit [] h = refl
queued-IsSplit (r ∷ rs) h = (ground (arith, h), h.1)

pub put_at-IsSplit_next :
    (i : ℕ) (row r0 : FlowStep) (rows : List FlowStep)
    → IsSplit i rows
    → get_elem? rows i ≡ some r0
    → is_done row.status ≡ true
    → IsSplit (suc i) (put_at i row rows)
put_at-IsSplit_next i row r0 [] h at_i e = cc
put_at-IsSplit_next zero row r0 (r ∷ rs) h at_i e = (e, queued-IsSplit rs h.1)
put_at-IsSplit_next (suc i) row r0 (r ∷ rs) h at_i e =
    (h.0, put_at-IsSplit_next i row r0 rs h.1 at_i e)

reset_from-IsQueued : (rows : List FlowStep) → All IsQueued (reset_from 0 rows)
reset_from-IsQueued [] = tt
reset_from-IsQueued (r ∷ rs) = (refl, reset_from-IsQueued rs)

-- Sent back to an earlier row, by rows whose current one may have changed.
pub reset_from-IsSplit :
    (i target : ℕ) (row : FlowStep) (rows : List FlowStep)
    → IsSplit i rows
    → target < i
    → IsSplit target (reset_from target (put_at i row rows))
reset_from-IsSplit zero target row rows h lt = absurd (omega arith)
reset_from-IsSplit (suc i) zero row [] h lt = refl
reset_from-IsSplit (suc i) zero row (r ∷ rs) h lt = (refl, reset_from-IsQueued (put_at i row rs))
reset_from-IsSplit (suc i) (suc target) row [] h lt = absurd (omega arith)
reset_from-IsSplit (suc i) (suc target) row (r ∷ rs) h lt =
    (h.0, reset_from-IsSplit i target row rs h.1 (omega arith))

-- Behind the current row, a row is queued.
pub queued_behind :
    (i : ℕ) (row r0 : FlowStep) (rows : List FlowStep)
    → IsSplit i rows
    → get_elem? (put_at i row rows) (suc i) ≡ some r0
    → is_queued r0.status ≡ true
queued_behind i row r0 [] h at_next = cc
queued_behind zero row r0 (r ∷ []) h at_next = cc
queued_behind zero row r0 (r ∷ s ∷ rs) h at_next = ground (arith, h, at_next)
queued_behind (suc i) row r0 (r ∷ rs) h at_next = queued_behind i row r0 rs h.1 at_next

pub reset_at :
    (i : ℕ) (r0 : FlowStep) (rows : List FlowStep)
    → get_elem? (reset_from i rows) i ≡ some r0
    → is_queued r0.status ≡ true
reset_at i r0 [] h = cc
reset_at zero r0 (r ∷ rs) h = ground (arith, h)
reset_at (suc i) r0 (r ∷ rs) h = reset_at i r0 rs h

pub IsSplit-undone :
    (i : ℕ) (r0 : FlowStep) (rows : List FlowStep)
    → IsSplit i rows
    → get_elem? rows i ≡ some r0
    → is_done r0.status ≡ false
IsSplit-undone i r0 [] h at_i = cc
IsSplit-undone zero r0 (r ∷ rs) h at_i = ground (arith, h, at_i)
IsSplit-undone (suc i) r0 (r ∷ rs) h at_i = IsSplit-undone i r0 rs h.1 at_i
