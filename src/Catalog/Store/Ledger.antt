-- ===== src/Catalog/Store/Ledger.antt =====
-- repos.py, the dispatch ledger: what its window query counts, and how admissions change it.
use autohub.Base.{
  ℕ, suc, zero, ◌+◌, ◌≤◌, ◌<◌, ◌≡◌, refl, ap, ◌∙◌, Bool, false, ◌&&◌, some, List, [], ◌∷◌, map,
  arith, leb, ◌==◌, length, select, any, count, All, get_elem?, length-select, count-le-length,
  Bool-cases, inl, inr,
}
use autohub.Catalog.Store.{
  Dispatch, in_window, insert_time, sort_times, dispatch_times_since, prune, reserve_dispatch,
}

-- The column `dispatch_key` is unique.
abbrev pub KeysUnique : List Dispatch → Type 0
KeysUnique rows = (k : ℕ) → count (λ row. row.dispatch_key == k) rows ≤ 1

-- Every row of a catalog in a window, whatever its key.
abbrev pub in_window_of : ℕ → ℕ → Dispatch → Bool
in_window_of catalog_id since row = row.ai_catalog_id == catalog_id && leb since row.admitted_at

abbrev pub IsSorted : List ℕ → Type 0
IsSorted [] = Unit
IsSorted (x ∷ xs) = All (λ y. x ≤ y) xs × IsSorted xs

All-insert_time :
    (x t : ℕ) (xs : List ℕ) → x ≤ t → All (λ y. x ≤ y) xs → All (λ y. x ≤ y) (insert_time t xs)
All-insert_time x t [] h a = (h, tt)
All-insert_time x t (y ∷ ys) h a = elim (Bool-cases (leb t y)) [
  | inl le ↦ rw le (h, (a.0, a.1))
  | inr gt ↦ rw gt (a.0, All-insert_time x t ys h a.1)
]

All-mono : (x y : ℕ) (xs : List ℕ) → x ≤ y → All (λ z. y ≤ z) xs → All (λ z. x ≤ z) xs
All-mono x y [] h a = tt
All-mono x y (z ∷ zs) h a = (omega (arith, a.0), All-mono x y zs h a.1)

insert_time-IsSorted : (t : ℕ) (xs : List ℕ) → IsSorted xs → IsSorted (insert_time t xs)
insert_time-IsSorted t [] s = (tt, tt)
insert_time-IsSorted t (x ∷ xs) s = elim (Bool-cases (leb t x)) [
  | inl le ↦ rw le ((ground arith, All-mono t x xs (ground arith) s.0), (s.0, s.1))
  | inr gt ↦ rw gt (All-insert_time x t xs (ground arith) s.0, insert_time-IsSorted t xs s.1)
]

pub sort_times-IsSorted : (ts : List ℕ) → IsSorted (sort_times ts)
sort_times-IsSorted [] = tt
sort_times-IsSorted (t ∷ ts) = insert_time-IsSorted t (sort_times ts) (sort_times-IsSorted ts)

count-insert_time :
    (p : ℕ → Bool) (t : ℕ) (xs : List ℕ) → count p (insert_time t xs) ≡ count p (t ∷ xs)
count-insert_time p t [] = refl
count-insert_time p t (x ∷ xs) = ground (arith, count-insert_time p t xs)

pub count-sort_times : (p : ℕ → Bool) (ts : List ℕ) → count p (sort_times ts) ≡ count p ts
count-sort_times p [] = refl
count-sort_times p (t ∷ ts) =
    ground (arith, count-insert_time p t (sort_times ts), count-sort_times p ts)

le_elem : (x : ℕ) (xs : List ℕ) (i t : ℕ) → All (λ y. x ≤ y) xs → get_elem? xs i ≡ some t → x ≤ t
le_elem x [] i t a e = ground arith
le_elem x (y ∷ ys) zero t a e = ground arith
le_elem x (y ∷ ys) (suc i) t a e = le_elem x ys i t a.1 e

-- In a sorted list what is later than the element at `i` stands behind it.
pub count_later :
    (xs : List ℕ) (i t b : ℕ)
    → IsSorted xs
    → get_elem? xs i ≡ some t
    → t < b
    → count (leb b) xs + suc i ≤ length xs
count_later [] i t b s e h = ground arith
count_later (x ∷ xs) zero t b s e h = ground (arith, count-le-length (leb b) xs)
count_later (x ∷ xs) (suc i) t b s e h =
    ground (arith, count_later xs i t b s.1 e h, le_elem x xs i t s.0 e)

module _ (catalog_id since key : ℕ) where
  -- A later window is a part of an earlier one.
  pub count-window :
      (rows : List Dispatch) (b : ℕ)
      → since ≤ b
      → count (leb b) (map (λ row. row.admitted_at) (select (in_window catalog_id since key) rows))
        ≡ count (in_window catalog_id b key) rows
  count-window [] b h = refl
  count-window (row ∷ rows) b h = ground (arith, count-window rows b h)

  pub count-dispatch_times_since :
      (rows : List Dispatch) (b : ℕ)
      → since ≤ b
      → count (leb b) (dispatch_times_since rows catalog_id since key)
        ≡ count (in_window catalog_id b key) rows
  unfolding dispatch_times_since
  count-dispatch_times_since rows b h =
      count-sort_times (leb b)
        (map (λ row. row.admitted_at) (select (in_window catalog_id since key) rows))
      ∙ count-window rows b h

  length-insert_time : (t : ℕ) (xs : List ℕ) → length (insert_time t xs) ≡ suc (length xs)
  length-insert_time t [] = refl
  length-insert_time t (x ∷ xs) = ground (arith, length-insert_time t xs)

  length-sort-map :
      (rows : List Dispatch) → length (sort_times (map (λ row. row.admitted_at) rows)) ≡ length rows
  length-sort-map [] = refl
  length-sort-map (row ∷ rows) =
      length-insert_time row.admitted_at _ ∙ ap suc (length-sort-map rows)

  pub length-dispatch_times_since :
      (rows : List Dispatch)
      → length (dispatch_times_since rows catalog_id since key)
        ≡ count (in_window catalog_id since key) rows
  unfolding dispatch_times_since
  length-dispatch_times_since rows =
      length-sort-map (select (in_window catalog_id since key) rows)
      ∙ length-select (in_window catalog_id since key) rows

  pub dispatch_times_since-IsSorted :
      (rows : List Dispatch) → IsSorted (dispatch_times_since rows catalog_id since key)
  unfolding dispatch_times_since
  dispatch_times_since-IsSorted rows =
      sort_times-IsSorted
        (map (λ row. row.admitted_at) (select (in_window catalog_id since key) rows))

  -- The rows of a window are those of other keys and those of the key itself.
  count-split :
      (rows : List Dispatch)
      → count (in_window_of catalog_id since) rows
        ≤ count (in_window catalog_id since key) rows + count (λ row. row.dispatch_key == key) rows
  count-split [] = omega arith
  count-split (row ∷ rows) = ground (arith, count-split rows)

count-prune :
    (p : Dispatch → Bool) (t : ℕ) (rows : List Dispatch) → count p (prune t rows) ≤ count p rows
count-prune p t [] = omega arith
count-prune p t (row ∷ rows) = ground (arith, count-prune p t rows)

count-absent :
    (k : ℕ) (rows : List Dispatch)
    → any (λ row. row.dispatch_key == k) rows ≡ false
    → count (λ row. row.dispatch_key == k) rows ≡ 0
count-absent k [] h = refl
count-absent k (row ∷ rows) h = ground (arith, count-absent k rows)

-- An admission counts its key once: the window holds at most one row more than the rows of other
-- keys that it held before.
pub count-reserve_dispatch :
    (rows : List Dispatch) (catalog_id since key now : ℕ)
    → KeysUnique rows
    → count (in_window_of catalog_id since) (reserve_dispatch rows catalog_id key now)
      ≤ suc (count (in_window catalog_id since key) rows)
unfolding reserve_dispatch
count-reserve_dispatch rows catalog_id since key now u = ground (
  arith,
  u key,
  count-split catalog_id since key (prune now rows),
  count-prune (in_window catalog_id since key) now rows,
  count-prune (λ row. row.dispatch_key == key) now rows,
  count-absent key (prune now rows),
)

-- The ledger never holds a key twice.
pub reserve_dispatch-KeysUnique :
    (rows : List Dispatch) (catalog_id key now : ℕ)
    → KeysUnique rows
    → KeysUnique (reserve_dispatch rows catalog_id key now)
unfolding reserve_dispatch
reserve_dispatch-KeysUnique rows catalog_id key now u k = ground (
  arith,
  u k,
  count-prune (λ row. row.dispatch_key == k) now rows,
  count-absent k (prune now rows),
)
