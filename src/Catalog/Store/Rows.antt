-- ===== src/Catalog/Store/Rows.antt =====
-- repos.py, `get`, `get_by_key` and the flush of a changed row.
use autohub.Base.{
  ℕ, ◌≤◌, ◌≡◌, refl, Bool, true, false, some, List, [], ◌∷◌, arith, ◌==◌, first, first_sat, count,
  ==_refl, Bool-cases, inl, inr,
}
use autohub.Catalog.Model.{AiCatalog}
use autohub.Catalog.Store.{Store, put, get_catalog, get_by_key, put_catalog}

-- `id` is the primary key of the table.
abbrev pub IdsUnique : List AiCatalog → Type 0
IdsUnique rows = (id : ℕ) → count (λ c. c.id == id) rows ≤ 1

count-first :
    (p : AiCatalog → Bool) (rows : List AiCatalog) (c : AiCatalog)
    → first p rows ≡ some c
    → 1 ≤ count (λ d. d.id == c.id) rows
count-first p [] c h = ground arith
count-first p (d ∷ rows) c h = elim (Bool-cases (p d)) [
  | inl here ↦
      let same : d ≡ c = some_inj (rw here at h) in rw same (rw (==_refl c.id) (omega arith))
  | inr there ↦
      let ih : 1 ≤ count (λ e. e.id == c.id) rows = count-first p rows c (rw there at h) in
      ground arith
]
  where
    some_inj : {a b : AiCatalog} → some a ≡ some b → a ≡ b
    some_inj e = cc

count-put :
    (c : AiCatalog) (id : ℕ) (rows : List AiCatalog)
    → count (λ d. d.id == id) (put c rows) ≡ count (λ d. d.id == id) rows
count-put c id [] = refl
count-put c id (d ∷ rows) = ground (arith, count-put c id rows)

-- A flush changes no identifier.
pub put_catalog-IdsUnique :
    (s : Store) (c : AiCatalog) → IdsUnique s.catalogs → IdsUnique (put_catalog s c).catalogs
unfolding put_catalog
put_catalog-IdsUnique s c u id = omega (arith, count-put c id s.catalogs, u id)

-- A test that the changed row passes, and that found its old row, finds the changed row.
first-put :
    (p : AiCatalog → Bool) (c c' : AiCatalog) (rows : List AiCatalog)
    → ((id : ℕ) → count (λ d. d.id == id) rows ≤ 1)
    → first p rows ≡ some c
    → c'.id ≡ c.id
    → p c' ≡ true
    → first p (put c' rows) ≡ some c'
first-put p c c' [] u h same passes = ground arith
first-put p c c' (d ∷ rows) u h same passes = elim (Bool-cases (p d)) [
  | inl here ↦
      let found : d ≡ c = some_inj (rw here at h) in
      let test : (d.id == c'.id) ≡ true = rw (found, same) (==_refl c.id) in
      rw test (rw passes refl)
  | inr there ↦
      let h' : first p rows ≡ some c = rw there at h in
      let test : (d.id == c'.id) ≡ false = ground (arith, u c.id, count-first p rows c h') in
      let ih = first-put p c c' rows (λ id. tail_le id) h' same passes in rw test (rw there ih)
]
  where
    some_inj : {a b : AiCatalog} → some a ≡ some b → a ≡ b
    some_inj e = cc

    tail_le : (id : ℕ) → count (λ d. d.id == id) rows ≤ 1
    tail_le id = ground (arith, u id)

pub get_by_key-key : (s : Store) (key : ℕ) (c : AiCatalog) → get_by_key s key ≡ some c → c.key ≡ key
unfolding get_by_key
get_by_key-key s key c h = ground (arith, first_sat (λ d. d.key == key) s.catalogs c h)

pub get_catalog-id : (s : Store) (id : ℕ) (c : AiCatalog) → get_catalog s id ≡ some c → c.id ≡ id
unfolding get_catalog
get_catalog-id s id c h = ground (arith, first_sat (λ d. d.id == id) s.catalogs c h)

module _ (s : Store) (c c' : AiCatalog) (u : IdsUnique s.catalogs) (same_id : c'.id ≡ c.id) where
  pub get_by_key-put_catalog :
      (key : ℕ)
      → get_by_key s key ≡ some c
      → c'.key ≡ c.key
      → get_by_key (put_catalog s c') key ≡ some c'
  unfolding put_catalog
  get_by_key-put_catalog key h same_key =
      let at_key = get_by_key-key s key c h in
      unfold get_by_key in
      first-put (λ d. d.key == key) c c' s.catalogs u h same_id
        (rw (same_key, at_key) (==_refl key))

  pub get_catalog-put_catalog :
      (id : ℕ) → get_catalog s id ≡ some c → get_catalog (put_catalog s c') id ≡ some c'
  unfolding put_catalog
  get_catalog-put_catalog id h =
      let at_id = get_catalog-id s id c h in
      unfold get_catalog in
      first-put (λ d. d.id == id) c c' s.catalogs u h same_id (rw (same_id, at_id) (==_refl id))
