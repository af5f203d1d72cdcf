-- ===== src/Run/Catalogs/Choice.antt =====
-- usecases/catalogs.py: what a designation may resolve to.
use autohub.Base.{
  ℕ, ◌≡◌, refl, Bool, true, false, not, ◌⊎◌, Option, none, some, List, [], ◌∷◌, ok, select,
  bind_returned, raise_if_passed, ok_injective, Option-cases, inl, inr, subst, ap, ◌∙◌, arith,
}
use autohub.Catalog.Model.{AiCatalog, KindText}
use autohub.Catalog.Store.{Store, get_by_key}
use autohub.Run.Catalogs.{
  Defaults, resolve_catalog, designated, only, list_by_kind, supports_pipeline_delivery,
}

only_ok : (cs : List AiCatalog) (c : AiCatalog) → only cs ≡ ok c → cs ≡ c ∷ []
only_ok [] c h = cc
only_ok (d ∷ []) c h = ap (λ x. x ∷ []) (ok_injective h)
only_ok (_ ∷ _ ∷ _) c h = cc

-- The row of a designation: the one with that key, or the only enabled row of that kind where no row
-- has the key.
abbrev pub IsDesignated : (lower : ℕ → KindText) → Store → ℕ → AiCatalog → Type 0
IsDesignated lower s designation c =
    (get_by_key s designation ≡ some c)
    ⊎ ((get_by_key s designation ≡ none)
        × (select (λ d. d.enabled) (list_by_kind s (lower designation)) ≡ c ∷ []))

designated_ok :
    (defaults : Defaults) (lower : ℕ → KindText) (s : Store) (designation : ℕ) (c : AiCatalog)
    → designated defaults lower s designation (get_by_key s designation) ≡ ok c
    → IsDesignated lower s designation c
designated_ok defaults lower s designation c h = elim (Option-cases (get_by_key s designation)) [
  | inl gone ↦ inr (gone, only_ok _ c (rw gone at h))
  | inr (d, found) ↦ inl (found ∙ ap some (ok_injective (rw found at h)))
]

-- A designation that is accepted adds no row, and names an enabled catalog whose adapter delivers pull
-- request work: the one with that key, or else the only enabled one of that kind.
pub resolve_catalog-IsDesignated :
    (defaults : Defaults) (lower : ℕ → KindText) (s : Store) (selection : Option ℕ)
    (designation id : ℕ) (x : Store × AiCatalog)
    → resolve_catalog defaults lower s selection (some designation) id ≡ ok x
    → (x.0 ≡ s)
      × (x.1.enabled ≡ true)
      × (supports_pipeline_delivery x.1.adapter ≡ true)
      × IsDesignated lower s designation x.1
unfolding resolve_catalog
resolve_catalog-IsDesignated defaults lower s selection designation id x h =
    let (c, chosen, rest) =
      bind_returned (designated defaults lower s designation (get_by_key s designation)) _ h in
    let (on, rest1) = raise_if_passed (not c.enabled) _ _ _ rest in
    let (delivers, done) =
      raise_if_passed (not (supports_pipeline_delivery c.adapter)) _ _ _ rest1 in
    subst
      (λ y.
        (y.0 ≡ s)
        × (y.1.enabled ≡ true)
        × (supports_pipeline_delivery y.1.adapter ≡ true)
        × IsDesignated lower s designation y.1)
      (ok_injective done)
      (
        refl,
        not-false c.enabled on,
        not-false (supports_pipeline_delivery c.adapter) delivers,
        designated_ok defaults lower s designation c chosen,
      )
  where
    not-false : (b : Bool) → not b ≡ false → b ≡ true
    not-false b h = ground arith
