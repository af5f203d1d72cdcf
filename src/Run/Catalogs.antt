-- ===== src/Run/Catalogs.antt =====
-- pipeline_runs/usecases/catalogs.py and adapters/capabilities.py: the catalog that delivers the work
-- of a run. `lower` is `str.lower` on a designation, read as a kind; `Defaults` are the two texts of the
-- seeded row and the settings that an empty JSON object reads as.
pub mod Choice
use autohub.Base.{
  ℕ, Bool, true, false, not, ◌&&◌, Option, none, some, List, [], ◌∷◌, Result, ok, raise, raise_if,
  require, project_error, ◌>>=◌, ◌>>◌, if◌then◌else◌, ◌==◌, select, first,
}
use autohub.Catalog.Model.{
  AiCatalog, AiCatalogKind, codex, jules, KindText, known, other_kind, Adapter,
  codex_github_mention, jules_api, normal, PolicyConfig, empty_state,
}
use autohub.Catalog.Store.{Store, get_catalog, get_by_key}
use autohub.Run.Model.{PipelineRun}

-- `supports_pipeline_delivery`.
abbrev pub supports_pipeline_delivery : Adapter → Bool
supports_pipeline_delivery codex_github_mention = true
supports_pipeline_delivery jules_api = false

abbrev pub same_kind : KindText → KindText → Bool
same_kind (known codex) (known codex) = true
same_kind (known jules) (known jules) = true
same_kind (other_kind a) (other_kind b) = a == b
same_kind _ _ = false

-- `list_by_kind`, with the rows in the order of their keys.
unfoldable pub list_by_kind : Store → KindText → List AiCatalog
list_by_kind s kind = select (λ c. same_kind c.kind kind) s.catalogs

pub record Defaults : Type 0 where
  pub personal_codex : ℕ
  pub personal_codex_name : ℕ
  pub policy_config : PolicyConfig

-- The row that `project_catalog` adds, with the id that the database gives it.
abbrev pub personal_codex_row : Defaults → (id : ℕ) → AiCatalog
personal_codex_row defaults id = record {
  id = id;
  key = defaults.personal_codex;
  name = defaults.personal_codex_name;
  kind = known codex;
  adapter = codex_github_mention;
  connector_id = none;
  enabled = true;
  availability_state = normal;
  available_at = none;
  availability_source = none;
  availability_updated_at = none;
  availability_note = none;
  configured_concurrency = 1;
  refresh_jitter_minutes = 10;
  policy_config = defaults.policy_config;
  policy_state = empty_state;
  revision = 1;
}

-- The only enabled row of a kind.
abbrev pub only : List AiCatalog → Result AiCatalog
only [] = raise (project_error 422 "No AI catalog is named or of kind")
only (c ∷ []) = ok c
only (_ ∷ _ ∷ _) = raise (project_error 422 "Designation matches several AI catalogs")

module _ (defaults : Defaults) (lower : ℕ → KindText) where
  abbrev pub seeded : Store → (id : ℕ) → Option AiCatalog → Store × AiCatalog
  seeded s id (some c) = (s, c)
  seeded s id none = (
    record s { catalogs = personal_codex_row defaults id ∷ s.catalogs },
    personal_codex_row defaults id,
  )

  -- `project_catalog`; `selection` is the project's `ai_catalog_id`, `id` a new id.
  unfoldable pub project_catalog :
      Store → (selection : Option ℕ) → (id : ℕ) → Result (Store × AiCatalog)
  project_catalog s (some chosen) id = do
    c ←
        require (get_catalog s chosen) 409
          "The project's AI catalog was removed; select another one"
    ok (s, c)
  project_catalog s none id = ok (seeded s id (get_by_key s defaults.personal_codex))

  abbrev pub designated : Store → ℕ → Option AiCatalog → Result AiCatalog
  designated s designation (some c) = ok c
  designated s designation none =
      only (select (λ c. c.enabled) (list_by_kind s (lower designation)))

  -- `resolve_catalog`.
  unfoldable pub resolve_catalog :
      Store → (selection designation : Option ℕ) → (id : ℕ) → Result (Store × AiCatalog)
  resolve_catalog s selection none id = project_catalog s selection id
  resolve_catalog s selection (some designation) id = do
    c ← designated s designation (get_by_key s designation)
    raise_if (not c.enabled) 422 "AI catalog is disabled"
    raise_if (not (supports_pipeline_delivery c.adapter)) 422
        "AI catalog cannot deliver pull request work"
    ok (s, c)

  abbrev pub usable : Option AiCatalog → Bool
  usable none = false
  usable (some c) = c.enabled && supports_pipeline_delivery c.adapter

  abbrev pub requested : Store → Option ℕ → Option AiCatalog
  requested s none = none
  requested s (some id) = get_catalog s id

  abbrev pub run_catalog_of :
      Store → (selection : Option ℕ) → (id : ℕ) → Option AiCatalog → Result (Store × AiCatalog)
  run_catalog_of s selection id none = project_catalog s selection id
  run_catalog_of s selection id (some c) =
      if usable (some c) then ok (s, c) else project_catalog s selection id

  -- `run_catalog`.
  unfoldable pub run_catalog :
      Store → (selection : Option ℕ) → PipelineRun → (id : ℕ) → Result (Store × AiCatalog)
  run_catalog s selection run id =
      run_catalog_of s selection id (requested s run.requested_catalog_id)
