-- ===== src/Tests/Advance.antt =====
-- The advancement loop on a lifecycle whose runs are planned, delivered and then at work, and the
-- choice of a catalog.
use autohub.Base.{
  ℕ, ◌≡◌, refl, true, false, Option, some, none, List, [], ◌∷◌, ◌++◌, if◌then◌else◌, ◌==◌,
}
use autohub.Run.Model.{queued, dispatching, implementing}
use autohub.Run.Advance.{
  RunView, returned, Lifecycle, Action, prepared, delivered, observed_pull, released,
  advance_until_wait, advance_max_steps, steps,
}
use autohub.Run.Advance.Bounds
use autohub.Run.Advance.Bounds.{IsBounded}
use autohub.Run.Advance.Timing
use autohub.Run.Advance.Timing.{IsTimely, IsTimelyFirst}
use autohub.Catalog.Model.{codex_config, known, codex, KindText}
use autohub.Catalog.Store.{get_by_key, get_catalog}
use autohub.Run.Catalogs.{
  Defaults, resolve_catalog, project_catalog, list_by_kind, supports_pipeline_delivery,
}
use autohub.Run.Catalogs.Choice
use autohub.Run.Catalogs.Choice.{IsDesignated}
use autohub.Tests.Catalog.{plan, fresh_codex, store_of}

program : Unit {0}
unfolding advance_until_wait steps resolve_catalog project_catalog list_by_kind get_by_key
    get_catalog
program = tt

-- The stage of the one run: 0 queued, 1 dispatching, otherwise implementing.
abbrev view : (next : Option ℕ) → ℕ → RunView
view next stage = record {
  state = if stage == 0 then queued else if stage == 1 then dispatching else implementing;
  revision = stage;
  next_action_at = next;
  waiting_for_approval = false;
  stage_id = none;
  has_approval = false;
  integrated = none;
  head_sha = none;
  base_sha = none;
}

abbrev life : (next : Option ℕ) → Lifecycle ℕ
life next = record {
  clock = λ w. 100;
  acquire_lease = λ w. (w, returned 7);
  get = λ w. (w, returned (view next w));
  prepare_implementation = λ w token revision. (1, returned tt);
  dispatch_implementation = λ w token. (2, returned (view next 2));
  observe_run = λ w token. (w, returned (view next w));
  release_lease = λ w token. (w, returned tt);
}

advance_until_wait-IsBounded_example :
    (calls : List Action) × ((advance_until_wait (life none) true 0).actions
      ≡ calls ++ released ∷ [])
    × IsBounded advance_max_steps calls
advance_until_wait-IsBounded_example =
    Bounds.advance_until_wait-IsBounded (life none) true 0 0 7 refl

timely_calls :
    (advance_until_wait (life none) true 0).actions
    ≡ prepared (view none 0) 100 ∷ delivered (view none 1) 100 ∷ released ∷ []
unfolding program
timely_calls = refl

early_calls : (advance_until_wait (life (some 200)) false 0).actions ≡ released ∷ []
unfolding program
early_calls = refl

early_observation :
    (advance_until_wait (life (some 200)) false 2).actions
    ≡ observed_pull (view (some 200) 2) 100 ∷ released ∷ []
unfolding program
early_observation = refl

advance_until_wait-IsTimely_example :
    IsTimely
      (IsTimelyFirst false)
      (prepared (view none 0) 100 ∷ delivered (view none 1) 100 ∷ released ∷ [])
unfolding program
advance_until_wait-IsTimely_example = Timing.advance_until_wait-IsTimely (life none) false 0

abbrev defaults : Defaults
defaults = record {
  personal_codex = 50;
  personal_codex_name = 51;
  policy_config = codex_config plan;
}

abbrev lower : ℕ → KindText
lower _ = known codex

resolve_catalog-IsDesignated_example :
    (store_of fresh_codex [] ≡ store_of fresh_codex [])
    × (fresh_codex.enabled ≡ true)
    × (supports_pipeline_delivery fresh_codex.adapter ≡ true)
    × IsDesignated lower (store_of fresh_codex []) 99 fresh_codex
unfolding program
resolve_catalog-IsDesignated_example =
    Choice.resolve_catalog-IsDesignated defaults lower (store_of fresh_codex []) none 99 5
      (store_of fresh_codex [], fresh_codex) refl
