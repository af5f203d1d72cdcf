-- ===== src/Tests/Batch.antt =====
-- A batch of three members, where the first depends on the last.
use autohub.Base.{
  ℕ, ◌≡◌, ◌≤◌, ◌↔◌, refl, true, false, some, none, List, [], ◌∷◌, ◌⊎◌, ok, raise, project_error,
}
use autohub.Sdd.Batch.{
  Member, Edge, Preview, Requested, Selected, PathView, mem, eligible_now, ordered_selection, drain,
  select_members, is_finished, member_limit,
}
use autohub.Sdd.Batch.Cycle
use autohub.Sdd.Batch.Cycle.{IsStuck}
use autohub.Sdd.Batch.Order.{IsOrdered}
use autohub.Sdd.Batch.Accepted
use autohub.Sdd.Batch.Accepted.{IsBatch}

program : Unit {0}
unfolding ordered_selection drain select_members
program = tt

abbrev paths : ℕ → PathView
paths _ = record {
  is_empty = false;
  is_absolute = false;
  has_parent_part = false;
  has_backslash = false;
  is_exact = true;
}

abbrev member : ℕ → Member
member id = record {
  id = id;
  path = id;
  activity_kind = 1;
  admission_passed = true;
  eligibility = eligible_now;
  scheduling_held = false;
  branch_exists = false;
  workflow_hold = false ∷ [];
}

abbrev wanted : ℕ → Requested
wanted id = record { id = id; path = id; activity = 1 }

abbrev edges : List Edge
edges =
    record { source = 1; canonical_id = some 3 } ∷ record { source = 3; canonical_id = some 9 } ∷ []

abbrev preview : Preview
preview = record {
  milestone_status = none;
  complete = true;
  member_count = 3;
  anchor_count = 4;
  edge_count = 2;
  members = member 1 ∷ member 2 ∷ member 3 ∷ [];
  edges = edges;
}

abbrev chosen : ℕ → Selected
chosen id = record { row = member id; preferences = wanted id }

ordered_selection-IsBatch_example :
    (preview.complete ≡ true)
    × (is_finished preview.milestone_status ≡ false)
    × (1 ≤ 3)
    × (3 ≤ member_limit)
    × IsBatch paths preview
        (wanted 1 ∷ wanted 2 ∷ wanted 3 ∷ [])
        (chosen 2 ∷ chosen 3 ∷ chosen 1 ∷ [])
unfolding program
ordered_selection-IsBatch_example =
    Accepted.ordered_selection-IsBatch paths preview (wanted 1 ∷ wanted 2 ∷ wanted 3 ∷ [])
      (chosen 2 ∷ chosen 3 ∷ chosen 1 ∷ []) refl

abbrev circle : List Edge
circle =
    record { source = 1; canonical_id = some 2 } ∷ record { source = 2; canonical_id = some 1 } ∷ []

drain-cycle_example :
    (((order : List ℕ) × (drain (1 ∷ 2 ∷ 3 ∷ []) circle 3 (1 ∷ 2 ∷ 3 ∷ []) ≡ ok order)
        × IsOrdered (1 ∷ 2 ∷ 3 ∷ []) circle order
        × ((k : ℕ) → mem k order ≡ mem k (1 ∷ 2 ∷ 3 ∷ [])))
      ⊎ (drain (1 ∷ 2 ∷ 3 ∷ []) circle 3 (1 ∷ 2 ∷ 3 ∷ [])
          ≡ raise (project_error 422 "Selected members have a dependency cycle")))
    × ((drain (1 ∷ 2 ∷ 3 ∷ []) circle 3 (1 ∷ 2 ∷ 3 ∷ [])
          ≡ raise (project_error 422 "Selected members have a dependency cycle"))
        ↔ ((cycle : List ℕ) × IsStuck (1 ∷ 2 ∷ 3 ∷ []) circle (1 ∷ 2 ∷ 3 ∷ []) cycle))
drain-cycle_example = Cycle.drain-cycle (1 ∷ 2 ∷ 3 ∷ []) circle (1 ∷ 2 ∷ 3 ∷ [])

circle_found :
    drain (1 ∷ 2 ∷ 3 ∷ []) circle 3 (1 ∷ 2 ∷ 3 ∷ [])
    ≡ raise (project_error 422 "Selected members have a dependency cycle")
unfolding program
circle_found = refl
