-- ===== src/Sdd/Batch.antt =====
-- sdd/batch_policy.py, `ordered_selection`: which members of a milestone one batch runs, and in which
-- order. Document ids are numbers, in the order of the ids' texts; paths and other texts too.
pub mod Order
pub mod Cycle
pub mod Selection
pub mod Accepted
use autohub.Base.{
  ℕ, zero, suc, Bool, true, false, not, ◌&&◌, ◌||◌, Option, none, some, List, [], ◌∷◌,
  if◌then◌else◌, ◌==◌, ◌++◌, ltb, leb, select, any, all, count, length, map, Result, ok, raise,
  raise_if, require, project_error, ◌>>=◌, ◌>>◌, is_some, opt_is,
}

-- LIMITS of milestone_graph.py.
abbrev pub member_limit : ℕ
member_limit = 50

abbrev pub anchor_limit : ℕ
anchor_limit = 200

abbrev pub edge_limit : ℕ
edge_limit = 500

pub data MilestoneStatus : Type 0 where
  done dropped : MilestoneStatus
  other_status : ℕ → MilestoneStatus

pub data Eligibility : Type 0 where
  eligible_now held : Eligibility
  other_eligibility : ℕ → Eligibility

-- A row of `preview["members"]`: `admission_passed` for `admission == "pass"`, `scheduling_held` for
-- `scheduling == "held"`, `branch_exists` for "SDD_BRANCH_EXISTS" among the reasons, and the truth
-- of each value of `workflow_hold`.
pub record Member : Type 0 where
  pub id : ℕ
  pub path : ℕ
  pub activity_kind : ℕ
  pub admission_passed : Bool
  pub eligibility : Eligibility
  pub scheduling_held : Bool
  pub branch_exists : Bool
  pub workflow_hold : List Bool

pub record Edge : Type 0 where
  pub source : ℕ
  pub canonical_id : Option ℕ

-- A count that is missing is 0.
pub record Preview : Type 0 where
  pub milestone_status : Option MilestoneStatus
  pub complete : Bool
  pub member_count : ℕ
  pub anchor_count : ℕ
  pub edge_count : ℕ
  pub members : List Member
  pub edges : List Edge

pub record Requested : Type 0 where
  pub id : ℕ
  pub path : ℕ
  pub activity : ℕ

-- `{**row, "preferences": value}`.
pub record Selected : Type 0 where
  pub row : Member
  pub preferences : Requested

-- What pathlib's PurePosixPath and the text itself answer on a path; `is_exact` is `str(path) == value`.
pub record PathView : Type 0 where
  pub is_empty : Bool
  pub is_absolute : Bool
  pub has_parent_part : Bool
  pub has_backslash : Bool
  pub is_exact : Bool

abbrev pub mem : ℕ → List ℕ → Bool
mem k ks = any (λ j. j == k) ks

abbrev pub is_finished : Option MilestoneStatus → Bool
is_finished (some done) = true
is_finished (some dropped) = true
is_finished _ = false

abbrev pub exceeds_limits : Preview → Bool
exceeds_limits p =
    ltb member_limit p.member_count
    || (ltb anchor_limit p.anchor_count || ltb edge_limit p.edge_count)

-- `len({...}) == len(...)`.
abbrev pub distinct : List ℕ → Bool
distinct [] = true
distinct (k ∷ ks) = not (mem k ks) && distinct ks

-- `{r["id"]: r for r in members}` and its lookup: the last row of an id counts.
abbrev pub available : ℕ → List Member → Option Member
available id [] = none
available id (m ∷ ms) =
    let rest = available id ms in
    elim rest [ some later ↦ some later | none ↦ if m.id == id then some m else none ]

abbrev pub may_run : Eligibility → (scheduling_held : Bool) → Bool
may_run eligible_now scheduling_held = true
may_run held scheduling_held = scheduling_held
may_run (other_eligibility _) scheduling_held = false

abbrev pub is_supported : Member → Requested → Bool
is_supported row value =
    row.path == value.path
    && (row.activity_kind == value.activity
        && (row.admission_passed
            && (may_run row.eligibility row.scheduling_held
                && (not row.branch_exists && not (any (λ held. held) row.workflow_hold)))))

abbrev pub supported : Option Member → Requested → Result Selected
supported none value =
    raise (project_error 422 "Selection contains an unsupported or workflow-held member")
supported (some row) value =
    if is_supported row value
    then ok (record { row = row; preferences = value })
    else raise (project_error 422 "Selection contains an unsupported or workflow-held member")

-- The keys that `graph[key]` holds, where `selected` are the graph's keys.
abbrev pub is_edge : (selected : List ℕ) → ℕ → ℕ → Edge → Bool
is_edge selected key k e =
    e.source == key && (mem key selected && (opt_is e.canonical_id k && mem k selected))

abbrev pub depends : (selected : List ℕ) → List Edge → ℕ → ℕ → Bool
depends selected edges key k = any (is_edge selected key k) edges

-- `graph[key] & remaining` is not empty.
abbrev pub is_blocked : (selected : List ℕ) → List Edge → ℕ → List ℕ → Bool
is_blocked selected edges key remaining = any (depends selected edges key) remaining

-- The first key that passes in `sorted(keys)`.
abbrev pub lesser : ℕ → Option ℕ → Option ℕ
lesser k none = some k
lesser k (some j) = if leb k j then some k else some j

abbrev pub least : (ℕ → Bool) → List ℕ → Option ℕ
least p [] = none
least p (k ∷ ks) = let rest = least p ks in if p k then lesser k rest else rest

abbrev pub remove : ℕ → List ℕ → List ℕ
remove k ks = select (λ j. not (j == k)) ks

-- The loop `while remaining`, on fuel. `Cycle.drain_enough` gives it the fuel it needs.
unfoldable pub drain : (selected : List ℕ) → List Edge → ℕ → List ℕ → Result (List ℕ)
drain selected edges fuel [] = ok []
drain selected edges zero (r ∷ rs) = raise (project_error 500 "out of fuel")
drain selected edges (suc fuel) (r ∷ rs) = do
  key ←
      require (least (λ key. not (is_blocked selected edges key (r ∷ rs))) (r ∷ rs)) 422
        "Selected members have a dependency cycle"
  rest ← drain selected edges fuel (remove key (r ∷ rs))
  ok (key ∷ rest)

-- `selected[key] for key in order`.
abbrev pub selected_by : List Selected → ℕ → List Selected
selected_by [] key = []
selected_by (s ∷ ss) key =
    let rest = selected_by ss key in if s.preferences.id == key then s ∷ [] else rest

abbrev pub selected_in : List Selected → List ℕ → List Selected
selected_in ss [] = []
selected_in ss (key ∷ keys) = selected_by ss key ++ selected_in ss keys

module _ (pathlib : ℕ → PathView) where
  -- `safe_path` of milestone_graph.py.
  abbrev pub is_safe : PathView → Bool
  is_safe v =
      not v.is_empty
      && (not v.is_absolute && (not v.has_parent_part && (not v.has_backslash && v.is_exact)))

  abbrev pub safe_path : ℕ → Result (Unit {0})
  safe_path value =
      raise_if (not (is_safe (pathlib value))) 422 "Use an exact repository-relative document path"

  -- The loop over the requested members.
  unfoldable pub select_members : List Member → List Requested → Result (List Selected)
  select_members members [] = ok []
  select_members members (value ∷ values) =
      safe_path value.path
      >> (supported (available value.id members) value >>= λ s.
          select_members members values >>= λ rest. ok (s ∷ rest))

  unfoldable pub ordered_selection : Preview → List Requested → Result (List Selected)
  ordered_selection preview requested = do
    raise_if (is_finished preview.milestone_status) 422 "Finished milestones are inspection only"
    raise_if (not preview.complete || exceeds_limits preview) 422
        "Complete bounded milestone evidence is required"
    let ids = map (λ r. r.id) requested
    raise_if
        (not (leb 1 (length requested) && leb (length requested) member_limit)
          || not (distinct ids))
        422 "Select one to fifty distinct direct members"
    selected ← select_members preview.members requested
    order ← drain ids preview.edges (length ids) ids
    ok (selected_in selected order)
