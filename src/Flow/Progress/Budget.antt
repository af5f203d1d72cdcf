-- ===== src/Flow/Progress/Budget.antt =====
-- The budgets that the moves of the contract keep, whatever rows and workers implement them.
use autohub.Base.{ℕ, zero, suc, ◌≤◌, ◌≡◌, true, false, some, List, [], ◌∷◌, arith, get_elem?}
use autohub.Flow.Model.{StepSpec, task_step, approval_step}
use autohub.Flow.Runtime.{put_at}
use autohub.Flow.Progress.{
  Progress, Move, idle, starts, advances, returns, breaks, mends, finishes, stopping_moves, stops,
  stop_acknowledged, Moves, none_yet, then_moves,
}

abbrev pub try_limit : StepSpec → ℕ
try_limit (task_step s) = s.max_attempts
try_limit (approval_step s) = 0

abbrev pub rework_limit : StepSpec → ℕ
rework_limit (task_step s) = 0
rework_limit (approval_step s) = s.max_revisions

-- Each step has used at most its limit.
abbrev pub IsWithin : (StepSpec → ℕ) → List StepSpec → List ℕ → Type 0
IsWithin limit [] [] = Unit
IsWithin limit (s ∷ specs) (n ∷ ns) = (n ≤ limit s) × IsWithin limit specs ns
IsWithin limit _ _ = false ≡ true

put_at-IsWithin :
    (limit : StepSpec → ℕ) (specs : List StepSpec) (ns : List ℕ) (i n : ℕ) (s : StepSpec)
    → IsWithin limit specs ns
    → get_elem? specs i ≡ some s
    → n ≤ limit s
    → IsWithin limit specs (put_at i n ns)
put_at-IsWithin limit [] ns i n s h at_i le = cc
put_at-IsWithin limit (x ∷ specs) [] i n s h at_i le = h
put_at-IsWithin limit (x ∷ specs) (k ∷ ks) zero n s h at_i le = (ground (arith, at_i, le), h.1)
put_at-IsWithin limit (x ∷ specs) (k ∷ ks) (suc i) n s h at_i le =
    (h.0, put_at-IsWithin limit specs ks i n s h.1 at_i le)

abbrev pub IsAffordable : List StepSpec → Progress → Type 0
IsAffordable specs p = IsWithin try_limit specs p.tries × IsWithin rework_limit specs p.reworks

Move-IsAffordable :
    (specs : List StepSpec) (p q : Progress)
    → Move specs p q
    → IsAffordable specs p
    → IsAffordable specs q
Move-IsAffordable specs p q (idle e) h = rw e h
Move-IsAffordable specs p q (starts s n after at_p at_n lt ph live e) h = rw e (
  put_at-IsWithin try_limit specs p.tries p.position (suc n) (task_step s) h.0 at_p (omega arith),
  h.1,
)
Move-IsAffordable specs p q (advances ph lt e) h = rw e h
Move-IsAffordable specs p q (returns s id n target at_p to at_t lt at_n le ph e) h = rw e (
  h.0,
  put_at-IsWithin rework_limit specs p.reworks p.position (suc n) (approval_step s) h.1 at_p
      (omega arith),
)
Move-IsAffordable specs p q (breaks ph e) h = rw e h
Move-IsAffordable specs p q (mends ph e) h = rw e h
Move-IsAffordable specs p q (finishes ph lt e) h = rw e h
Move-IsAffordable specs p q (stopping_moves ph e) h = rw e h
Move-IsAffordable specs p q (stops ph e) h = rw e h
Move-IsAffordable specs p q (stop_acknowledged ph e) h = rw e h

pub Moves-IsAffordable :
    (specs : List StepSpec) (p q : Progress)
    → Moves specs p q
    → IsAffordable specs p
    → IsAffordable specs q
Moves-IsAffordable specs p q none_yet h = h
Moves-IsAffordable specs p q (then_moves {q = mid} first_moves move) h =
    Move-IsAffordable specs mid q move (Moves-IsAffordable specs p mid first_moves h)
