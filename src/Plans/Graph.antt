-- ===== src/Plans/Graph.antt =====
-- work_plans/schemas.py, `validate_graph`: dictionaries from keys to the keys that they depend on.
-- UUIDs and item keys are numbers; a ValueError has the status 422, with which the services answer.
pub mod Order
pub mod Accepted
pub mod Verdict
use autohub.Base.{
  ℕ, zero, suc, Bool, true, false, not, ◌&&◌, List, [], ◌∷◌, Result, ok, raise, raise_if,
  project_error, ◌>>◌, if◌then◌else◌, ◌==◌, any, select, length, map,
}

abbrev pub Node : Type 0
Node = ℕ × List ℕ

abbrev pub has : ℕ → List ℕ → Bool
has key keys = any (λ k. k == key) keys

abbrev pub keys : List Node → List ℕ
keys [] = []
keys ((key, parents) ∷ rest) = key ∷ keys rest

abbrev pub is_empty : List ℕ → Bool
is_empty [] = true
is_empty (p ∷ ps) = false

-- `{key for key, parents in remaining.items() if not parents}`.
abbrev pub ready_keys : List Node → List ℕ
ready_keys [] = []
ready_keys ((key, parents) ∷ rest) =
    let later = ready_keys rest in if is_empty parents then key ∷ later else later

-- `parents - ready`.
abbrev pub minus : List ℕ → List ℕ → List ℕ
minus parents ready = select (λ p. not (has p ready)) parents

-- `{key: parents - ready for key, parents in remaining.items() if key not in ready}`.
abbrev pub strip : List ℕ → List Node → List Node
strip ready [] = []
strip ready ((key, parents) ∷ rest) =
    let later = strip ready rest in
    if has key ready then later else (key, minus parents ready) ∷ later

-- A parent that is no key.
abbrev pub is_dangling : List ℕ → Node → Bool
is_dangling known (key, parents) = any (λ p. not (has p known)) parents

-- The loop `while remaining`.
abbrev pub rounds : ℕ → List Node → Result (Unit {0})
rounds fuel [] = ok tt
rounds zero (n ∷ ns) = raise (project_error 500 "out of fuel")
rounds (suc fuel) (n ∷ ns) =
    let ready = ready_keys (n ∷ ns) in
    let later = rounds fuel (strip ready (n ∷ ns)) in
    if is_empty ready
    then raise (project_error 422 "Dependencies must not contain cycles or self references")
    else later

unfoldable pub validate_graph : List Node → Result (Unit {0})
validate_graph graph =
    raise_if (any (is_dangling (keys graph)) graph) 422
      "Dependency target does not exist in this scope"
    >> rounds (length graph) graph
