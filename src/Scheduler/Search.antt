-- ===== src/Scheduler/Search.antt =====
-- internal/scheduler/graph.go and decompose.go: the depth-first search with three colours that
-- Validate and ValidatePlan look for a cycle with. `prerequisites` gives the ids that a visit of an
-- id goes on to.
pub mod Cycle
pub mod Ending
pub mod Order
use m_aistr.Prelude.{ℕ, zero, suc, ◌==◌, String, Bool, true, false, List, [], ◌∷◌, if◌then◌else◌}
use m_aistr.Prelude.Dict.{Dict, get, get_or, put}

-- 0 is unvisited, 1 is being visited, 2 is visited.
abbrev pub Colors : Type 0
Colors = Dict ℕ

abbrev pub color : String → Colors → ℕ
color id c = get_or 0 id c

pub data Visit : Type 0 where
  visited : Colors → Visit
  cycle : String → Visit
  out_of_fuel : Visit

-- The loop over ids that ends at the first error.
unfoldable pub visit_all : (String → Colors → Visit) → List String → Colors → Visit
visit_all v [] c = visited c
visit_all v (id ∷ ids) c = elim (v id c) [
  | visited c' ↦ visit_all v ids c'
  | cycle at ↦ cycle at
  | out_of_fuel ↦ out_of_fuel
]

finish : String → Visit → Visit
finish id (visited c) = visited (put id 2 c)
finish id (cycle at) = cycle at
finish id out_of_fuel = out_of_fuel

module _ (prerequisites : String → List String) where
  unfoldable pub visit : ℕ → String → Colors → Visit
  unfolding finish visit_all
  visit zero id c = out_of_fuel
  visit (suc fuel) id c =
      let inner = visit_all (visit fuel) (prerequisites id) (put id 1 c) in
      if color id c == 1 then cycle id else if color id c == 2 then visited c else finish id inner

  -- The loop over the nodes, which visits those that no visit has reached yet.
  unfoldable pub search : ℕ → List String → Colors → Visit
  unfolding visit
  search fuel [] c = visited c
  search fuel (id ∷ ids) c = elim (if color id c == 0 then visit fuel id c else visited c) [
    | visited c' ↦ search fuel ids c'
    | cycle at ↦ cycle at
    | out_of_fuel ↦ out_of_fuel
  ]
