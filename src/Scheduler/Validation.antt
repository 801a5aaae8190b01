-- ===== src/Scheduler/Validation.antt =====
-- internal/scheduler/graph.go: Validate, which a graph passes before it is used. A range over the
-- map of nodes takes them in the order of the list; of several errors Go may report another one.
pub mod Checks
pub mod Verdict
use m_aistr.Prelude.{
  ℕ, suc, ◌==◌, ltb, String, str_eq, Bool, true, false, not, Option, none, some, List, [], ◌∷◌,
  ◌++◌, length, if◌then◌else◌,
}
use m_aistr.Prelude.Dict.{Dict, get, has}
use m_aistr.Prelude.Occurrences.{keys}
use m_aistr.Scheduler.Model.{Subtask}
use m_aistr.Scheduler.Graph.{
  Edge, TaskGraph, GraphError, self_dependency, no_subtasks, too_many_subtasks,
  unknown_prerequisite, unknown_dependent, unknown_subtask, dependency_cycle_at, dependencies,
}
use m_aistr.Scheduler.Search.{Visit, visited, cycle, out_of_fuel, search}

-- `stuck` stands for a search that runs out of fuel.
pub data Validity : Type 0 where
  valid stuck : Validity
  invalid : GraphError → Validity

unfoldable pub check_edges : Dict Subtask → List Edge → Option GraphError
check_edges nodes [] = none
check_edges nodes (e ∷ es) =
    let rest = check_edges nodes es in
    if str_eq e.source e.target
    then some (self_dependency e.source)
    else if not (has e.source nodes)
    then some (unknown_prerequisite e.source)
    else if not (has e.target nodes)
    then some (unknown_dependent e.target)
    else rest

unfoldable pub check_names : Dict Subtask → String → List String → Option GraphError
check_names nodes id [] = none
check_names nodes id (d ∷ ds) =
    let rest = check_names nodes id ds in
    if str_eq d id
    then some (self_dependency id)
    else if not (has d nodes)
    then some (unknown_subtask id d)
    else rest

-- The loop over `checked`, a part of the nodes.
unfoldable pub check_depends_on : Dict Subtask → Dict Subtask → Option GraphError
unfolding check_names
check_depends_on nodes [] = none
check_depends_on nodes ((id, node) ∷ checked) = elim (check_names nodes id node.depends_on) [
  | some e ↦ some e
  | none ↦ check_depends_on nodes checked
]

unfoldable pub depends_on_of : Option Subtask → List String
depends_on_of none = []
depends_on_of (some node) = node.depends_on

-- The ids that `visit` goes on to: those of the edges, then those of the node's own list.
unfoldable pub prerequisites : TaskGraph → String → List String
unfolding depends_on_of
prerequisites g id = dependencies g id ++ depends_on_of (get id g.nodes)

unfoldable pub verdict : Visit → Validity
verdict (visited c) = valid
verdict (cycle at) = invalid (dependency_cycle_at at)
verdict out_of_fuel = stuck

unfoldable pub refuse : Option GraphError → Validity → Validity
refuse none v = v
refuse (some e) v = invalid e

-- Validate. The fuel is one unit more than there are nodes.
unfoldable pub validate : TaskGraph → Validity
unfolding check_edges check_depends_on verdict refuse
validate g =
    if length g.nodes == 0
    then invalid no_subtasks
    else if ltb 64 (length g.nodes)
    then invalid too_many_subtasks
    else refuse (check_edges g.nodes g.edges) (
        refuse (check_depends_on g.nodes g.nodes)
          (verdict (search (prerequisites g) (suc (length g.nodes)) (keys g.nodes) [])))
