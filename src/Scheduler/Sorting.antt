-- ===== src/Scheduler/Sorting.antt =====
-- internal/scheduler/graph.go: TopologicalSort.
pub mod Drained
pub mod Rounds
pub mod Sorted
pub mod Synced
pub mod Tables
use m_aistr.Prelude.{
  ℕ, zero, suc, ◌+◌, ◌-◌, ◌==◌, String, str_eq, Bool, true, false, not, ◌&&◌, Option, none, some,
  List, [], ◌∷◌, ◌++◌, length, is_empty, sort_by, if◌then◌else◌,
}
use m_aistr.Prelude.Text.{trim_space, str_lt}
use m_aistr.Prelude.Dict.{Dict, get, get_or, put}
use m_aistr.Scheduler.Model.{Subtask}
use m_aistr.Scheduler.Graph.{
  Edge, TaskGraph, GraphError, dependency_cycle, contains_string, dependencies, add_edge,
}
use m_aistr.Scheduler.Validation.{Validity, valid, stuck, invalid, validate}

unique_from : List String → List String → List String
unique_from seen [] = []
unique_from seen (v ∷ vs) =
    let value = trim_space v in
    let added = unique_from (value ∷ seen) vs in
    let rest = unique_from seen vs in
    if not (is_empty value) && not (contains_string seen value) then value ∷ added else rest

unfoldable pub unique_strings : List String → List String
unfolding unique_from
unique_strings vs = unique_from [] vs

-- Every entry of a node's own list becomes an edge; errors are ignored.
unfoldable pub add_all : String → List String → TaskGraph → TaskGraph
add_all id [] g = g
add_all id (d ∷ ds) g = add_all id ds (add_edge d id g).0

unfoldable pub sync_nodes : Dict Subtask → TaskGraph → TaskGraph
sync_nodes [] g = g
sync_nodes ((id, node) ∷ nodes) g = sync_nodes nodes (add_all id node.depends_on g)

unfoldable pub sync_edges : TaskGraph → TaskGraph
unfolding add_all sync_nodes
sync_edges g = sync_nodes g.nodes g

-- The map `inDegree`: 0 for each node, and one more for each edge that leads to it.
unfoldable pub zero_degrees : Dict Subtask → Dict ℕ → Dict ℕ
zero_degrees [] d = d
zero_degrees ((id, node) ∷ nodes) d = zero_degrees nodes (put id 0 d)

unfoldable pub count_edges : List Edge → Dict ℕ → Dict ℕ
count_edges [] d = d
count_edges (e ∷ es) d = count_edges es (put e.target (get_or 0 e.target d + 1) d)

unfoldable pub degrees : TaskGraph → Dict ℕ
unfolding zero_degrees count_edges
degrees g = count_edges g.edges (zero_degrees g.nodes [])

unfoldable pub collect_dependents : List Edge → Dict (List String) → Dict (List String)
collect_dependents [] d = d
collect_dependents (e ∷ es) d =
    collect_dependents es (put e.source (get_or [] e.source d ++ e.target ∷ []) d)

unfoldable pub dependents : TaskGraph → Dict (List String)
unfolding collect_dependents
dependents g = collect_dependents g.edges []

unfoldable pub without_degree : Dict ℕ → List String
without_degree [] = []
without_degree ((id, n) ∷ d) = let rest = without_degree d in if n == 0 then id ∷ rest else rest

-- One round's loop over the dependents. A degree that is 0 already would turn negative, and no
-- decrement would make it 0 again: it stays 0 here, and nothing is queued.
unfoldable pub release : List String → Dict ℕ → List String → Dict ℕ × List String
release [] d queue = (d, queue)
release (id ∷ ids) d queue =
    let n = get_or 0 id d in
    let d' = put id (n - 1) d in
    let sooner = release ids d' (sort_by str_lt (queue ++ id ∷ [])) in
    let later = release ids d' queue in if n == 1 then sooner else later

abbrev empty_subtask : Subtask
empty_subtask = record {
  id = "";
  description = "";
  role = "";
  task_type = "";
  tags = [];
  depends_on = [];
  expected_output = "";
  output_format = "";
  required_fields = [];
  max_retries = 0;
  required_capabilities = [];
  preferred_capabilities = [];
  min_model_size_gb = 0;
  preferred_model = "";
  routing_preference = "";
  synthesis = false;
}

-- `DependsOn` of a sorted node follows the edges.
unfoldable pub sorted_node : TaskGraph → String → Subtask
sorted_node g id = record (get_or empty_subtask id g.nodes) {
  depends_on = sort_by str_lt (unique_strings (dependencies g id));
}

unfoldable pub prepend : Subtask → Option (List Subtask) → Option (List Subtask)
prepend node none = none
prepend node (some rest) = some (node ∷ rest)

-- The loop over the queue; none where it runs out of fuel.
unfoldable pub drain : TaskGraph → ℕ → List String → Dict ℕ → Option (List Subtask)
unfolding prepend
drain g fuel [] d = some []
drain g zero (id ∷ queue) d = none
drain g (suc fuel) (id ∷ queue) d =
    let (d', queue') = release (get_or [] id (dependents g)) d queue in
    prepend (sorted_node g id) (drain g fuel queue' d')

pub data Sorting : Type 0 where
  sorted : List Subtask → Sorting
  unsorted : GraphError → Sorting
  out_of_fuel : Sorting

unfoldable pub complete : ℕ → Option (List Subtask) → Sorting
complete count none = out_of_fuel
complete count (some result) =
    if length result == count then sorted result else unsorted dependency_cycle

-- The loops behind the validation. The fuel is the number of queued ids and of edges.
unfoldable pub sort_synced : TaskGraph → Sorting
unfolding drain without_degree complete
sort_synced g =
    let queue = sort_by str_lt (without_degree (degrees g)) in
    complete (length g.nodes) (drain g (length queue + length g.edges) queue (degrees g))

unfoldable pub sort_valid : TaskGraph → Validity → TaskGraph × Sorting
unfolding sync_edges sort_synced
sort_valid g valid = let g' = sync_edges g in (g', sort_synced g')
sort_valid g stuck = (g, out_of_fuel)
sort_valid g (invalid e) = (g, unsorted e)

-- TopologicalSort, which also leaves the edges of the nodes' own lists in the graph.
unfoldable pub topological_sort : TaskGraph → TaskGraph × Sorting
unfolding sort_valid
topological_sort g = sort_valid g (validate g)
