-- ===== src/Scheduler/Graph.antt =====
-- internal/scheduler/graph.go: the graph of a plan. A method that changes `*TaskGraph` returns the
-- new graph; `none` stands for a nil error.
use m_aistr.Prelude.{
  ℕ, String, Bool, not, ◌&&◌, Option, none, some, List, [], ◌∷◌, ◌++◌, length, any, all, select,
  sort_by, str_eq, is_empty, if◌then◌else◌,
}
use m_aistr.Prelude.Text.{trim_space, str_lt}
use m_aistr.Prelude.Dict.{Dict, get, put, has}
use m_aistr.Scheduler.Model.{Subtask}

pub record Edge : Type 0 where
  pub source : String  -- From
  pub target : String  -- To

pub record Group : Type 0 where
  pub id : String
  pub subtasks : List Subtask

pub record TaskGraph : Type 0 where
  pub nodes : Dict Subtask
  pub edges : List Edge
  pub parallel_groups : List Group
  pub chains : List Group

pub data GraphError : Type 0 where
  empty_node_id : GraphError
  duplicate_node_id : String → GraphError
  empty_endpoint : GraphError
  self_dependency : String → GraphError
  no_subtasks too_many_subtasks : GraphError
  unknown_prerequisite unknown_dependent : String → GraphError
  unknown_subtask : String → String → GraphError
  dependency_cycle : GraphError
  dependency_cycle_at : String → GraphError

abbrev pub new_task_graph : TaskGraph
new_task_graph = record { nodes = []; edges = []; parallel_groups = []; chains = [] }

abbrev pub contains_string : List String → String → Bool
contains_string xs s = any (λ x. str_eq x s) xs

unfoldable pub add_node : Subtask → TaskGraph → TaskGraph × Option GraphError
add_node subtask g =
    let id = trim_space subtask.id in
    if is_empty id
    then (g, some empty_node_id)
    else if has id g.nodes
    then (g, some (duplicate_node_id id))
    else (record g { nodes = put id (record subtask { id = id }) g.nodes }, none)

abbrev pub is_edge : String → String → Edge → Bool
is_edge from to e = str_eq e.source from && str_eq e.target to

-- The target's `DependsOn` follows the edge, if the target is a node already.
unfoldable pub sync_depends_on : String → String → Dict Subtask → Dict Subtask
sync_depends_on from to nodes = elim (get to nodes) [
  | none ↦ nodes
  | some target ↦
      if contains_string target.depends_on from
      then nodes
      else put to (record target { depends_on = target.depends_on ++ from ∷ [] }) nodes
]

unfoldable pub add_edge : String → String → TaskGraph → TaskGraph × Option GraphError
unfolding sync_depends_on
add_edge from to g =
    let source = trim_space from in
    let target = trim_space to in
    if is_empty source
    then (g, some empty_endpoint)
    else if is_empty target
    then (g, some empty_endpoint)
    else if str_eq source target
    then (g, some (self_dependency source))
    else if any (is_edge source target) g.edges
    then (g, none)
    else (
      record g {
        nodes = sync_depends_on source target g.nodes;
        edges = g.edges ++ (record { source = source; target = target }) ∷ [];
      },
      none,
    )

unfoldable pub sources : List Edge → List String
sources [] = []
sources (e ∷ es) = e.source ∷ sources es

unfoldable pub dependencies : TaskGraph → String → List String
unfolding sources
dependencies g id = sources (select (λ e. str_eq e.target id) g.edges)

unfoldable pub in_degree : TaskGraph → String → ℕ
in_degree g id = length (select (λ e. str_eq e.target id) g.edges)

unfoldable pub out_degree : TaskGraph → String → ℕ
out_degree g id = length (select (λ e. str_eq e.source id) g.edges)

is_ready : TaskGraph → List String → String → Bool
is_ready g completed id =
    not (contains_string completed id) && all (contains_string completed) (dependencies g id)

ready_entries : TaskGraph → List String → Dict Subtask → List Subtask
ready_entries g completed [] = []
ready_entries g completed ((id, node) ∷ rest) =
    let more = ready_entries g completed rest in
    if is_ready g completed id then node ∷ more else more

-- The program ranges over a map and then sorts by id, so the order of the nodes does not matter.
unfoldable pub ready_nodes : List String → TaskGraph → List Subtask
unfolding ready_entries is_ready
ready_nodes completed g = sort_by (λ a b. str_lt a.id b.id) (ready_entries g completed g.nodes)
