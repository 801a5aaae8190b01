-- ===== src/Examples/Plans.antt =====
-- internal/scheduler/graph.go: a plan of two subtasks, and one with a cycle.
use m_aistr.Prelude.{
  ◌≤◌, ◌≡◌, ◌≢◌, ◌↔◌, refl, arith, String, str_eq, eq_iff, Bool-cases, subst, inl, inr, false, List,
  [], ◌∷◌,
}
use m_aistr.Prelude.Dict.{get, put}
use m_aistr.Prelude.Text.{trim_space}
use m_aistr.Prelude.Occurrences.{occ, keys}
use m_aistr.Scheduler.Model.{Subtask}
use m_aistr.Scheduler.Graph.{TaskGraph, dependency_cycle_at, sources, dependencies}
use m_aistr.Scheduler.Search.{search, visit, visit_all}
use m_aistr.Scheduler.Search.Cycle.{Needs}
use m_aistr.Scheduler.Validation.{
  valid, stuck, invalid, check_edges, check_depends_on, depends_on_of, prerequisites, verdict,
  refuse, validate,
}
use m_aistr.Scheduler.Validation.Verdict.{
  IsPlan, validate-IsPlan, validate-cycle, validate-ne-stuck,
}
use m_aistr.Scheduler.Sorting.{sorted, topological_sort}
use m_aistr.Scheduler.Sorting.Synced.{IsKeyed}
use m_aistr.Scheduler.Sorting.Sorted.{IsSortOf, topological_sort-IsSortOf}

abbrev subtask : String → List String → Subtask
subtask id depends_on = record {
  id = id;
  description = "d";
  role = "";
  task_type = "";
  tags = [];
  depends_on = depends_on;
  expected_output = "";
  output_format = "";
  required_fields = [];
  max_retries = 0;
  required_capabilities = [];
  preferred_capabilities = [];
  min_model_size_gb = 0;
  preferred_model = "";
  routing_preference = "";
  synthesis = false;
}

-- The second subtask depends on the first.
abbrev two : TaskGraph
two = record {
  nodes = ("b", subtask "b" ("a" ∷ [])) ∷ ("a", subtask "a" []) ∷ [];
  edges = [];
  parallel_groups = [];
  chains = [];
}

abbrev loop : TaskGraph
loop = record {
  nodes = ("b", subtask "b" ("a" ∷ [])) ∷ ("a", subtask "a" ("b" ∷ [])) ∷ [];
  edges = [];
  parallel_groups = [];
  chains = [];
}

two-valid : validate two ≡ valid
unfolding validate check_edges check_depends_on prerequisites depends_on_of dependencies sources
    search visit visit_all verdict refuse get put
two-valid = refl

loop_refused : validate loop ≡ invalid (dependency_cycle_at "b")
unfolding validate check_edges check_depends_on prerequisites depends_on_of dependencies sources
    search visit visit_all verdict refuse get put
loop_refused = refl

validate-IsPlan_example : (validate two ≡ valid) ↔ IsPlan two
validate-IsPlan_example = validate-IsPlan two

validate-cycle_example : Needs (prerequisites loop) "b" "b"
validate-cycle_example = validate-cycle loop "b" loop_refused

validate-ne-stuck_example : validate loop ≢ stuck
validate-ne-stuck_example = validate-ne-stuck loop

two-IsKeyed : IsKeyed two.nodes
unfolding trim_space
two-IsKeyed = record {
  distinct = λ x. elim (Bool-cases (str_eq "b" x)) [
    | inl e ↦ subst (λ z. occ z (keys two.nodes) ≤ 1) ((eq_iff "b" x).0 e) (omega arith)
    | inr e ↦ ground (arith, e)
  ];
  trimmed = ((refl, refl), ((refl, refl), tt));
  own_ids = (refl, (refl, tt));
}

topological_sort-IsSortOf_example :
    (rs : List Subtask) × ((topological_sort two).1 ≡ sorted rs) × IsSortOf two rs
topological_sort-IsSortOf_example = topological_sort-IsSortOf two two-IsKeyed two-valid
