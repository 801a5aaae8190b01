-- ===== src/Examples/TaskData.antt =====
-- internal/taskmgr: a task with one subtask, a manager that has it, and a list of operations.
use m_aistr.Prelude.{ℕ, String, true, false, Option, none, some, List, [], ◌∷◌}
use m_aistr.Scheduler.Model.{Subtask, ScoreFactors, Assignment}
use m_aistr.Scheduler.Graph.{TaskGraph}
use m_aistr.TaskManager.Model.{Status, completed, Task, SubtaskResult, DispatchAttemptStatus}
use m_aistr.TaskManager.Persist.{Manager, new_manager}
use m_aistr.TaskManager.Attempts.{Report}
use m_aistr.TaskManager.Operations.{
  Operation, create, cancel, start, begin_attempt, complete_attempt, finish_attempt,
}
use m_aistr.TaskManager.MemoryStore.{MemoryStore, new_memory_store}

abbrev pub subtask : String → List String → Subtask
subtask id depends_on = record {
  id = id;
  description = "work";
  role = "general";
  task_type = "";
  tags = [];
  depends_on = depends_on;
  expected_output = "";
  output_format = "";
  required_fields = [];
  max_retries = 0;
  required_capabilities = [];
  preferred_capabilities = [];
  min_model_size_gb = 0;
  preferred_model = "";
  routing_preference = "";
  synthesis = false;
}

abbrev pub factors : ScoreFactors
factors = record {
  model_match = 0;
  hardware = 0;
  active_tasks = 0;
  queued_tasks = 0;
  pending_dependents = 0;
  capacity_penalty = 0;
  load_penalty = 0;
  gpu_compatibility_score = 0;
  gpu_utilization_penalty = 0;
  npu_utilization_penalty = 0;
  cpu_utilization_penalty = 0;
  memory_usage_penalty = 0;
  capability_score = 0;
  matched_capabilities = [];
  model_quality_score = 0;
  topology_score = 0;
  estimated_completion_seconds = 0;
  estimated_tokens_per_second = 0;
  model_size_gb = 0;
  latency_score = 0;
  learned_bias = 0;
  telemetry_fresh = false;
  telemetry_age_ms = 0;
}

abbrev pub assignment : String → List String → Assignment
assignment id depends_on = record {
  subtask = subtask id depends_on;
  node_id = "node";
  address = "";
  model = "model";
  engine = "";
  score = 0;
  factors = factors;
}

abbrev pub result : String → List String → Status → SubtaskResult
result id depends_on status = record {
  assignment = assignment id depends_on;
  status = status;
  output = "done";
  error = "";
  attempts = [];
}

abbrev pub task : Status → List SubtaskResult → Task
task status subtasks = record {
  id = "task-1";
  origin = "task:a";
  sequence = 1;
  description = "example";
  status = status;
  subtasks = subtasks;
  graph = none;
  resumable = true;
  last_checkpoint = "";
  require_approval = false;
  result = "";
  error = "";
  created_at = 0;
  updated_at = 0;
  context_done = false;
  changed = 0;
}

abbrev pub no_graph : List Subtask → Option TaskGraph
no_graph _ = none

abbrev pub empty_manager : Manager MemoryStore
empty_manager = new_manager "task:a" (some new_memory_store) false

abbrev pub report : Report
report = record { failure_class = ""; http_status = 200; error = none; duration = 5 }

-- Two attempts of one subtask, the first of which fails, and the end of the task.
abbrev pub operations : List (Operation × ℕ)
operations =
    (create "example" none (assignment "a" [] ∷ []) false, 1)
    ∷ (start "task-1" "a", 2)
    ∷ (begin_attempt "task-1" "a" (assignment "a" []), 3)
    ∷ (finish_attempt "task-1" "a" 1 DispatchAttemptStatus.failed report, 4)
    ∷ (begin_attempt "task-1" "a" (assignment "a" []), 5)
    ∷ (complete_attempt "task-1" "a" 2 none report "done", 6)
    ∷ (cancel "task-1", 7)
    ∷ []

abbrev pub finished : Task
finished = task completed (result "a" [] completed ∷ [])

abbrev pub manager : Manager MemoryStore
manager = record empty_manager { tasks = ("task-1", finished) ∷ []; seq = 1 }
