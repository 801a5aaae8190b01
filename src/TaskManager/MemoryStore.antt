-- ===== src/TaskManager/MemoryStore.antt =====
-- internal/taskmgr/memorystore.go: the store that keeps its tasks in memory. A nil task or
-- checkpoint is not modelled.
pub mod Reads
use Prim.Native.String.{◌++◌}
use m_aistr.Prelude.{
  ℕ, ltb, String, str_eq, Bool, true, false, not, ◌||◌, Option, none, some, List, [], ◌∷◌, map,
  is_empty, select, sort_by, if◌then◌else◌,
}
use m_aistr.Prelude.Text.{str_lt, has_prefix}
use m_aistr.Prelude.Dict.{Dict, get, put}
use m_aistr.TaskManager.Model.{Task, Checkpoint, clone_task}
use m_aistr.TaskManager.Persist.{Store}

pub record MemoryStore : Type 0 where
  pub tasks : Dict Task
  pub checkpoints : Dict Checkpoint
  pub latest : Dict Checkpoint

abbrev pub new_memory_store : MemoryStore
new_memory_store = record { tasks = []; checkpoints = []; latest = [] }

-- The tasks in the order of their ids.
unfoldable pub load : MemoryStore → List Task
load s = map (λ e. clone_task e.1) (sort_by (λ a b. str_lt a.0 b.0) s.tasks)

unfoldable pub save : Task → MemoryStore → MemoryStore × Option String
save t s =
    if is_empty t.id
    then (s, some "taskmgr: task id is required")
    else (record s { tasks = put t.id (clone_task t) s.tasks }, none)

unfoldable pub save_checkpoint : Checkpoint → MemoryStore → MemoryStore × Option String
save_checkpoint c s =
    if is_empty c.id || is_empty c.task_id
    then (s, some "taskmgr: checkpoint id and task id are required")
    else (
      record s { checkpoints = put c.id c s.checkpoints; latest = put c.task_id c s.latest },
      none,
    )

unfoldable pub save_task_and_checkpoint :
    Task → Checkpoint → MemoryStore → MemoryStore × Option String
save_task_and_checkpoint t c s =
    if is_empty t.id
    then (s, some "taskmgr: task id is required")
    else if is_empty c.id || not (str_eq c.task_id t.id)
    then (s, some "taskmgr: checkpoint id and matching task id are required")
    else (
      record {
        tasks = put t.id (clone_task t) s.tasks;
        checkpoints = put c.id c s.checkpoints;
        latest = put t.id c s.latest;
      },
      none,
    )

-- Every checkpoint with the prefix, also those of a task whose id continues the given one.
unfoldable pub checkpoints : String → MemoryStore → List Checkpoint
checkpoints task_id s =
    let prefix = "cp-" ++ task_id ++ "-" in
    sort_by (λ a b. ltb a.sequence b.sequence)
      (map (λ e. e.1) (select (λ e. has_prefix prefix e.0) s.checkpoints))

unfoldable pub latest_checkpoint : String → MemoryStore → Option Checkpoint
latest_checkpoint task_id s = get task_id s.latest

-- As the manager uses it.
abbrev pub memory_store : Store MemoryStore
memory_store = record {
  save = save;
  save_checkpoint = save_checkpoint;
  atomic = some save_task_and_checkpoint;
}
