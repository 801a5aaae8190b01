-- ===== src/TaskManager/Frontier.antt =====
-- internal/taskmgr/checkpoint.go: what a checkpoint records of a task.
use m_aistr.Prelude.{
  ℕ, String, not, ◌&&◌, none, some, List, [], ◌∷◌, map, is_empty, concat, if◌then◌else◌, all,
  length,
}
use m_aistr.Prelude.Digits.{format_int}
use m_aistr.Prelude.Dict.{Dict, put}
use m_aistr.Scheduler.Model.{Subtask}
use m_aistr.Scheduler.Graph.{contains_string, ready_nodes}
use m_aistr.TaskManager.Model.{Task, SubtaskResult, Checkpoint, is_completed, subtask_id}

-- The keys of the map `completed`.
unfoldable pub completed_ids : List SubtaskResult → List String
completed_ids [] = []
completed_ids (r ∷ rs) =
    let rest = completed_ids rs in if is_completed r.status then subtask_id r ∷ rest else rest

unfoldable pub unblocked_ids : List String → List SubtaskResult → List String
unblocked_ids completed [] = []
unblocked_ids completed (r ∷ rs) =
    let rest = unblocked_ids completed rs in
    if not (is_completed r.status)
      && all (contains_string completed) r.assignment.subtask.depends_on
    then subtask_id r ∷ rest
    else rest

node_ids : List Subtask → List String
node_ids ns = map (λ n. n.id) ns

unfoldable pub compute_frontier : Task → List String
unfolding completed_ids unblocked_ids node_ids
compute_frontier t = elim t.graph [
  | none ↦ unblocked_ids (completed_ids t.subtasks) t.subtasks
  | some g ↦ node_ids (ready_nodes (completed_ids t.subtasks) g)
]

collect_from : Dict String → List SubtaskResult → Dict String
collect_from outputs [] = outputs
collect_from outputs (r ∷ rs) =
    collect_from
      (if is_completed r.status && not (is_empty r.output)
        then put (subtask_id r) r.output outputs
        else outputs)
      rs

unfoldable pub collect_outputs : Task → Dict String
unfolding collect_from
collect_outputs t = collect_from [] t.subtasks

unfoldable pub checkpoint_id : Task → String
checkpoint_id t = concat ("cp-" ∷ t.id ∷ "-" ∷ format_int (length (collect_outputs t)) 10 ∷ [])

-- The checkpoint, and the task with `LastCheckpoint` and `Resumable` set from it.
unfoldable pub checkpoint_for_task : ℕ → Task → Task × Checkpoint
unfolding checkpoint_id
checkpoint_for_task now t =
    let outputs = collect_outputs t in
    let resumable = not (is_completed t.status) in
    (
      record t { last_checkpoint = checkpoint_id t; resumable = resumable },
      record {
        id = checkpoint_id t;
        task_id = t.id;
        sequence = length outputs;
        status = t.status;
        graph = t.graph;
        subtasks = t.subtasks;
        outputs = outputs;
        frontier = compute_frontier t;
        error = t.error;
        resumable = resumable;
        timestamp = now;
      },
    )
