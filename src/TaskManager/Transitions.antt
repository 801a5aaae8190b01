-- ===== src/TaskManager/Transitions.antt =====
-- internal/taskmgr/lifecycle.go and checkpoint.go: what an operation does to its own task, before
-- the task is written. `now` is the time that the operation reads.
use m_aistr.Prelude.{
  ℕ, String, Bool, true, false, not, ◌&&◌, ◌||◌, Option, none, some, List, [], ◌∷◌, map, is_empty,
  concat, if◌then◌else◌, all, any, find, update_first, str_eq,
}
use m_aistr.Prelude.Text.{trim_space}
use m_aistr.Scheduler.Model.{Assignment}
use m_aistr.Scheduler.Graph.{TaskGraph}
use m_aistr.TaskManager.Model.{
  Status, pending, running, synthesizing, awaiting_approval, completed, failed, cancelled, Task,
  SubtaskResult, is_completed, is_failed, is_cancelled, is_unfinished, subtask_id, signal_changed,
  aggregate_outputs,
}

abbrev pub task_cancelled_error : String
task_cancelled_error = "task cancelled"

abbrev pub has_id : String → SubtaskResult → Bool
has_id sid r = str_eq (subtask_id r) sid

abbrev pub touch : ℕ → Task → Task
touch now t = signal_changed (record t { updated_at = now })

-- CreateWithGraphAndOptionsChecked: the new task. `graph` is the caller's, or the one that
-- `TaskGraphFromSubtasks` makes where the caller gives none.
pending_result : Assignment → SubtaskResult
pending_result a = record {
  assignment = a;
  status = pending;
  output = "";
  error = "";
  attempts = [];
}

abbrev pub any_result : List SubtaskResult → Bool
any_result [] = false
any_result (r ∷ rs) = true

unfoldable pub new_task : String → String → Option TaskGraph → List Assignment → Bool → ℕ → Task
unfolding pending_result
new_task id description graph assignments require_approval now =
    let results = map pending_result assignments in
    record {
      id = id;
      origin = "";
      sequence = 0;
      description = description;
      status = if any_result results then running else failed;
      subtasks = results;
      graph = graph;
      resumable = any_result results;
      last_checkpoint = "";
      require_approval = require_approval;
      result = "";
      error = if any_result results then "" else "task has no assigned subtasks";
      created_at = now;
      updated_at = now;
      context_done = false;
      changed = 0;
    }

-- CancelAndSnapshotChecked
cancel_result : SubtaskResult → SubtaskResult
cancel_result r =
    if is_unfinished r.status
    then record r { status = cancelled; error = task_cancelled_error }
    else r

unfoldable pub cancel_task : ℕ → Task → Task
unfolding cancel_result
cancel_task now t = touch now (record t {
  context_done = true;
  status = cancelled;
  error = task_cancelled_error;
  resumable = any (λ r. is_completed r.status) t.subtasks;
  subtasks = map cancel_result t.subtasks;
})

-- CancelAndSnapshotChecked and Wait: the states in which nothing runs any more.
abbrev pub is_terminal : Status → Bool
is_terminal s = is_completed s || is_failed s || is_cancelled s

-- StartSubtaskChecked
unfoldable pub start_result : SubtaskResult → SubtaskResult
start_result r = record r { status = running }

unfoldable pub start_task : String → ℕ → Task → Task
unfolding start_result
start_task sid now t =
    touch now (record t { subtasks = update_first (has_id sid) start_result t.subtasks })

-- ReassignSubtaskChecked
unfoldable pub reassign_task : String → Assignment → ℕ → Task → Task
reassign_task sid a now t = touch now (record t {
  subtasks = update_first (has_id sid) (λ r. record r { assignment = a }) t.subtasks;
})

-- subtaskFinished
unfoldable pub subtask_finished : String → Task → Bool
subtask_finished sid t = elim (find (has_id sid) t.subtasks) [
  | none ↦ false
  | some r ↦ not (is_unfinished r.status)
]

-- The outcome of a dispatch: an output, or the text of an error.
pub data Outcome : Type 0 where
  output : String → Outcome
  failure : String → Outcome

unfoldable pub record_outcome : Outcome → SubtaskResult → SubtaskResult
record_outcome (output text) r = record r { status = completed; output = text }
record_outcome (failure e) r = record r { status = failed; error = e }

-- The state of the task once every subtask has finished.
unfoldable pub finish_status : Bool → Task → Task
finish_status has_finalizer t =
    if any (λ r. is_failed r.status) t.subtasks
    then record t { status = failed; error = "one or more subtasks failed"; resumable = true }
    else if t.require_approval
    then record t { status = awaiting_approval; resumable = true }
    else if has_finalizer
    then record t { status = synthesizing; resumable = true }
    else record t { status = completed; resumable = false }

unfoldable pub all_done : List SubtaskResult → Bool
all_done rs = all (λ r. not (is_unfinished r.status)) rs

unfoldable pub roll_up : Bool → Task → Task
unfolding all_done finish_status
roll_up has_finalizer t =
    if all_done t.subtasks
    then finish_status has_finalizer (record t { result = aggregate_outputs t.subtasks })
    else record t { resumable = true }

-- completeSubtaskLocked, of a subtask that the task has.
unfoldable pub complete_task : Bool → String → Outcome → ℕ → Task → Task
unfolding roll_up record_outcome
complete_task has_finalizer sid outcome now t = touch now (
    roll_up has_finalizer
      (record t { subtasks = update_first (has_id sid) (record_outcome outcome) t.subtasks }))

-- Whether completeSubtaskLocked hands the task to the finalizer.
unfoldable pub starts_synthesis : Bool → Task → Bool
starts_synthesis has_finalizer t =
    all_done t.subtasks
    && not (any (λ r. is_failed r.status) t.subtasks)
    && not t.require_approval
    && has_finalizer

-- ApproveChecked
unfoldable pub approve_task : Bool → ℕ → Task → Task
approve_task has_finalizer now t = touch now (
    if has_finalizer
    then record t { status = synthesizing }
    else record t { status = completed; resumable = false })

-- finishSynthesis, from what the finalizer returned.
unfoldable pub synthesis_task : Outcome → ℕ → Task → Task
synthesis_task (failure e) now t = touch now (record t {
  status = failed;
  error = concat ("result synthesis failed: " ∷ e ∷ []);
  resumable = true;
})
synthesis_task (output text) now t = touch now (
    if is_empty (trim_space text)
    then record t {
      status = failed;
      error = "result synthesis failed: model returned an empty result";
      resumable = true;
    }
    else record t { result = trim_space text; status = completed; resumable = false })

-- ResumeTaskChecked
reset_result : SubtaskResult → SubtaskResult
reset_result r = if is_completed r.status then r else record r { status = pending; error = "" }

unfoldable pub resume_task : ℕ → Task → Task
unfolding reset_result
resume_task now t = touch now (record t {
  status = running;
  error = "";
  subtasks = map reset_result t.subtasks;
  context_done = false;
})
