-- ===== src/TaskManager/Lifecycle.antt =====
-- internal/taskmgr/lifecycle.go, and ResumeTaskChecked of checkpoint.go: the operations of the
-- manager on the life of a task. Each is one step from the lock to the unlock; a finalizer runs
-- between two steps, so what it is given comes out of the first and its answer enters the second.
pub mod Preservation
pub mod Closing
use m_aistr.Prelude.{
  ℕ, suc, String, Bool, true, false, not, ◌&&◌, ◌||◌, Option, none, some, List, [], ◌∷◌, map,
  if◌then◌else◌, find,
}
use m_aistr.Prelude.Dict.{get}
use m_aistr.Scheduler.Model.{Subtask, Assignment}
use m_aistr.Scheduler.Graph.{TaskGraph}
use m_aistr.TaskManager.Model.{
  Task, SubtaskResult, is_completed, is_failed, is_cancelled, is_awaiting_approval, is_synthesizing,
  is_unfinished, clone_task,
}
use m_aistr.TaskManager.Ids.{gen_id}
use m_aistr.TaskManager.Persist.{
  Store, Manager, Err, task_not_found, subtask_not_found, subtask_finished, subtask_not_active,
  not_awaiting_approval, not_resumable, Result, ok, err, result, invalidate_recent_tasks, put_task,
  persist_task_and_checkpoint, persist, commit,
}
use m_aistr.TaskManager.Transitions
use m_aistr.TaskManager.Transitions.{
  Outcome, has_id, is_terminal, new_task, cancel_task, start_task, reassign_task, complete_task,
  starts_synthesis, approve_task, synthesis_task, resume_task,
}

-- What a step leaves to do: return, or run the finalizer on a snapshot first.
pub data Next : Type 0 where
  returns : Option Err → Next
  finalizes : Task → Next

abbrev pub failed_with : Err → Next
failed_with e = returns (some e)

module _ {S : Type 0} (store : Store S) where
  -- The graph of a new task: the caller's, or the one made of the assigned subtasks. The argument
  -- `graph_of` is TaskGraphFromSubtasks, whose error the code drops.
  graph_for :
      (List Subtask → Option TaskGraph) → Option TaskGraph → List Assignment → Option TaskGraph
  graph_for graph_of (some g) assignments = some g
  graph_for graph_of none [] = none
  graph_for graph_of none (a ∷ as') = graph_of (map (λ b. b.subtask) (a ∷ as'))

  -- The new task enters the table only once it is stored.
  admit : String → Manager S → Task → Option Err → Manager S × Result Task
  admit id m t (some e) = (m, err e)
  admit id m t none = (invalidate_recent_tasks (put_task id t m), ok (clone_task t))

  unfoldable pub create :
      (List Subtask → Option TaskGraph)
      → String
      → Option TaskGraph
      → List Assignment
      → Bool
      → ℕ
      → Manager S
      → Manager S × Result Task
  unfolding graph_for admit
  create graph_of description graph assignments require_approval now m =
      let id = gen_id (suc m.seq) in
      let t =
        new_task id description (graph_for graph_of graph assignments) assignments require_approval
          now in
      let (m', t', e) = persist_task_and_checkpoint store now (record m { seq = suc m.seq }) t in
      admit id m' t' e

  cancel_found : String → ℕ → Manager S → Option Task → Manager S × Option Task × Bool × Option Err
  cancel_found id now m none = (m, none, false, none)
  cancel_found id now m (some t) =
      let (m', t', e) = commit store id now m (cancel_task now t) in
      if is_terminal t.status then (m, none, false, none) else (m', some (clone_task t'), true, e)

  unfoldable pub cancel : String → ℕ → Manager S → Manager S × Option Task × Bool × Option Err
  unfolding cancel_found
  cancel id now m = cancel_found id now m (get id m.tasks)

  start_result :
      String → String → ℕ → Manager S → Task → Option SubtaskResult → Manager S × Option Err
  start_result id sid now m t none = (m, some (subtask_not_found sid id))
  start_result id sid now m t (some r) =
      if is_unfinished r.status
      then persist store id m (start_task sid now t)
      else (m, some (subtask_finished sid id))

  start_found : String → String → ℕ → Manager S → Option Task → Manager S × Option Err
  unfolding start_result
  start_found id sid now m none = (m, some (subtask_not_found sid id))
  start_found id sid now m (some t) =
      if is_cancelled t.status
      then (m, none)
      else start_result id sid now m t (find (has_id sid) t.subtasks)

  unfoldable pub start_subtask : String → String → ℕ → Manager S → Manager S × Option Err
  unfolding start_found
  start_subtask id sid now m = start_found id sid now m (get id m.tasks)

  reassign_result :
      String
      → String
      → Assignment
      → ℕ
      → Manager S
      → Task
      → Option SubtaskResult
      → Manager S × Option Err
  reassign_result id sid a now m t none = (m, some (subtask_not_found sid id))
  reassign_result id sid a now m t (some r) =
      if is_unfinished r.status
      then persist store id m (reassign_task sid a now t)
      else (m, some (subtask_not_active sid id))

  reassign_found :
      String → String → Assignment → ℕ → Manager S → Option Task → Manager S × Option Err
  unfolding reassign_result
  reassign_found id sid a now m none = (m, some (task_not_found id))
  reassign_found id sid a now m (some t) =
      reassign_result id sid a now m t (find (has_id sid) t.subtasks)

  unfoldable pub reassign_subtask :
      String → String → Assignment → ℕ → Manager S → Manager S × Option Err
  unfolding reassign_found
  reassign_subtask id sid a now m = reassign_found id sid a now m (get id m.tasks)

  -- finishSubtaskCompletion and the head of finishSynthesis: after an error of the store the
  -- finalizer is not run.
  unfoldable pub after_commit : Bool → Task → Option Err → Next
  after_commit synthesis snapshot (some e) = returns (some e)
  after_commit synthesis snapshot none = if synthesis then finalizes snapshot else returns none

  -- completeSubtaskLocked, after its subtask was looked up. The snapshot is taken before the write.
  complete_result :
      String → String → Outcome → ℕ → Manager S → Task → Option SubtaskResult → Manager S × Next
  unfolding after_commit
  complete_result id sid outcome now m t none = (m, failed_with (subtask_not_found sid id))
  complete_result id sid outcome now m t (some r) =
      let t' = complete_task m.has_finalizer sid outcome now t in
      let (m', t'', e) = commit store id now m t' in
      (m', after_commit (starts_synthesis m.has_finalizer t') (clone_task t') e)

  unfoldable pub complete_locked :
      String → String → Outcome → ℕ → Manager S → Task → Manager S × Next
  unfolding complete_result
  complete_locked id sid outcome now m t =
      complete_result id sid outcome now m t (find (has_id sid) t.subtasks)

  complete_found : String → String → Outcome → ℕ → Manager S → Option Task → Manager S × Next
  complete_found id sid outcome now m none = (m, failed_with (task_not_found id))
  complete_found id sid outcome now m (some t) =
      if is_cancelled t.status || Transitions.subtask_finished sid t
      then (m, returns none)
      else complete_locked id sid outcome now m t

  unfoldable pub complete_subtask : String → String → Outcome → ℕ → Manager S → Manager S × Next
  unfolding complete_found
  complete_subtask id sid outcome now m = complete_found id sid outcome now m (get id m.tasks)

  approve_found : String → ℕ → Manager S → Option Task → Manager S × Next
  unfolding after_commit
  approve_found id now m none = (m, failed_with (task_not_found id))
  approve_found id now m (some t) =
      let (m', t', e) = commit store id now m (approve_task m.has_finalizer now t) in
      if is_awaiting_approval t.status
      then (m', after_commit m.has_finalizer (clone_task t') e)
      else (m, failed_with (not_awaiting_approval id))

  unfoldable pub approve : String → ℕ → Manager S → Manager S × Next
  unfolding approve_found
  approve id now m = approve_found id now m (get id m.tasks)

  synthesis_found : String → Outcome → ℕ → Manager S → Option Task → Manager S × Option Err
  synthesis_found id answer now m none = (m, none)
  synthesis_found id answer now m (some t) =
      let (m', t', e) = commit store id now m (synthesis_task answer now t) in
      if is_synthesizing t.status then (m', e) else (m, none)

  -- finishSynthesis, once the finalizer has answered.
  unfoldable pub finish_synthesis : String → Outcome → ℕ → Manager S → Manager S × Option Err
  unfolding synthesis_found
  finish_synthesis id answer now m = synthesis_found id answer now m (get id m.tasks)

  -- A step and the finalizer behind it, when nothing comes between them.
  unfoldable pub finish_next :
      (Task → Outcome) → String → ℕ → Manager S × Next → Manager S × Option Err
  finish_next finalizer id now (m, returns e) = (m, e)
  finish_next finalizer id now (m, finalizes snapshot) =
      finish_synthesis id (finalizer snapshot) now m

  resume_found : String → ℕ → Manager S → Option Task → Manager S × Result Task
  resume_found id now m none = (m, err (task_not_found id))
  resume_found id now m (some t) =
      let (m', t', e) = commit store id now m (resume_task now t) in
      if is_completed t.status
      then (m, err (not_resumable id))
      else if not t.resumable
      then (m, err (not_resumable id))
      else if not (is_failed t.status) && not (is_cancelled t.status)
      then (m, err (not_resumable id))
      else (m', result (clone_task t') e)

  unfoldable pub resume : String → ℕ → Manager S → Manager S × Result Task
  unfolding resume_found
  resume id now m = resume_found id now m (get id m.tasks)
