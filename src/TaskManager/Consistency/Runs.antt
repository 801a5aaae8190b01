-- ===== src/TaskManager/Consistency/Runs.antt =====
-- internal/taskmgr: the agreement of a task's state with those of its subtasks, in every run.
use m_aistr.Prelude.{ℕ, String, Option, none, some, List}
use m_aistr.Scheduler.Model.{Subtask, Assignment}
use m_aistr.Scheduler.Graph.{TaskGraph}
use m_aistr.TaskManager.Model.{Task, DispatchAttemptStatus}
use m_aistr.TaskManager.Persist.{Store, Manager}
use m_aistr.TaskManager.Transitions.{has_id}
use m_aistr.TaskManager.Attempts.{
  Report, begin_task, begin_result, close_subtasks, close_result, assign_winner,
}
use m_aistr.TaskManager.Writes.{SameWork}
use m_aistr.TaskManager.Keeps.{Keeps, EachTask}
use m_aistr.TaskManager.Operations.{Operation, run}
use m_aistr.TaskManager.Operations.Preservation.{run-each}
use m_aistr.TaskManager.Consistency.Lists.{update_first-allowed}
use m_aistr.TaskManager.Consistency.Steps.{
  IsConsistent, new_task-IsConsistent, cancel_task-IsConsistent, start_task-IsConsistent,
  reassign_task-IsConsistent, complete_task-IsConsistent, approve_task-IsConsistent,
  synthesis_task-IsConsistent, resume_task-IsConsistent,
}

same-IsConsistent : (t u : Task) → SameWork t u → IsConsistent t → IsConsistent u
unfolding IsConsistent
same-IsConsistent t u w h = rw (w.status, w.subtasks) h

begin-IsConsistent :
    (id sid : String) (a : Assignment) (now : ℕ) (t : Task)
    → IsConsistent t
    → IsConsistent (begin_task id sid a now t)
unfolding IsConsistent begin_task
begin-IsConsistent id sid a now t h =
    update_first-allowed t.status (has_id sid) (begin_result id sid a now) t.subtasks (λ r k. k) h

close-IsConsistent :
    (sid : String) (n : ℕ) (s : DispatchAttemptStatus) (r : Report) (now : ℕ) (t : Task)
    → IsConsistent t
    → IsConsistent (close_subtasks sid n s r now t)
unfolding IsConsistent close_result
close-IsConsistent sid n s r now t h =
    update_first-allowed t.status (has_id sid) (close_result n s r now) t.subtasks (λ x k. k) h

assign-IsConsistent :
    (sid : String) (a : Option Assignment) (t : Task)
    → IsConsistent t
    → IsConsistent (assign_winner sid a t)
unfolding IsConsistent assign_winner
assign-IsConsistent sid none t h = h
assign-IsConsistent sid (some a) t h =
    update_first-allowed t.status (has_id sid) _ t.subtasks (λ x k. k) h

pub consistency : Keeps (λ _ t. IsConsistent t) (λ _. Unit {0})
consistency = record {
  same = λ _. same-IsConsistent;
  new = λ k d g as' b now _. new_task-IsConsistent k d g as' b now;
  cancel = λ _. cancel_task-IsConsistent;
  start = λ _. start_task-IsConsistent;
  reassign = λ _ sid a now t _. reassign_task-IsConsistent sid a now t;
  complete = λ _. complete_task-IsConsistent;
  approve = λ _. approve_task-IsConsistent;
  synthesis = λ _. synthesis_task-IsConsistent;
  resume = λ _ now t _. resume_task-IsConsistent now t;
  begin = λ k sid a now t _. begin-IsConsistent k sid a now t;
  close = λ _. close-IsConsistent;
  assign = λ _ sid a t _. assign-IsConsistent sid a t;
}

-- Whatever operations run, in whatever order and whatever the store answers, every task agrees
-- with its subtasks if every one did before: a completed task, one in synthesis and one awaiting
-- approval have completed subtasks only, a failed one completed and failed ones, a cancelled one
-- none that is pending or running, and any other task has no cancelled subtask.
pub run-IsConsistent :
    {S : Type 0} (store : Store S) (graph_of : List Subtask → Option TaskGraph)
    (ops : List (Operation × ℕ)) (m : Manager S)
    → EachTask (λ _ t. IsConsistent t) m.tasks
    → EachTask (λ _ t. IsConsistent t) (run store graph_of ops m).tasks
run-IsConsistent store graph_of ops m h = run-each store graph_of consistency ops m (λ _. tt) h
