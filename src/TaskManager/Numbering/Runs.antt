-- ===== src/TaskManager/Numbering/Runs.antt =====
-- internal/taskmgr/dispatch_attempts.go: the numbering of attempts, in every run.
use m_aistr.Prelude.{
  ℕ, ◌+◌, String, ◌≡◌, refl, ap, ◌∙◌, Bool, true, Option, none, some, List, arith, update_first,
  length,
}
use m_aistr.Scheduler.Model.{Subtask, Assignment}
use m_aistr.Scheduler.Graph.{TaskGraph}
use m_aistr.TaskManager.Model.{Task, SubtaskResult, DispatchAttemptStatus}
use m_aistr.TaskManager.Persist.{Store, Manager}
use m_aistr.TaskManager.Transitions.{
  Outcome, has_id, new_task, cancel_task, start_task, start_result, reassign_task, complete_task,
  record_outcome, approve_task, synthesis_task, resume_task,
}
use m_aistr.TaskManager.Attempts.{
  Report, begin_task, begin_result, new_attempt, close_subtasks, close_result, close_attempt,
  assign_winner,
}
use m_aistr.TaskManager.Writes.{SameWork}
use m_aistr.TaskManager.Keeps.{Keeps, EachTask}
use m_aistr.TaskManager.Operations.{Operation, run}
use m_aistr.TaskManager.Operations.Preservation.{run-each}
use m_aistr.TaskManager.Numbering.{
  numbered, all_numbered, IsNumbered, numbered-append, numbered-close, update_first-numbered,
  map-numbered, new-numbered, subtasks-roll_up, subtasks-approve, subtasks-synthesis,
  attempts-outcome,
}

same-IsNumbered : (t u : Task) → SameWork t u → IsNumbered t → IsNumbered u
unfolding IsNumbered
same-IsNumbered t u w h = ap all_numbered w.subtasks ∙ h

new-IsNumbered :
    (id d : String) (g : Option TaskGraph) (as' : List Assignment) (b : Bool) (now : ℕ)
    → IsNumbered (new_task id d g as' b now)
unfolding IsNumbered new_task
new-IsNumbered id d g as' b now = new-numbered _ as' (λ a. refl)

cancel-IsNumbered : (now : ℕ) (t : Task) → IsNumbered t → IsNumbered (cancel_task now t)
unfolding IsNumbered cancel_task
cancel-IsNumbered now t h = map-numbered _ t.subtasks (λ r k. ground arith) h

start-IsNumbered :
    (sid : String) (now : ℕ) (t : Task) → IsNumbered t → IsNumbered (start_task sid now t)
unfolding IsNumbered start_task
start-IsNumbered sid now t h =
    update_first-numbered (has_id sid) start_result t.subtasks (λ r k. k) h

reassign-IsNumbered :
    (sid : String) (a : Assignment) (now : ℕ) (t : Task)
    → IsNumbered t
    → IsNumbered (reassign_task sid a now t)
unfolding IsNumbered reassign_task
reassign-IsNumbered sid a now t h = update_first-numbered (has_id sid) _ t.subtasks (λ r k. k) h

outcome-numbered :
    (o : Outcome) (r : SubtaskResult)
    → numbered 0 r.attempts ≡ true
    → numbered 0 (record_outcome o r).attempts ≡ true
outcome-numbered o r h = ap (numbered 0) (attempts-outcome o r) ∙ h

complete-IsNumbered :
    (b : Bool) (sid : String) (o : Outcome) (now : ℕ) (t : Task)
    → IsNumbered t
    → IsNumbered (complete_task b sid o now t)
unfolding IsNumbered complete_task
complete-IsNumbered b sid o now t h =
    ap all_numbered (
      subtasks-roll_up b
        (record t { subtasks = update_first (has_id sid) (record_outcome o) t.subtasks }))
    ∙ update_first-numbered (has_id sid) (record_outcome o) t.subtasks (outcome-numbered o) h

approve-IsNumbered :
    (b : Bool) (now : ℕ) (t : Task) → IsNumbered t → IsNumbered (approve_task b now t)
unfolding IsNumbered
approve-IsNumbered b now t h = ap all_numbered (subtasks-approve b now t) ∙ h

synthesis-IsNumbered :
    (o : Outcome) (now : ℕ) (t : Task) → IsNumbered t → IsNumbered (synthesis_task o now t)
unfolding IsNumbered
synthesis-IsNumbered o now t h = ap all_numbered (subtasks-synthesis o now t) ∙ h

resume-IsNumbered : (now : ℕ) (t : Task) → IsNumbered t → IsNumbered (resume_task now t)
unfolding IsNumbered resume_task
resume-IsNumbered now t h = map-numbered _ t.subtasks (λ r k. ground arith) h

begin-numbered :
    (id sid : String) (a : Assignment) (now : ℕ) (r : SubtaskResult)
    → numbered 0 r.attempts ≡ true
    → numbered 0 (begin_result id sid a now r).attempts ≡ true
unfolding begin_result new_attempt
begin-numbered id sid a now r h =
    numbered-append 0 r.attempts (new_attempt id sid (length r.attempts + 1) a now) h (omega arith)

begin-IsNumbered :
    (id sid : String) (a : Assignment) (now : ℕ) (t : Task)
    → IsNumbered t
    → IsNumbered (begin_task id sid a now t)
unfolding IsNumbered begin_task
begin-IsNumbered id sid a now t h =
    update_first-numbered (has_id sid) (begin_result id sid a now) t.subtasks
      (begin-numbered id sid a now) h

close-IsNumbered :
    (sid : String) (n : ℕ) (s : DispatchAttemptStatus) (r : Report) (now : ℕ) (t : Task)
    → IsNumbered t
    → IsNumbered (close_subtasks sid n s r now t)
unfolding IsNumbered close_result close_attempt
close-IsNumbered sid n s r now t h =
    update_first-numbered (has_id sid) (close_result n s r now) t.subtasks
      (λ x k. numbered-close 0 n (close_attempt s r now) x.attempts (λ a. refl) k) h

assign-IsNumbered :
    (sid : String) (a : Option Assignment) (t : Task)
    → IsNumbered t
    → IsNumbered (assign_winner sid a t)
unfolding IsNumbered assign_winner
assign-IsNumbered sid none t h = h
assign-IsNumbered sid (some a) t h = update_first-numbered (has_id sid) _ t.subtasks (λ r k. k) h

numbering : Keeps (λ _ t. IsNumbered t) (λ _. Unit {0})
numbering = record {
  same = λ _. same-IsNumbered;
  new = λ k d g as' b now _. new-IsNumbered k d g as' b now;
  cancel = λ _ now t _. cancel-IsNumbered now t;
  start = λ _ sid now t r _ _. start-IsNumbered sid now t;
  reassign = λ _ sid a now t _. reassign-IsNumbered sid a now t;
  complete = λ _ b sid o now t _. complete-IsNumbered b sid o now t;
  approve = λ _ b now t _. approve-IsNumbered b now t;
  synthesis = λ _ o now t _. synthesis-IsNumbered o now t;
  resume = λ _ now t _. resume-IsNumbered now t;
  begin = λ k sid a now t _. begin-IsNumbered k sid a now t;
  close = λ _. close-IsNumbered;
  assign = λ _ sid a t _. assign-IsNumbered sid a t;
}

-- Whatever operations run, in whatever order and whatever the store answers, the attempts of every
-- subtask are numbered 1, 2, 3 and so on in the order of the list, if they were before.
pub run-IsNumbered :
    {S : Type 0} (store : Store S) (graph_of : List Subtask → Option TaskGraph)
    (ops : List (Operation × ℕ)) (m : Manager S)
    → EachTask (λ _ t. IsNumbered t) m.tasks
    → EachTask (λ _ t. IsNumbered t) (run store graph_of ops m).tasks
run-IsNumbered store graph_of ops m h = run-each store graph_of numbering ops m (λ _. tt) h
