-- ===== src/TaskManager/Operations.antt =====
-- internal/taskmgr: the operations that change tasks, as one type, and runs of them in any order.
-- A finalizer's answer and a dispatcher's reports are operations of their own, so a run is any
-- interleaving of what concurrent callers do.
pub mod Preservation
use m_aistr.Prelude.{ℕ, String, Bool, Option, List, [], ◌∷◌}
use m_aistr.Scheduler.Model.{Subtask, Assignment}
use m_aistr.Scheduler.Graph.{TaskGraph}
use m_aistr.TaskManager.Model.{DispatchAttemptStatus}
use m_aistr.TaskManager.Persist.{Store, Manager}
use m_aistr.TaskManager.Transitions.{Outcome}
use m_aistr.TaskManager.Lifecycle
use m_aistr.TaskManager.Attempts
use m_aistr.TaskManager.Attempts.{Report}

pub data Operation : Type 0 where
  create : String → Option TaskGraph → List Assignment → Bool → Operation
  cancel : String → Operation
  start : String → String → Operation
  reassign : String → String → Assignment → Operation
  complete : String → String → Outcome → Operation
  approve : String → Operation
  finish_synthesis : String → Outcome → Operation
  resume : String → Operation
  begin_attempt : String → String → Assignment → Operation
  finish_attempt : String → String → ℕ → DispatchAttemptStatus → Report → Operation
  complete_attempt : String → String → ℕ → Option Assignment → Report → String → Operation

module _ {S : Type 0} (store : Store S) (graph_of : List Subtask → Option TaskGraph) where
  -- The manager after an operation at a time.
  unfoldable pub apply : Operation → ℕ → Manager S → Manager S
  apply (create d g a b) now m = (Lifecycle.create store graph_of d g a b now m).0
  apply (cancel id) now m = (Lifecycle.cancel store id now m).0
  apply (start id sid) now m = (Lifecycle.start_subtask store id sid now m).0
  apply (reassign id sid a) now m = (Lifecycle.reassign_subtask store id sid a now m).0
  apply (complete id sid o) now m = (Lifecycle.complete_subtask store id sid o now m).0
  apply (approve id) now m = (Lifecycle.approve store id now m).0
  apply (finish_synthesis id o) now m = (Lifecycle.finish_synthesis store id o now m).0
  apply (resume id) now m = (Lifecycle.resume store id now m).0
  apply (begin_attempt id sid a) now m = (Attempts.begin_attempt store id sid a now m).0
  apply (finish_attempt id sid n s r) now m = (Attempts.finish_attempt store id sid n s r now m).0
  apply (complete_attempt id sid n a r text) now m =
      (Attempts.complete_attempt store id sid n a r text now m).0

  unfoldable pub run : List (Operation × ℕ) → Manager S → Manager S
  run [] m = m
  run ((op, now) ∷ rest) m = run rest (apply op now m)
