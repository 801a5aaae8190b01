-- ===== src/TaskManager/Operations/Preservation.antt =====
-- internal/taskmgr: a property that single tasks keep holds of every task after any operations.
use m_aistr.Prelude.{ℕ, suc, String, ◌≡◌, Option, List, [], ◌∷◌}
use m_aistr.Scheduler.Model.{Subtask}
use m_aistr.Scheduler.Graph.{TaskGraph}
use m_aistr.TaskManager.Model.{Task}
use m_aistr.TaskManager.Ids.{gen_id}
use m_aistr.TaskManager.Persist.{Store, Manager}
use m_aistr.TaskManager.Lifecycle.Preservation.{
  create-each, cancel-each, start-each, reassign-each, complete-each,
}
use m_aistr.TaskManager.Lifecycle.Closing.{approve-each, synthesis-each, resume-each}
use m_aistr.TaskManager.Attempts.Preservation.{begin-each, finish-each}
use m_aistr.TaskManager.Attempts.Winning.{complete_attempt-each}
use m_aistr.TaskManager.Keeps.{Keeps, EachTask}
use m_aistr.TaskManager.Counter.{seq-create}
use m_aistr.TaskManager.Operations.{
  Operation, create, cancel, start, reassign, complete, approve, finish_synthesis, resume,
  begin_attempt, finish_attempt, complete_attempt, apply, run,
}

module _ {S : Type 0} (store : Store S) (graph_of : List Subtask → Option TaskGraph)
    {P : String → Task → Type 0} {F : String → Type 0} (keeps : Keeps P F) where
  pub apply-each :
      (op : Operation) (now : ℕ) (m : Manager S)
      → ((apply store graph_of op now m).seq ≡ suc m.seq → F (gen_id (suc m.seq)))
      → EachTask P m.tasks
      → EachTask P (apply store graph_of op now m).tasks
  unfolding apply
  apply-each (create d g a b) now m fresh h =
      create-each store keeps graph_of d g a b now m
        (fresh (seq-create store graph_of d g a b now m)) h
  apply-each (cancel id) now m fresh h = cancel-each store keeps id now m h
  apply-each (start id sid) now m fresh h = start-each store keeps id sid now m h
  apply-each (reassign id sid a) now m fresh h = reassign-each store keeps id sid a now m h
  apply-each (complete id sid o) now m fresh h = complete-each store keeps id sid o now m h
  apply-each (approve id) now m fresh h = approve-each store keeps id now m h
  apply-each (finish_synthesis id o) now m fresh h = synthesis-each store keeps id o now m h
  apply-each (resume id) now m fresh h = resume-each store keeps id now m h
  apply-each (begin_attempt id sid a) now m fresh h = begin-each store keeps id sid a now m h
  apply-each (finish_attempt id sid n s r) now m fresh h =
      finish-each store keeps id sid n s r now m h
  apply-each (complete_attempt id sid n a r text) now m fresh h =
      complete_attempt-each store keeps id sid n a r text now m h

  pub run-each :
      (ops : List (Operation × ℕ)) (m : Manager S)
      → ((n : ℕ) → F (gen_id (suc n)))
      → EachTask P m.tasks
      → EachTask P (run store graph_of ops m).tasks
  unfolding run
  run-each [] m fresh h = h
  run-each ((op, now) ∷ rest) m fresh h =
      run-each rest (apply store graph_of op now m) fresh (apply-each op now m (λ _. fresh m.seq) h)
