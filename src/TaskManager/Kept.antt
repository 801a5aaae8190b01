-- ===== src/TaskManager/Kept.antt =====
-- internal/taskmgr: no operation removes a task.
use m_aistr.Prelude.{ℕ, String, ◌≡◌, Bool, true, Option, List, arith}
use m_aistr.Prelude.Dict.{Dict, put, has, get-put}
use m_aistr.Scheduler.Model.{Subtask, Assignment}
use m_aistr.Scheduler.Graph.{TaskGraph}
use m_aistr.TaskManager.Model.{Task, DispatchAttemptStatus}
use m_aistr.TaskManager.Persist.{Store, Manager, stamp, persist, commit}
use m_aistr.TaskManager.Lifecycle
use m_aistr.TaskManager.Attempts
use m_aistr.TaskManager.Attempts.{Report}
use m_aistr.TaskManager.Transitions.{Outcome}
use m_aistr.TaskManager.Writes.{tasks-persist, tasks-commit, tasks-persist_task_and_checkpoint}
use m_aistr.TaskManager.Operations.{
  Operation, create, cancel, start, reassign, complete, approve, finish_synthesis, resume,
  begin_attempt, finish_attempt, complete_attempt, apply,
}

has-put : (k j : String) (t : Task) (d : Dict Task) → has k d ≡ true → has k (put j t d) ≡ true
has-put k j t d h = ground (arith, get-put j k t d)

module _ {S : Type 0} (store : Store S) (graph_of : List Subtask → Option TaskGraph)
    (k : String) where
  has-persist :
      (id : String) (m : Manager S) (t : Task)
      → has k m.tasks ≡ true
      → has k (persist store id m t).0.tasks ≡ true
  has-persist id m t h = rw (tasks-persist store id m t) (has-put k id (stamp m t).1 m.tasks h)

  has-commit :
      (id : String) (now : ℕ) (m : Manager S) (t : Task)
      → has k m.tasks ≡ true
      → has k (commit store id now m t).0.tasks ≡ true
  has-commit id now m t h =
      rw (tasks-commit store id now m t) (has-put k id (commit store id now m t).1 m.tasks h)

  abbrev Kept : Operation → ℕ → Manager S → Type 0
  Kept op now m = has k m.tasks ≡ true → has k (apply store graph_of op now m).tasks ≡ true

  Kept-create :
      (d : String) (g : Option TaskGraph) (as' : List Assignment) (b : Bool) (now : ℕ)
      (m : Manager S)
      → Kept (create d g as' b) now m
  unfolding apply Lifecycle.create
  Kept-create d g as' b now m h = grind (arith, has-put, tasks-persist_task_and_checkpoint)

  Kept-cancel : (id : String) (now : ℕ) (m : Manager S) → Kept (cancel id) now m
  unfolding apply Lifecycle.cancel
  Kept-cancel id now m h = grind (arith, has-commit)

  kept-complete_locked :
      (id sid : String) (o : Outcome) (now : ℕ) (m : Manager S) (t : Task)
      → has k m.tasks ≡ true
      → has k (Lifecycle.complete_locked store id sid o now m t).0.tasks ≡ true
  unfolding Lifecycle.complete_locked
  kept-complete_locked id sid o now m t h = grind (arith, has-commit)

  Kept-start : (id sid : String) (now : ℕ) (m : Manager S) → Kept (start id sid) now m
  unfolding apply Lifecycle.start_subtask
  Kept-start id sid now m h = grind (arith, has-persist)

  Kept-reassign :
      (id sid : String) (a : Assignment) (now : ℕ) (m : Manager S) → Kept (reassign id sid a) now m
  unfolding apply Lifecycle.reassign_subtask
  Kept-reassign id sid a now m h = grind (arith, has-persist)

  Kept-complete :
      (id sid : String) (o : Outcome) (now : ℕ) (m : Manager S) → Kept (complete id sid o) now m
  unfolding apply Lifecycle.complete_subtask
  Kept-complete id sid o now m h = grind (arith, kept-complete_locked)

  Kept-approve : (id : String) (now : ℕ) (m : Manager S) → Kept (approve id) now m
  unfolding apply Lifecycle.approve
  Kept-approve id now m h = grind (arith, has-commit)

  Kept-synthesis :
      (id : String) (o : Outcome) (now : ℕ) (m : Manager S) → Kept (finish_synthesis id o) now m
  unfolding apply Lifecycle.finish_synthesis
  Kept-synthesis id o now m h = grind (arith, has-commit)

  Kept-resume : (id : String) (now : ℕ) (m : Manager S) → Kept (resume id) now m
  unfolding apply Lifecycle.resume
  Kept-resume id now m h = grind (arith, has-commit)

  Kept-begin :
      (id sid : String) (a : Assignment) (now : ℕ) (m : Manager S)
      → Kept (begin_attempt id sid a) now m
  unfolding apply Attempts.begin_attempt
  Kept-begin id sid a now m h = grind (arith, has-persist)

  Kept-finish :
      (id sid : String) (n : ℕ) (s : DispatchAttemptStatus) (r : Report) (now : ℕ) (m : Manager S)
      → Kept (finish_attempt id sid n s r) now m
  unfolding apply Attempts.finish_attempt
  Kept-finish id sid n s r now m h = grind (arith, has-persist)

  Kept-complete_attempt :
      (id sid : String) (n : ℕ) (a : Option Assignment) (r : Report) (text : String) (now : ℕ)
      (m : Manager S)
      → Kept (complete_attempt id sid n a r text) now m
  unfolding apply Attempts.complete_attempt
  Kept-complete_attempt id sid n a r text now m h =
      grind (arith, has-persist, kept-complete_locked, has-put)

  -- A task that stands in the table stays there through every operation.
  pub apply-has :
      (op : Operation) (now : ℕ) (m : Manager S)
      → has k m.tasks ≡ true
      → has k (apply store graph_of op now m).tasks ≡ true
  apply-has (create d g a b) now m = Kept-create d g a b now m
  apply-has (cancel id) now m = Kept-cancel id now m
  apply-has (start id sid) now m = Kept-start id sid now m
  apply-has (reassign id sid a) now m = Kept-reassign id sid a now m
  apply-has (complete id sid o) now m = Kept-complete id sid o now m
  apply-has (approve id) now m = Kept-approve id now m
  apply-has (finish_synthesis id o) now m = Kept-synthesis id o now m
  apply-has (resume id) now m = Kept-resume id now m
  apply-has (begin_attempt id sid a) now m = Kept-begin id sid a now m
  apply-has (finish_attempt id sid n s r) now m = Kept-finish id sid n s r now m
  apply-has (complete_attempt id sid n a r text) now m =
      Kept-complete_attempt id sid n a r text now m
