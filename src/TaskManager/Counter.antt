-- ===== src/TaskManager/Counter.antt =====
-- internal/taskmgr: the counter that task ids come from, under the operations.
use m_aistr.Prelude.{ℕ, suc, String, ◌≡◌, ◌⊎◌, inl, inr, Bool, Option, List, arith}
use m_aistr.Scheduler.Model.{Subtask, Assignment}
use m_aistr.Scheduler.Graph.{TaskGraph}
use m_aistr.TaskManager.Model.{Task, DispatchAttemptStatus}
use m_aistr.TaskManager.Persist.{Store, Manager}
use m_aistr.TaskManager.Lifecycle
use m_aistr.TaskManager.Attempts
use m_aistr.TaskManager.Attempts.{Report}
use m_aistr.TaskManager.Transitions.{Outcome, output}
use m_aistr.TaskManager.Writes.{seq-persist, seq-commit, seq-persist_task_and_checkpoint}
use m_aistr.TaskManager.Operations.{
  Operation, create, cancel, start, reassign, complete, approve, finish_synthesis, resume,
  begin_attempt, finish_attempt, complete_attempt, apply,
}

module _ {S : Type 0} (store : Store S) (graph_of : List Subtask → Option TaskGraph) where
  pub seq-create :
      (d : String) (g : Option TaskGraph) (as' : List Assignment) (b : Bool) (now : ℕ)
      (m : Manager S)
      → (apply store graph_of (create d g as' b) now m).seq ≡ suc m.seq
  unfolding apply Lifecycle.create
  seq-create d g as' b now m =
      grind (arith, seq-persist, seq-commit, seq-persist_task_and_checkpoint)

  seq-complete_locked :
      (id sid : String) (o : Outcome) (now : ℕ) (m : Manager S) (t : Task)
      → (Lifecycle.complete_locked store id sid o now m t).0.seq ≡ m.seq
  unfolding Lifecycle.complete_locked
  seq-complete_locked id sid o now m t = grind (arith, seq-commit)

  abbrev Same : Operation → ℕ → Manager S → Type 0
  Same op now m = (apply store graph_of op now m).seq ≡ m.seq

  seq-lifecycle :
      (id sid : String) (o : Outcome) (now : ℕ) (m : Manager S)
      → Same (cancel id) now m
        × Same (start id sid) now m
        × Same (approve id) now m
        × Same (finish_synthesis id o) now m
        × Same (resume id) now m
  unfolding apply Lifecycle.cancel Lifecycle.start_subtask Lifecycle.approve
      Lifecycle.finish_synthesis Lifecycle.resume
  seq-lifecycle id sid o now m = (
    grind (arith, seq-commit),
    grind (arith, seq-persist),
    grind (arith, seq-commit),
    grind (arith, seq-commit),
    grind (arith, seq-commit),
  )

  seq-reassign :
      (id sid : String) (a : Assignment) (now : ℕ) (m : Manager S) → Same (reassign id sid a) now m
  unfolding apply Lifecycle.reassign_subtask
  seq-reassign id sid a now m = grind (arith, seq-persist)

  seq-complete :
      (id sid : String) (o : Outcome) (now : ℕ) (m : Manager S) → Same (complete id sid o) now m
  unfolding apply Lifecycle.complete_subtask
  seq-complete id sid o now m = grind (arith, seq-complete_locked)

  seq-begin_attempt :
      (id sid : String) (a : Assignment) (now : ℕ) (m : Manager S)
      → Same (begin_attempt id sid a) now m
  unfolding apply Attempts.begin_attempt
  seq-begin_attempt id sid a now m = grind (arith, seq-persist)

  seq-finish_attempt :
      (id sid : String) (n : ℕ) (s : DispatchAttemptStatus) (r : Report) (now : ℕ) (m : Manager S)
      → Same (finish_attempt id sid n s r) now m
  unfolding apply Attempts.finish_attempt
  seq-finish_attempt id sid n s r now m = grind (arith, seq-persist)

  seq-complete_attempt :
      (id sid : String) (n : ℕ) (a : Option Assignment) (r : Report) (text : String) (now : ℕ)
      (m : Manager S)
      → Same (complete_attempt id sid n a r text) now m
  unfolding apply Attempts.complete_attempt
  seq-complete_attempt id sid n a r text now m = grind (arith, seq-persist, seq-complete_locked)

  -- An operation leaves the counter of ids as it is or raises it by one.
  pub seq-apply :
      (op : Operation) (now : ℕ) (m : Manager S)
      → ((apply store graph_of op now m).seq ≡ suc m.seq)
        ⊎ ((apply store graph_of op now m).seq ≡ m.seq)
  seq-apply (create d g a b) now m = inl (seq-create d g a b now m)
  seq-apply (cancel id) now m = inr (seq-lifecycle id id (output "") now m).0
  seq-apply (start id sid) now m = inr (seq-lifecycle id sid (output "") now m).1
  seq-apply (reassign id sid a) now m = inr (seq-reassign id sid a now m)
  seq-apply (complete id sid o) now m = inr (seq-complete id sid o now m)
  seq-apply (approve id) now m = inr (seq-lifecycle id id (output "") now m).2
  seq-apply (finish_synthesis id o) now m = inr (seq-lifecycle id id o now m).3
  seq-apply (resume id) now m = inr (seq-lifecycle id id (output "") now m).4
  seq-apply (begin_attempt id sid a) now m = inr (seq-begin_attempt id sid a now m)
  seq-apply (finish_attempt id sid n s r) now m = inr (seq-finish_attempt id sid n s r now m)
  seq-apply (complete_attempt id sid n a r text) now m =
      inr (seq-complete_attempt id sid n a r text now m)
