-- ===== src/TaskManager/Lifecycle/Preservation.antt =====
-- internal/taskmgr/lifecycle.go: what each operation does to a property that single tasks keep.
use m_aistr.Prelude.{
  ℕ, suc, String, ◌≡◌, refl, Bool, true, false, ◌||◌, Option, none, some, List, [], ◌∷◌, arith,
  if_elim, find, any,
}
use m_aistr.Prelude.Dict.{get}
use m_aistr.Scheduler.Model.{Subtask, Assignment}
use m_aistr.Scheduler.Graph.{TaskGraph}
use m_aistr.TaskManager.Model.{Task, SubtaskResult, is_cancelled, is_unfinished}
use m_aistr.TaskManager.Ids.{gen_id}
use m_aistr.TaskManager.Persist.{Store, Manager, Err, persist_task_and_checkpoint}
use m_aistr.TaskManager.Transitions
use m_aistr.TaskManager.Transitions.{
  Outcome, has_id, is_terminal, new_task, cancel_task, start_task, reassign_task, complete_task,
  approve_task, synthesis_task, resume_task,
}
use m_aistr.TaskManager.Lifecycle.{
  Next, graph_for, admit, create, cancel_found, cancel, start_result, start_found, start_subtask,
  reassign_result, reassign_found, reassign_subtask, complete_result, complete_locked,
  complete_found, complete_subtask,
}
use m_aistr.TaskManager.Writes.{
  persist_task_and_checkpoint-SameWork, tasks-persist_task_and_checkpoint,
}
use m_aistr.TaskManager.Keeps.{
  Keeps, EachTask, has_unfinished, put-each, persist-EachTask, commit-EachTask,
}

-- A subtask that is found and unfinished is one of the task's.
pub find-unfinished :
    (p : SubtaskResult → Bool) (rs : List SubtaskResult) {r : SubtaskResult}
    → find p rs ≡ some r
    → is_unfinished r.status ≡ true
    → any (λ x. is_unfinished x.status) rs ≡ true
find-unfinished p [] e h = ground arith
find-unfinished p (x ∷ xs) {r = r} e h = ground (arith, find-unfinished p xs {r = r})

unfinished_of_find :
    (sid : String) (t : Task) {r : SubtaskResult}
    → find (has_id sid) t.subtasks ≡ some r
    → Transitions.subtask_finished sid t ≡ false
    → has_unfinished t ≡ true
unfolding Transitions.subtask_finished
unfinished_of_find sid t {r = r} e h =
    find-unfinished (has_id sid) t.subtasks {r = r} e (ground arith)

module _ {S : Type 0} (store : Store S) {P : String → Task → Type 0} {F : String → Type 0}
    (keeps : Keeps P F) where
  admit-each :
      (id : String) (m : Manager S) (t : Task) (e : Option Err)
      → P id t
      → EachTask P m.tasks
      → EachTask P (admit store id m t e).0.tasks
  unfolding admit
  admit-each id m t (some e) p h = h
  admit-each id m t none p h = put-each P id t m.tasks p h

  pub create-each :
      (graph_of : List Subtask → Option TaskGraph) (d : String) (g : Option TaskGraph)
      (as' : List Assignment) (b : Bool) (now : ℕ) (m : Manager S)
      → F (gen_id (suc m.seq))
      → EachTask P m.tasks
      → EachTask P (create store graph_of d g as' b now m).0.tasks
  unfolding create
  create-each graph_of d g as' b now m fresh h =
      let id = gen_id (suc m.seq) in
      let t = new_task id d (graph_for store graph_of g as') as' b now in
      let m' : Manager S = record m { seq = suc m.seq } in
      let r = persist_task_and_checkpoint store now m' t in
      admit-each id r.0 r.1 r.2
        (keeps.same id t r.1 (persist_task_and_checkpoint-SameWork store now m' t)
          (keeps.new id d (graph_for store graph_of g as') as' b now fresh))
        (rw (tasks-persist_task_and_checkpoint store now m' t) h)

  cancel_found-each :
      (id : String) (now : ℕ) (m : Manager S) (o : Option Task)
      → ((t : Task) → o ≡ some t → P id t)
      → EachTask P m.tasks
      → EachTask P (cancel_found store id now m o).0.tasks
  unfolding cancel_found
  cancel_found-each id now m none k h = h
  cancel_found-each id now m (some t) k h =
      if_elim {A = Manager S × Option Task × Bool × Option Err} (λ r. EachTask P r.0.tasks)
        (is_terminal t.status) (λ _. h)
        (λ f. commit-EachTask store keeps id now m _ (keeps.cancel id now t f (k t refl)) h)

  pub cancel-each :
      (id : String) (now : ℕ) (m : Manager S)
      → EachTask P m.tasks
      → EachTask P (cancel store id now m).0.tasks
  unfolding cancel
  cancel-each id now m h = cancel_found-each id now m (get id m.tasks) (h id) h

  start_result-each :
      (id sid : String) (now : ℕ) (m : Manager S) (t : Task) (o : Option SubtaskResult)
      → find (has_id sid) t.subtasks ≡ o
      → P id t
      → EachTask P m.tasks
      → EachTask P (start_result store id sid now m t o).0.tasks
  unfolding start_result
  start_result-each id sid now m t none e p h = h
  start_result-each id sid now m t (some r) e p h =
      if_elim {A = Manager S × Option Err} (λ r. EachTask P r.0.tasks) (is_unfinished r.status)
        (λ u. persist-EachTask store keeps id m _ (keeps.start id sid now t r e u p) h) (λ _. h)

  start_found-each :
      (id sid : String) (now : ℕ) (m : Manager S) (o : Option Task)
      → ((t : Task) → o ≡ some t → P id t)
      → EachTask P m.tasks
      → EachTask P (start_found store id sid now m o).0.tasks
  unfolding start_found
  start_found-each id sid now m none k h = h
  start_found-each id sid now m (some t) k h =
      if_elim {A = Manager S × Option Err} (λ r. EachTask P r.0.tasks) (is_cancelled t.status)
        (λ _. h)
        (λ _. start_result-each id sid now m t (find (has_id sid) t.subtasks) refl (k t refl) h)

  pub start-each :
      (id sid : String) (now : ℕ) (m : Manager S)
      → EachTask P m.tasks
      → EachTask P (start_subtask store id sid now m).0.tasks
  unfolding start_subtask
  start-each id sid now m h = start_found-each id sid now m (get id m.tasks) (h id) h

  reassign_result-each :
      (id sid : String) (a : Assignment) (now : ℕ) (m : Manager S) (t : Task)
      (o : Option SubtaskResult)
      → find (has_id sid) t.subtasks ≡ o
      → P id t
      → EachTask P m.tasks
      → EachTask P (reassign_result store id sid a now m t o).0.tasks
  unfolding reassign_result
  reassign_result-each id sid a now m t none e p h = h
  reassign_result-each id sid a now m t (some r) e p h =
      if_elim {A = Manager S × Option Err} (λ r. EachTask P r.0.tasks) (is_unfinished r.status)
        (λ u.
          persist-EachTask store keeps id m _
            (keeps.reassign id sid a now t (find-unfinished (has_id sid) t.subtasks {r = r} e u) p)
            h)
        (λ _. h)

  reassign_found-each :
      (id sid : String) (a : Assignment) (now : ℕ) (m : Manager S) (o : Option Task)
      → ((t : Task) → o ≡ some t → P id t)
      → EachTask P m.tasks
      → EachTask P (reassign_found store id sid a now m o).0.tasks
  unfolding reassign_found
  reassign_found-each id sid a now m none k h = h
  reassign_found-each id sid a now m (some t) k h =
      reassign_result-each id sid a now m t (find (has_id sid) t.subtasks) refl (k t refl) h

  pub reassign-each :
      (id sid : String) (a : Assignment) (now : ℕ) (m : Manager S)
      → EachTask P m.tasks
      → EachTask P (reassign_subtask store id sid a now m).0.tasks
  unfolding reassign_subtask
  reassign-each id sid a now m h = reassign_found-each id sid a now m (get id m.tasks) (h id) h

  complete_result-each :
      (id sid : String) (o : Outcome) (now : ℕ) (m : Manager S) (t : Task)
      (r : Option SubtaskResult)
      → ((x : SubtaskResult) → r ≡ some x → has_unfinished t ≡ true)
      → P id t
      → EachTask P m.tasks
      → EachTask P (complete_result store id sid o now m t r).0.tasks
  unfolding complete_result
  complete_result-each id sid o now m t none u p h = h
  complete_result-each id sid o now m t (some r) u p h =
      commit-EachTask store keeps id now m _
        (keeps.complete id m.has_finalizer sid o now t (u r refl) p) h

  pub complete_locked-each :
      (id sid : String) (o : Outcome) (now : ℕ) (m : Manager S) (t : Task)
      → ((x : SubtaskResult) → find (has_id sid) t.subtasks ≡ some x → has_unfinished t ≡ true)
      → P id t
      → EachTask P m.tasks
      → EachTask P (complete_locked store id sid o now m t).0.tasks
  unfolding complete_locked
  complete_locked-each id sid o now m t u p h =
      complete_result-each id sid o now m t (find (has_id sid) t.subtasks) u p h

  complete_found-each :
      (id sid : String) (o : Outcome) (now : ℕ) (m : Manager S) (t : Option Task)
      → ((x : Task) → t ≡ some x → P id x)
      → EachTask P m.tasks
      → EachTask P (complete_found store id sid o now m t).0.tasks
  unfolding complete_found
  complete_found-each id sid o now m none k h = h
  complete_found-each id sid o now m (some t) k h =
      if_elim {A = Manager S × Next} (λ r. EachTask P r.0.tasks)
        (is_cancelled t.status || Transitions.subtask_finished sid t) (λ _. h)
        (λ f.
          complete_locked-each id sid o now m t
            (λ x e. unfinished_of_find sid t {r = x} e (ground arith)) (k t refl) h)

  pub complete-each :
      (id sid : String) (o : Outcome) (now : ℕ) (m : Manager S)
      → EachTask P m.tasks
      → EachTask P (complete_subtask store id sid o now m).0.tasks
  unfolding complete_subtask
  complete-each id sid o now m h = complete_found-each id sid o now m (get id m.tasks) (h id) h
