-- ===== src/TaskManager/Attempts/Winning.antt =====
-- internal/taskmgr/dispatch_attempts.go: the same for an attempt that succeeds.
use m_aistr.Prelude.{ℕ, String, ◌≡◌, refl, Bool, Option, none, some, if_elim, find}
use m_aistr.Prelude.Dict.{get}
use m_aistr.Scheduler.Model.{Assignment}
use m_aistr.TaskManager.Model.{
  Task, SubtaskResult, DispatchAttempt, DispatchAttemptStatus, is_attempt_running,
}
use m_aistr.TaskManager.Persist.{Store, Manager}
use m_aistr.TaskManager.Transitions.{has_id}
use m_aistr.TaskManager.Lifecycle.{Next}
use m_aistr.TaskManager.Lifecycle.Preservation.{find-unfinished}
use m_aistr.TaskManager.Attempts.{
  Report, has_number, complete_attempt_on, complete_on, complete_found, complete_attempt,
  close_subtasks,
}
use m_aistr.TaskManager.Attempts.Preservation.{settle-each, closed-unfinished, running-unfinished}
use m_aistr.TaskManager.Keeps.{Keeps, EachTask}

module _ {S : Type 0} (store : Store S) {P : String → Task → Type 0} {F : String → Type 0}
    (keeps : Keeps P F) where
  attempt_on-each :
      (id sid : String) (n : ℕ) (a : Option Assignment) (rep : Report) (text : String) (now : ℕ)
      (m : Manager S) (t : Task) (r : SubtaskResult) (o : Option DispatchAttempt)
      → find (has_id sid) t.subtasks ≡ some r
      → P id t
      → EachTask P m.tasks
      → EachTask P (complete_attempt_on store id sid n a rep text now m t r o).0.tasks
  unfolding complete_attempt_on
  attempt_on-each id sid n a rep text now m t r none e p h = h
  attempt_on-each id sid n a rep text now m t r (some x) e p h =
      if_elim {A = Manager S × Bool × Next} (λ y. EachTask P y.0.tasks)
        (is_attempt_running x.status)
        (λ _.
          settle-each store keeps id sid a text now m
            (close_subtasks sid n DispatchAttemptStatus.succeeded rep now t) r
            (λ w.
              closed-unfinished sid n DispatchAttemptStatus.succeeded rep now t
                (find-unfinished (has_id sid) t.subtasks {r = r} e (running-unfinished r w)))
            (keeps.close id sid n DispatchAttemptStatus.succeeded rep now t p) h)
        (λ _. h)

  complete_on-each :
      (id sid : String) (n : ℕ) (a : Option Assignment) (rep : Report) (text : String) (now : ℕ)
      (m : Manager S) (t : Task) (o : Option SubtaskResult)
      → find (has_id sid) t.subtasks ≡ o
      → P id t
      → EachTask P m.tasks
      → EachTask P (complete_on store id sid n a rep text now m t o).0.tasks
  unfolding complete_on
  complete_on-each id sid n a rep text now m t none e p h = h
  complete_on-each id sid n a rep text now m t (some r) e p h =
      attempt_on-each id sid n a rep text now m t r (find (has_number n) r.attempts) e p h

  complete_found-each :
      (id sid : String) (n : ℕ) (a : Option Assignment) (rep : Report) (text : String) (now : ℕ)
      (m : Manager S) (o : Option Task)
      → ((x : Task) → o ≡ some x → P id x)
      → EachTask P m.tasks
      → EachTask P (complete_found store id sid n a rep text now m o).0.tasks
  unfolding complete_found
  complete_found-each id sid n a rep text now m none k h = h
  complete_found-each id sid n a rep text now m (some t) k h =
      complete_on-each id sid n a rep text now m t (find (has_id sid) t.subtasks) refl (k t refl) h

  pub complete_attempt-each :
      (id sid : String) (n : ℕ) (a : Option Assignment) (rep : Report) (text : String) (now : ℕ)
      (m : Manager S)
      → EachTask P m.tasks
      → EachTask P (complete_attempt store id sid n a rep text now m).0.tasks
  unfolding complete_attempt
  complete_attempt-each id sid n a rep text now m h =
      complete_found-each id sid n a (record rep { error = none }) text now m (get id m.tasks)
        (h id) h
