-- ===== src/TaskManager/Attempts/Preservation.antt =====
-- internal/taskmgr/dispatch_attempts.go: what each operation does to a property that single tasks
-- keep.
use m_aistr.Prelude.{
  ℕ, String, ◌≡◌, refl, Bool, true, not, Option, none, some, List, [], ◌∷◌, arith, if_elim, find,
  any, update_first,
}
use m_aistr.Prelude.Dict.{get}
use m_aistr.Scheduler.Model.{Assignment}
use m_aistr.TaskManager.Model.{
  Task, SubtaskResult, DispatchAttempt, DispatchAttemptStatus, is_attempt_running, is_running,
  is_cancelled, is_unfinished, signal_changed,
}
use m_aistr.TaskManager.Persist.{Store, Manager, Err, Result, persist}
use m_aistr.TaskManager.Transitions.{has_id}
use m_aistr.TaskManager.Lifecycle.{Next}
use m_aistr.TaskManager.Lifecycle.Preservation.{find-unfinished, complete_locked-each}
use m_aistr.TaskManager.Attempts.{
  Report, has_number, begin_on, begin_found, begin_attempt, finish_attempt_on, finish_on,
  finish_found, finish_attempt, complete_winner, settle, close_subtasks, close_result,
  assign_winner, is_final,
}
use m_aistr.TaskManager.Writes.{SameWork}
use m_aistr.TaskManager.Keeps.{Keeps, EachTask, has_unfinished, put-each, persist-EachTask}

-- A change that leaves the states of the subtasks leaves an unfinished one among them.
any-update_first :
    (p : SubtaskResult → Bool) (f : SubtaskResult → SubtaskResult) (rs : List SubtaskResult)
    → ((r : SubtaskResult) → (f r).status ≡ r.status)
    → any (λ r. is_unfinished r.status) rs ≡ true
    → any (λ r. is_unfinished r.status) (update_first p f rs) ≡ true
any-update_first p f [] k h = h
any-update_first p f (x ∷ xs) k h = ground (arith, k x, any-update_first p f xs k)

pub closed-unfinished :
    (sid : String) (n : ℕ) (s : DispatchAttemptStatus) (r : Report) (now : ℕ) (t : Task)
    → has_unfinished t ≡ true
    → has_unfinished (close_subtasks sid n s r now t) ≡ true
unfolding close_result
closed-unfinished sid n s r now t h =
    any-update_first (has_id sid) (close_result n s r now) t.subtasks (λ x. refl) h

assigned-unfinished :
    (sid : String) (a : Option Assignment) (t : Task)
    → has_unfinished t ≡ true
    → has_unfinished (assign_winner sid a t) ≡ true
unfolding assign_winner
assigned-unfinished sid none t h = h
assigned-unfinished sid (some a) t h = any-update_first (has_id sid) _ t.subtasks (λ x. refl) h

signal_SameWork : (t : Task) → SameWork t (signal_changed t)
signal_SameWork t = record {
  id = refl;
  status = refl;
  subtasks = refl;
  error = refl;
  result = refl;
}

pub running-unfinished :
    (r : SubtaskResult) → is_running r.status ≡ true → is_unfinished r.status ≡ true
running-unfinished r h = ground arith

module _ {S : Type 0} (store : Store S) {P : String → Task → Type 0} {F : String → Type 0}
    (keeps : Keeps P F) where
  begin_on-each :
      (id sid : String) (a : Assignment) (now : ℕ) (m : Manager S) (t : Task)
      (o : Option SubtaskResult)
      → find (has_id sid) t.subtasks ≡ o
      → P id t
      → EachTask P m.tasks
      → EachTask P (begin_on store id sid a now m t o).0.tasks
  unfolding begin_on
  begin_on-each id sid a now m t none e p h = h
  begin_on-each id sid a now m t (some r) e p h =
      if_elim {A = Manager S × Result ℕ} (λ x. EachTask P x.0.tasks) (is_running r.status)
        (λ w.
          persist-EachTask store keeps id m _
            (keeps.begin id sid a now t
              (find-unfinished (has_id sid) t.subtasks {r = r} e (running-unfinished r w)) p)
            h)
        (λ _. h)

  begin_found-each :
      (id sid : String) (a : Assignment) (now : ℕ) (m : Manager S) (o : Option Task)
      → ((x : Task) → o ≡ some x → P id x)
      → EachTask P m.tasks
      → EachTask P (begin_found store id sid a now m o).0.tasks
  unfolding begin_found
  begin_found-each id sid a now m none k h = h
  begin_found-each id sid a now m (some t) k h =
      begin_on-each id sid a now m t (find (has_id sid) t.subtasks) refl (k t refl) h

  pub begin-each :
      (id sid : String) (a : Assignment) (now : ℕ) (m : Manager S)
      → EachTask P m.tasks
      → EachTask P (begin_attempt store id sid a now m).0.tasks
  unfolding begin_attempt
  begin-each id sid a now m h = begin_found-each id sid a now m (get id m.tasks) (h id) h

  signal_persist-each :
      (id : String) (m : Manager S) (t : Task)
      → P id t
      → EachTask P m.tasks
      → EachTask P (persist store id m (signal_changed t)).0.tasks
  signal_persist-each id m t p h =
      persist-EachTask store keeps id m (signal_changed t)
        (keeps.same id t (signal_changed t) (signal_SameWork t) p) h

  finish_attempt_on-each :
      (id sid : String) (n : ℕ) (s : DispatchAttemptStatus) (r : Report) (now : ℕ) (m : Manager S)
      (t : Task) (o : Option DispatchAttempt)
      → P id t
      → EachTask P m.tasks
      → EachTask P (finish_attempt_on store id sid n s r now m t o).0.tasks
  unfolding finish_attempt_on
  finish_attempt_on-each id sid n s r now m t none p h = h
  finish_attempt_on-each id sid n s r now m t (some a) p h =
      if_elim {A = Manager S × Option Err} (λ x. EachTask P x.0.tasks) (is_attempt_running a.status)
        (λ _. signal_persist-each id m _ (keeps.close id sid n s r now t p) h) (λ _. h)

  finish_on-each :
      (id sid : String) (n : ℕ) (s : DispatchAttemptStatus) (r : Report) (now : ℕ) (m : Manager S)
      (t : Task) (o : Option SubtaskResult)
      → P id t
      → EachTask P m.tasks
      → EachTask P (finish_on store id sid n s r now m t o).0.tasks
  unfolding finish_on
  finish_on-each id sid n s r now m t none p h = h
  finish_on-each id sid n s r now m t (some x) p h =
      finish_attempt_on-each id sid n s r now m t (find (has_number n) x.attempts) p h

  finish_found-each :
      (id sid : String) (n : ℕ) (s : DispatchAttemptStatus) (r : Report) (now : ℕ) (m : Manager S)
      (o : Option Task)
      → ((x : Task) → o ≡ some x → P id x)
      → EachTask P m.tasks
      → EachTask P (finish_found store id sid n s r now m o).0.tasks
  unfolding finish_found
  finish_found-each id sid n s r now m none k h = h
  finish_found-each id sid n s r now m (some t) k h =
      finish_on-each id sid n s r now m t (find (has_id sid) t.subtasks) (k t refl) h

  pub finish-each :
      (id sid : String) (n : ℕ) (s : DispatchAttemptStatus) (r : Report) (now : ℕ) (m : Manager S)
      → EachTask P m.tasks
      → EachTask P (finish_attempt store id sid n s r now m).0.tasks
  unfolding finish_attempt
  finish-each id sid n s r now m h =
      if_elim {A = Manager S × Option Err} (λ x. EachTask P x.0.tasks) (is_final s)
        (λ _. finish_found-each id sid n s r now m (get id m.tasks) (h id) h) (λ _. h)

  winner-each :
      (id sid text : String) (now : ℕ) (m : Manager S) (t : Task) (o : Option SubtaskResult)
      → has_unfinished t ≡ true
      → P id t
      → EachTask P m.tasks
      → EachTask P (complete_winner store id sid text now m t o).0.tasks
  unfolding complete_winner
  winner-each id sid text now m t none u p h = put-each P id t m.tasks p h
  winner-each id sid text now m t (some r) u p h =
      complete_locked-each store keeps id sid _ now m t (λ _ _. u) p h

  pub settle-each :
      (id sid : String) (a : Option Assignment) (text : String) (now : ℕ) (m : Manager S) (t : Task)
      (r : SubtaskResult)
      → (is_running r.status ≡ true → has_unfinished t ≡ true)
      → P id t
      → EachTask P m.tasks
      → EachTask P (settle store id sid a text now m t r).0.tasks
  unfolding settle
  settle-each id sid a text now m t r u p h =
      if_elim {A = Manager S × Bool × Next} (λ x. EachTask P x.0.tasks) (is_cancelled t.status)
        (λ _. signal_persist-each id m t p h)
        (λ _.
          if_elim {A = Manager S × Bool × Next} (λ x. EachTask P x.0.tasks)
            (not (is_running r.status)) (λ _. signal_persist-each id m t p h)
            (λ w.
              winner-each id sid text now m (assign_winner sid a t)
                (find (has_id sid) (assign_winner sid a t).subtasks)
                (assigned-unfinished sid a t (u (ground arith)))
                (keeps.assign id sid a t (u (ground arith)) p) h))
