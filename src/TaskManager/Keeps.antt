-- ===== src/TaskManager/Keeps.antt =====
-- internal/taskmgr: properties of single tasks that the operations keep. A property fills the
-- record `Keeps`; the operations on the whole manager are then done once for all of them.
use m_aistr.Prelude.{
  ℕ, String, ◌≡◌, refl, subst, Bool, true, false, ◌||◌, Option, some, List, str_eq, eq_iff,
  if◌then◌else◌, find, any,
}
use m_aistr.Prelude.Dict.{Dict, get, put, get-put}
use m_aistr.Scheduler.Model.{Assignment}
use m_aistr.Scheduler.Graph.{TaskGraph}
use m_aistr.TaskManager.Model.{
  Task, SubtaskResult, DispatchAttemptStatus, is_unfinished, is_awaiting_approval, is_synthesizing,
  is_failed, is_cancelled,
}
use m_aistr.TaskManager.Persist.{Store, Manager, stamp, persist, commit}
use m_aistr.TaskManager.Transitions.{
  Outcome, has_id, is_terminal, new_task, cancel_task, start_task, reassign_task, complete_task,
  approve_task, synthesis_task, resume_task,
}
use m_aistr.TaskManager.Attempts.{Report, begin_task, close_subtasks, assign_winner}
use m_aistr.TaskManager.Writes.{
  SameWork, tasks-persist, stamp-SameWork, tasks-commit, commit-SameWork,
}

abbrev pub has_unfinished : Task → Bool
has_unfinished t = any (λ r. is_unfinished r.status) t.subtasks

-- `P k t` is the property of a task `t` that stands under the key `k`, and `F` what is known of the
-- id of a new task.
pub record Keeps (P : String → Task → Type 0) (F : String → Type 0) : Type 0 where
  pub same : (k : String) (t u : Task) → SameWork t u → P k t → P k u
  pub new :
      (k d : String) (g : Option TaskGraph) (as' : List Assignment) (b : Bool) (now : ℕ)
      → F k
      → P k (new_task k d g as' b now)
  pub cancel :
      (k : String) (now : ℕ) (t : Task)
      → is_terminal t.status ≡ false
      → P k t
      → P k (cancel_task now t)
  pub start :
      (k sid : String) (now : ℕ) (t : Task) (r : SubtaskResult)
      → find (has_id sid) t.subtasks ≡ some r
      → is_unfinished r.status ≡ true
      → P k t
      → P k (start_task sid now t)
  pub reassign :
      (k sid : String) (a : Assignment) (now : ℕ) (t : Task)
      → has_unfinished t ≡ true
      → P k t
      → P k (reassign_task sid a now t)
  pub complete :
      (k : String) (b : Bool) (sid : String) (o : Outcome) (now : ℕ) (t : Task)
      → has_unfinished t ≡ true
      → P k t
      → P k (complete_task b sid o now t)
  pub approve :
      (k : String) (b : Bool) (now : ℕ) (t : Task)
      → is_awaiting_approval t.status ≡ true
      → P k t
      → P k (approve_task b now t)
  pub synthesis :
      (k : String) (o : Outcome) (now : ℕ) (t : Task)
      → is_synthesizing t.status ≡ true
      → P k t
      → P k (synthesis_task o now t)
  pub resume :
      (k : String) (now : ℕ) (t : Task)
      → (is_failed t.status || is_cancelled t.status) ≡ true
      → P k t
      → P k (resume_task now t)
  pub begin :
      (k sid : String) (a : Assignment) (now : ℕ) (t : Task)
      → has_unfinished t ≡ true
      → P k t
      → P k (begin_task k sid a now t)
  pub close :
      (k sid : String) (n : ℕ) (s : DispatchAttemptStatus) (r : Report) (now : ℕ) (t : Task)
      → P k t
      → P k (close_subtasks sid n s r now t)
  pub assign :
      (k sid : String) (a : Option Assignment) (t : Task)
      → has_unfinished t ≡ true
      → P k t
      → P k (assign_winner sid a t)

abbrev pub EachTask : (String → Task → Type 0) → Dict Task → Type 0
EachTask P d = (k : String) (u : Task) → get k d ≡ some u → P k u

choose :
    (P : Task → Type 0) (b : Bool) (t : Task) (o : Option Task) {u : Task}
    → (b ≡ true → P t)
    → (o ≡ some u → P u)
    → (if b then some t else o) ≡ some u
    → P u
choose P true t o {u = u} h k e = let e' : t ≡ u = cc in subst P e' (h refl)
choose P false t o h k e = k e

pub put-each :
    (P : String → Task → Type 0) (id : String) (t : Task) (d : Dict Task)
    → P id t
    → EachTask P d
    → EachTask P (put id t d)
put-each P id t d p h k u e =
    choose (P k) (str_eq id k) t (get k d)
      (λ same_key. subst (λ j. P j t) ((eq_iff id k).0 same_key) p) (h k u)
      (rw (get-put id k t d) at e)

module _ {S : Type 0} (store : Store S) {P : String → Task → Type 0} {F : String → Type 0}
    (keeps : Keeps P F) where
  pub persist-EachTask :
      (id : String) (m : Manager S) (t : Task)
      → P id t
      → EachTask P m.tasks
      → EachTask P (persist store id m t).0.tasks
  persist-EachTask id m t p h = rw (tasks-persist store id m t) (
      put-each P id (stamp m t).1 m.tasks
        (keeps.same id t (stamp m t).1 (stamp-SameWork store m t) p) h)

  pub commit-EachTask :
      (id : String) (now : ℕ) (m : Manager S) (t : Task)
      → P id t
      → EachTask P m.tasks
      → EachTask P (commit store id now m t).0.tasks
  commit-EachTask id now m t p h = rw (tasks-commit store id now m t) (
      put-each P id (commit store id now m t).1 m.tasks
        (keeps.same id t (commit store id now m t).1 (commit-SameWork store id now m t) p) h)
