-- ===== src/TaskManager/Lifecycle/Closing.antt =====
-- internal/taskmgr/lifecycle.go and checkpoint.go: the same for approval, synthesis and resumption.
use m_aistr.Prelude.{
  ℕ, String, ◌≡◌, refl, true, false, not, ◌&&◌, ◌||◌, Option, none, some, arith, if_elim,
}
use m_aistr.Prelude.Dict.{get}
use m_aistr.TaskManager.Model.{
  Task, is_completed, is_failed, is_cancelled, is_awaiting_approval, is_synthesizing,
}
use m_aistr.TaskManager.Persist.{Store, Manager, Err, Result}
use m_aistr.TaskManager.Transitions.{Outcome}
use m_aistr.TaskManager.Lifecycle.{
  Next, approve_found, approve, synthesis_found, finish_synthesis, resume_found, resume,
}
use m_aistr.TaskManager.Keeps.{Keeps, EachTask, commit-EachTask}

stopped_of_resumable :
    (t : Task)
    → (not (is_failed t.status) && not (is_cancelled t.status)) ≡ false
    → (is_failed t.status || is_cancelled t.status) ≡ true
stopped_of_resumable t a = ground arith

module _ {S : Type 0} (store : Store S) {P : String → Task → Type 0} {F : String → Type 0}
    (keeps : Keeps P F) where
  approve_found-each :
      (id : String) (now : ℕ) (m : Manager S) (t : Option Task)
      → ((x : Task) → t ≡ some x → P id x)
      → EachTask P m.tasks
      → EachTask P (approve_found store id now m t).0.tasks
  unfolding approve_found
  approve_found-each id now m none k h = h
  approve_found-each id now m (some t) k h =
      if_elim {A = Manager S × Next} (λ r. EachTask P r.0.tasks) (is_awaiting_approval t.status)
        (λ w.
          commit-EachTask store keeps id now m _
            (keeps.approve id m.has_finalizer now t w (k t refl)) h)
        (λ _. h)

  pub approve-each :
      (id : String) (now : ℕ) (m : Manager S)
      → EachTask P m.tasks
      → EachTask P (approve store id now m).0.tasks
  unfolding approve
  approve-each id now m h = approve_found-each id now m (get id m.tasks) (h id) h

  synthesis_found-each :
      (id : String) (o : Outcome) (now : ℕ) (m : Manager S) (t : Option Task)
      → ((x : Task) → t ≡ some x → P id x)
      → EachTask P m.tasks
      → EachTask P (synthesis_found store id o now m t).0.tasks
  unfolding synthesis_found
  synthesis_found-each id o now m none k h = h
  synthesis_found-each id o now m (some t) k h =
      if_elim {A = Manager S × Option Err} (λ r. EachTask P r.0.tasks) (is_synthesizing t.status)
        (λ w. commit-EachTask store keeps id now m _ (keeps.synthesis id o now t w (k t refl)) h)
        (λ _. h)

  pub synthesis-each :
      (id : String) (o : Outcome) (now : ℕ) (m : Manager S)
      → EachTask P m.tasks
      → EachTask P (finish_synthesis store id o now m).0.tasks
  unfolding finish_synthesis
  synthesis-each id o now m h = synthesis_found-each id o now m (get id m.tasks) (h id) h

  resume_found-each :
      (id : String) (now : ℕ) (m : Manager S) (t : Option Task)
      → ((x : Task) → t ≡ some x → P id x)
      → EachTask P m.tasks
      → EachTask P (resume_found store id now m t).0.tasks
  unfolding resume_found
  resume_found-each id now m none k h = h
  resume_found-each id now m (some t) k h =
      if_elim {A = Manager S × Result Task} (λ r. EachTask P r.0.tasks) (is_completed t.status)
        (λ _. h)
        (λ _.
          if_elim {A = Manager S × Result Task} (λ r. EachTask P r.0.tasks) (not t.resumable)
            (λ _. h)
            (λ _.
              if_elim {A = Manager S × Result Task} (λ r. EachTask P r.0.tasks)
                (not (is_failed t.status) && not (is_cancelled t.status)) (λ _. h)
                (λ w.
                  commit-EachTask store keeps id now m _
                    (keeps.resume id now t (stopped_of_resumable t w) (k t refl)) h)))

  pub resume-each :
      (id : String) (now : ℕ) (m : Manager S)
      → EachTask P m.tasks
      → EachTask P (resume store id now m).0.tasks
  unfolding resume
  resume-each id now m h = resume_found-each id now m (get id m.tasks) (h id) h
