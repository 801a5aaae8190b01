-- ===== src/TaskManager/Consistency/Steps.antt =====
-- internal/taskmgr/lifecycle.go and checkpoint.go: what each transition does to the agreement of a
-- task's state with those of its subtasks.
use m_aistr.Prelude.{
  ℕ, String, Bool, true, false, ◌||◌, ◌≡◌, refl, inl, inr, Option, some, List, [], ◌∷◌, map, any,
  find, update_first, if◌then◌else◌, arith, Bool-cases,
}
use m_aistr.Scheduler.Model.{Assignment}
use m_aistr.Scheduler.Graph.{TaskGraph}
use m_aistr.TaskManager.Model.{
  Status, pending, running, synthesizing, awaiting_approval, completed, failed, cancelled, Task,
  SubtaskResult, is_completed, is_failed, is_cancelled, is_awaiting_approval, is_synthesizing,
  is_unfinished, aggregate_outputs,
}
use m_aistr.TaskManager.Transitions.{
  Outcome, output, failure, has_id, is_terminal, new_task, cancel_task, start_task, start_result,
  reassign_task, complete_task, record_outcome, finish_status, roll_up, all_done, approve_task,
  synthesis_task, resume_task,
}
use m_aistr.TaskManager.Consistency.Lists.{
  allowed, all_allowed, allowed_active, find-allowed, update_first-allowed, map-allowed,
  any-allowed, all-allowed_mono,
}

unfoldable pub IsConsistent : Task → Type 0
IsConsistent t = all_allowed t.status t.subtasks ≡ true

all-pending :
    (f : Assignment → SubtaskResult)
    → ((a : Assignment) → (f a).status ≡ pending)
    → (as' : List Assignment) → all_allowed running (map f as') ≡ true
unfolding allowed
all-pending f k [] = refl
all-pending f k (a ∷ as') = ground (arith, k a, all-pending f k as')

pub new_task-IsConsistent :
    (id description : String) (g : Option TaskGraph) (as' : List Assignment) (b : Bool) (now : ℕ)
    → IsConsistent (new_task id description g as' b now)
unfolding IsConsistent new_task
new_task-IsConsistent id description g [] b now = refl
new_task-IsConsistent id description g (a ∷ as') b now = all-pending _ (λ x. refl) (a ∷ as')

cancel-allowed :
    (s u : Status)
    → is_terminal s ≡ false
    → allowed s u ≡ true
    → allowed cancelled (if is_unfinished u then cancelled else u) ≡ true
unfolding allowed
cancel-allowed s u h k = ground arith

pub cancel_task-IsConsistent :
    (now : ℕ) (t : Task)
    → is_terminal t.status ≡ false
    → IsConsistent t
    → IsConsistent (cancel_task now t)
unfolding IsConsistent cancel_task
cancel_task-IsConsistent now t e h =
    map-allowed t.status cancelled _ t.subtasks
      (λ r k. ground (arith, cancel-allowed t.status r.status)) h

-- The subtask that is found is unfinished, so the task is at work.
pub start_task-IsConsistent :
    (sid : String) (now : ℕ) (t : Task) (r : SubtaskResult)
    → find (has_id sid) t.subtasks ≡ some r
    → is_unfinished r.status ≡ true
    → IsConsistent t
    → IsConsistent (start_task sid now t)
unfolding IsConsistent start_task
start_task-IsConsistent sid now t r e u h =
    update_first-allowed t.status (has_id sid) start_result t.subtasks
      (λ x _.
        allowed_active t.status r.status running (find-allowed t.status (has_id sid) t.subtasks h e)
          u (unfold allowed in refl))
      h

pub reassign_task-IsConsistent :
    (sid : String) (a : Assignment) (now : ℕ) (t : Task)
    → IsConsistent t
    → IsConsistent (reassign_task sid a now t)
unfolding IsConsistent reassign_task
reassign_task-IsConsistent sid a now t h =
    update_first-allowed t.status (has_id sid) _ t.subtasks (λ x k. k) h

outcome-allowed :
    (outcome : Outcome) (r : SubtaskResult)
    → allowed running (record_outcome outcome r).status ≡ true
unfolding allowed record_outcome
outcome-allowed (output text) r = refl
outcome-allowed (failure e) r = refl

-- With every subtask finished and none cancelled, each has completed or failed.
done-allowed :
    (s u : Status)
    → allowed s u ≡ true
    → is_unfinished u ≡ false
    → is_cancelled s ≡ false
    → allowed failed u ≡ true
unfolding allowed
done-allowed s u h d c = ground arith

all_done-allowed :
    (s : Status) (rs : List SubtaskResult)
    → is_cancelled s ≡ false
    → all_allowed s rs ≡ true
    → all_done rs ≡ true
    → all_allowed failed rs ≡ true
unfolding all_done
all_done-allowed s [] c h d = refl
all_done-allowed s (r ∷ rs) c h d = ground (arith, done-allowed s r.status, all_done-allowed s rs)

unfailed-allowed :
    (u : Status) → allowed failed u ≡ true → is_failed u ≡ false → is_completed u ≡ true
unfolding allowed
unfailed-allowed u h k = ground arith

all-unfailed :
    (s : Status) (rs : List SubtaskResult)
    → ((u : Status) → is_completed u ≡ true → allowed s u ≡ true)
    → all_allowed failed rs ≡ true
    → any (λ r. is_failed r.status) rs ≡ false
    → all_allowed s rs ≡ true
all-unfailed s [] k h d = refl
all-unfailed s (r ∷ rs) k h d =
    ground (arith, unfailed-allowed r.status, k r.status, all-unfailed s rs k)

finish_status-allowed :
    (b : Bool) (t : Task)
    → all_allowed failed t.subtasks ≡ true
    → all_allowed (finish_status b t).status (finish_status b t).subtasks ≡ true
unfolding finish_status allowed
finish_status-allowed b t h = ground (
  arith,
  all-unfailed completed t.subtasks (λ u k. k),
  all-unfailed synthesizing t.subtasks (λ u k. k),
  all-unfailed awaiting_approval t.subtasks (λ u k. k),
)

running-not_cancelled : (s : Status) → allowed s running ≡ true → is_cancelled s ≡ false
unfolding allowed
running-not_cancelled s h = ground arith

roll_up-IsConsistent :
    (b : Bool) (t : Task)
    → is_cancelled t.status ≡ false
    → IsConsistent t
    → IsConsistent (roll_up b t)
unfolding IsConsistent roll_up
roll_up-IsConsistent b t c h = elim (Bool-cases (all_done t.subtasks)) [
  | inl d ↦ rw d (
      finish_status-allowed b (record t { result = aggregate_outputs t.subtasks })
        (all_done-allowed t.status t.subtasks c h d))
  | inr d ↦ rw d h
]

outcome-IsConsistent :
    (sid : String) (outcome : Outcome) (t : Task)
    → allowed t.status running ≡ true
    → IsConsistent t
    → IsConsistent
        (record t { subtasks = update_first (has_id sid) (record_outcome outcome) t.subtasks })
unfolding IsConsistent
outcome-IsConsistent sid outcome t k h =
    update_first-allowed t.status (has_id sid) (record_outcome outcome) t.subtasks
      (λ x _.
        allowed_active t.status running (record_outcome outcome x).status k refl
          (outcome-allowed outcome x))
      h

-- An unfinished subtask shows that the task is at work.
pub complete_task-IsConsistent :
    (b : Bool) (sid : String) (outcome : Outcome) (now : ℕ) (t : Task)
    → any (λ r. is_unfinished r.status) t.subtasks ≡ true
    → IsConsistent t
    → IsConsistent (complete_task b sid outcome now t)
unfolding complete_task IsConsistent
complete_task-IsConsistent b sid outcome now t u h =
    let k = any-allowed t.status t.subtasks h u in
    roll_up-IsConsistent b
      (record t { subtasks = update_first (has_id sid) (record_outcome outcome) t.subtasks })
      (running-not_cancelled t.status k) (outcome-IsConsistent sid outcome t k h)

awaiting-all :
    (s u : Status)
    → is_awaiting_approval s || is_synthesizing s ≡ true
    → allowed s u ≡ true
    → (v : Status) → (is_completed v || is_synthesizing v || is_failed v) ≡ true
    → allowed v u ≡ true
unfolding allowed
awaiting-all s u h k v l = ground arith

pub approve_task-IsConsistent :
    (b : Bool) (now : ℕ) (t : Task)
    → is_awaiting_approval t.status ≡ true
    → IsConsistent t
    → IsConsistent (approve_task b now t)
unfolding IsConsistent approve_task
approve_task-IsConsistent true now t a h =
    all-allowed_mono t.status synthesizing t.subtasks
      (λ r k. awaiting-all t.status r.status (ground arith) k synthesizing refl) h
approve_task-IsConsistent false now t a h =
    all-allowed_mono t.status completed t.subtasks
      (λ r k. awaiting-all t.status r.status (ground arith) k completed refl) h

synthesis_failed :
    (t : Task)
    → is_synthesizing t.status ≡ true
    → IsConsistent t
    → all_allowed failed t.subtasks ≡ true
unfolding IsConsistent
synthesis_failed t a h =
    all-allowed_mono t.status failed t.subtasks
      (λ r k. awaiting-all t.status r.status (ground arith) k failed refl) h

synthesis_completed :
    (t : Task)
    → is_synthesizing t.status ≡ true
    → IsConsistent t
    → all_allowed completed t.subtasks ≡ true
unfolding IsConsistent
synthesis_completed t a h =
    all-allowed_mono t.status completed t.subtasks
      (λ r k. awaiting-all t.status r.status (ground arith) k completed refl) h

pub synthesis_task-IsConsistent :
    (answer : Outcome) (now : ℕ) (t : Task)
    → is_synthesizing t.status ≡ true
    → IsConsistent t
    → IsConsistent (synthesis_task answer now t)
unfolding IsConsistent synthesis_task
synthesis_task-IsConsistent (failure e) now t a h = synthesis_failed t a h
synthesis_task-IsConsistent (output text) now t a h =
    ground (arith, synthesis_failed t, synthesis_completed t)

reset-allowed : (s u : Status) → allowed running (if is_completed u then u else pending) ≡ true
unfolding allowed
reset-allowed s u = ground arith

pub resume_task-IsConsistent :
    (now : ℕ) (t : Task) → IsConsistent t → IsConsistent (resume_task now t)
unfolding IsConsistent resume_task
resume_task-IsConsistent now t h =
    map-allowed t.status running _ t.subtasks
      (λ r k. ground (arith, reset-allowed t.status r.status)) h
