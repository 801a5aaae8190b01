-- ===== src/TaskManager/Recovery/Loaded.antt =====
-- internal/taskmgr/recovery.go: a loaded task has nothing left that runs.
use m_aistr.Prelude.{
  All, ◌≢◌, sym, subst, ℕ, String, ◌≡◌, refl, ap, Bool, true, false, ◌||◌, List, [], ◌∷◌, map, any,
  arith, if◌then◌else◌, if_elim,
}
use m_aistr.TaskManager.Model.{
  Status, pending, running, synthesizing, awaiting_approval, completed, failed, cancelled,
  DispatchAttemptStatus, Task, SubtaskResult, DispatchAttempt, is_attempt_running, is_unfinished,
}
use m_aistr.TaskManager.Frontier.{checkpoint_for_task}
use m_aistr.TaskManager.Persist.{Manager}
use m_aistr.TaskManager.Consistency.Lists.{allowed, all_allowed, map-allowed}
use m_aistr.TaskManager.Consistency.Steps.{IsConsistent}
use m_aistr.TaskManager.Recovery.{
  load_request_id, load_running, load_attempts, interrupt_result, is_interrupted, settle_loaded,
  mend_task, history_changed, load_origin, load_restamp, checkpoint_loaded, load_task,
}

-- The states of a task that no process is at work on, told one by one.
abbrev pub IsAtRest : Status → Type 0
IsAtRest pending = ⊥
IsAtRest running = ⊥
IsAtRest synthesizing = ⊥
IsAtRest awaiting_approval = Unit
IsAtRest completed = Unit
IsAtRest failed = Unit
IsAtRest cancelled = Unit
IsAtRest (Status.other text) = Unit

interrupted-IsAtRest : (s : Status) → is_interrupted s ≡ false → IsAtRest s
interrupted-IsAtRest pending h = absurd (cc)
interrupted-IsAtRest running h = absurd (cc)
interrupted-IsAtRest synthesizing h = absurd (cc)
interrupted-IsAtRest awaiting_approval h = tt
interrupted-IsAtRest completed h = tt
interrupted-IsAtRest failed h = tt
interrupted-IsAtRest cancelled h = tt
interrupted-IsAtRest (Status.other text) h = tt

-- No attempt of the results is marked as running.
abbrev pub AreEnded : List SubtaskResult → Type 0
AreEnded rs = All (λ r. All (λ a. a.status ≢ DispatchAttemptStatus.running) r.attempts) rs

attempts-ended :
    (as' : List DispatchAttempt)
    → any (λ a. is_attempt_running a.status) as' ≡ false
    → All (λ a. a.status ≢ DispatchAttemptStatus.running) as'
attempts-ended [] h = tt
attempts-ended (a ∷ as') h = (
  (λ e. absurd (ground (arith, h, ap is_attempt_running e))),
  attempts-ended as' (ground (arith, h)),
)

results-AreEnded :
    (rs : List SubtaskResult)
    → any (λ r. any (λ a. is_attempt_running a.status) r.attempts) rs ≡ false
    → AreEnded rs
results-AreEnded [] h = tt
results-AreEnded (r ∷ rs) h =
    (attempts-ended r.attempts (ground (arith, h)), results-AreEnded rs (ground (arith, h)))

ended : (now : ℕ) (a : DispatchAttempt) → is_attempt_running (load_running now a).status ≡ false
unfolding load_running
ended now a = ground arith

all_ended :
    (id sid : String) (now : ℕ) (as' : List DispatchAttempt)
    → any
        (λ a. is_attempt_running a.status)
        (map (λ a. load_running now (load_request_id id sid a)) as')
      ≡ false
all_ended id sid now [] = refl
all_ended id sid now (a ∷ as') =
    ground (arith, ended now (load_request_id id sid a), all_ended id sid now as')

results_ended :
    (id : String) (now : ℕ) (rs : List SubtaskResult)
    → any (λ r. any (λ a. is_attempt_running a.status) r.attempts) (map (load_attempts id now) rs)
      ≡ false
unfolding load_attempts
results_ended id now [] = refl
results_ended id now (r ∷ rs) =
    ground (arith, all_ended id r.assignment.subtask.id now r.attempts, results_ended id now rs)

interrupted_ended :
    (e : String) (rs : List SubtaskResult)
    → any (λ r. any (λ a. is_attempt_running a.status) r.attempts) rs ≡ false
    → any (λ r. any (λ a. is_attempt_running a.status) r.attempts) (map (interrupt_result e) rs)
      ≡ false
unfolding interrupt_result
interrupted_ended e [] h = refl
interrupted_ended e (r ∷ rs) h = ground (arith, interrupted_ended e rs)

mend-ended :
    (now : ℕ) (t : Task)
    → (is_interrupted (mend_task now t).status ≡ false)
      × (any (λ r. any (λ a. is_attempt_running a.status) r.attempts) (mend_task now t).subtasks
          ≡ false)
unfolding mend_task
mend-ended now t = ground (
  arith,
  results_ended t.id now t.subtasks,
  interrupted_ended "orchestrator restarted before the task completed"
      (map (load_attempts t.id now) t.subtasks),
)

-- What the bookkeeping behind `mend_task` leaves alone.
stamped_work :
    {S : Type 0} (b c : Bool) (now : ℕ) (m : Manager S) (t : Task)
    → ((checkpoint_loaded c now (load_restamp b now m t)).1.status ≡ t.status)
      × ((checkpoint_loaded c now (load_restamp b now m t)).1.subtasks ≡ t.subtasks)
      × ((checkpoint_loaded c now (load_restamp b now m t)).1.id ≡ t.id)
unfolding checkpoint_loaded load_restamp checkpoint_for_task
stamped_work true true now m t = (refl, refl, refl)
stamped_work true false now m t = (refl, refl, refl)
stamped_work false true now m t = (refl, refl, refl)
stamped_work false false now m t = (refl, refl, refl)

pub origin_work :
    {S : Type 0} (m : Manager S) (t : Task)
    → ((load_origin m t).1.status ≡ t.status)
      × ((load_origin m t).1.subtasks ≡ t.subtasks)
      × ((load_origin m t).1.id ≡ t.id)
unfolding load_origin
origin_work m t = ground arith

pub work-load_task :
    {S : Type 0} (now : ℕ) (m : Manager S) (t : Task)
    → ((load_task now m t).1.status ≡ (mend_task now (load_origin m t).1).status)
      × ((load_task now m t).1.subtasks ≡ (mend_task now (load_origin m t).1).subtasks)
      × ((load_task now m t).1.id ≡ (mend_task now (load_origin m t).1).id)
unfolding load_task
work-load_task now m t =
    stamped_work (is_interrupted t.status || history_changed t) (is_interrupted t.status) now
      (load_origin m t).0 (mend_task now (load_origin m t).1)

-- The task that a load makes is at rest: it is not pending, running or in synthesis, and no attempt
-- of its subtasks is marked as running.
pub load_task-IsAtRest :
    {S : Type 0} (now : ℕ) (m : Manager S) (t : Task)
    → IsAtRest (load_task now m t).1.status × AreEnded (load_task now m t).1.subtasks
load_task-IsAtRest now m t =
    let w = work-load_task now m t in
    let e = mend-ended now (load_origin m t).1 in
    (
      subst IsAtRest (sym w.0)
          (interrupted-IsAtRest (mend_task now (load_origin m t).1).status e.0),
      subst AreEnded (sym w.1) (results-AreEnded (mend_task now (load_origin m t).1).subtasks e.1),
    )

interrupt-allowed :
    (s u : Status)
    → is_interrupted s ≡ true
    → allowed s u ≡ true
    → allowed failed (if is_unfinished u then failed else u) ≡ true
unfolding allowed
interrupt-allowed s u h k = ground arith

load_attempts-allowed :
    (id : String) (now : ℕ) (s : Status) (rs : List SubtaskResult)
    → all_allowed s rs ≡ true
    → all_allowed s (map (load_attempts id now) rs) ≡ true
unfolding load_attempts
load_attempts-allowed id now s rs h = map-allowed s s _ rs (λ r k. k) h

interrupt-IsConsistent :
    (e : String) (s : Status) (rs : List SubtaskResult)
    → is_interrupted s ≡ true
    → all_allowed s rs ≡ true
    → all_allowed failed (map (interrupt_result e) rs) ≡ true
unfolding interrupt_result
interrupt-IsConsistent e s rs i h =
    map-allowed s failed _ rs (λ r k. ground (arith, interrupt-allowed s r.status)) h

status-settle_loaded : (s : Status) (t : Task) → (settle_loaded s t).status ≡ t.status
unfolding settle_loaded
status-settle_loaded s t = ground arith

subtasks-settle_loaded : (s : Status) (t : Task) → (settle_loaded s t).subtasks ≡ t.subtasks
unfolding settle_loaded
subtasks-settle_loaded s t = ground arith

mend-IsConsistent : (now : ℕ) (t : Task) → IsConsistent t → IsConsistent (mend_task now t)
unfolding IsConsistent mend_task
mend-IsConsistent now t h =
    let rs = map (load_attempts t.id now) t.subtasks in
    let k = load_attempts-allowed t.id now t.status t.subtasks h in
    let t' : Task = record t { context_done = false; changed = 0; subtasks = rs } in
    if_elim (λ (u : Task). all_allowed u.status u.subtasks ≡ true) (is_interrupted t.status)
      (λ i.
        interrupt-IsConsistent "orchestrator restarted before the task completed" t.status rs i k)
      (λ _. rw (status-settle_loaded t.status t', subtasks-settle_loaded t.status t') k)

-- A stored task whose state agrees with those of its subtasks is loaded as such a task.
pub load_task-IsConsistent :
    {S : Type 0} (now : ℕ) (m : Manager S) (t : Task)
    → IsConsistent t
    → IsConsistent (load_task now m t).1
unfolding IsConsistent
load_task-IsConsistent now m t h =
    let w = work-load_task now m t in
    let o = origin_work m t in
    rw (w.0, w.1) (mend-IsConsistent now (load_origin m t).1 (rw (o.0, o.1) h))
