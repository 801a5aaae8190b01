-- ===== src/TaskManager/Recovery.antt =====
-- internal/taskmgr/recovery.go: what a manager makes of the tasks that its store held when the
-- process started.
pub mod Loaded
pub mod Keys
use m_aistr.Prelude.{
  ℕ, zero, suc, ◌+◌, ◌-◌, ◌/◌, String, Bool, true, false, not, ◌&&◌, ◌||◌, ◌==◌, ltb, Option, none,
  some, List, [], ◌∷◌, map, any, is_empty, if◌then◌else◌,
}
use m_aistr.Prelude.Dict.{Dict, put, get_or}
use m_aistr.TaskManager.Model.{
  Status, pending, running, synthesizing, awaiting_approval, completed, failed, cancelled, Task,
  SubtaskResult, DispatchAttempt, DispatchAttemptStatus, is_attempt_running, is_completed,
  is_unfinished, subtask_id, dispatch_request_id,
}
use m_aistr.TaskManager.Ids.{task_sequence, raise_seq}
use m_aistr.TaskManager.Frontier.{checkpoint_for_task}
use m_aistr.TaskManager.Persist.{
  Store, Manager, Err, storage, no_task_id, Result, ok, err, put_task, next_sync_sequence,
  save_task_and_checkpoint, new_manager,
}

abbrev pub interrupted_task_error : String
interrupted_task_error = "orchestrator restarted before the task completed"

-- An attempt without its request id, or one that was running, is mended.
abbrev pub is_stale_attempt : DispatchAttempt → Bool
is_stale_attempt a = is_empty a.request_id || is_attempt_running a.status

load_request_id : String → String → DispatchAttempt → DispatchAttempt
load_request_id id sid a =
    if is_empty a.request_id then record a { request_id = dispatch_request_id id sid } else a

load_running : ℕ → DispatchAttempt → DispatchAttempt
load_running now a =
    if is_attempt_running a.status
    then record a {
      status = DispatchAttemptStatus.failed;
      failure_class = "orchestrator_restart";
      error = "orchestrator restarted before the attempt result was recorded";
      finished_at = some now;
      duration_ms = (now - a.started_at) / 1000000;
    }
    else a

unfoldable pub load_attempts : String → ℕ → SubtaskResult → SubtaskResult
unfolding load_request_id load_running
load_attempts id now r = record r {
  attempts = map (λ a. load_running now (load_request_id id (subtask_id r) a)) r.attempts;
}

abbrev pub history_changed : Task → Bool
history_changed t = any (λ r. any is_stale_attempt r.attempts) t.subtasks

unfoldable pub interrupt_result : String → SubtaskResult → SubtaskResult
interrupt_result e r = if is_unfinished r.status then record r { status = failed; error = e } else r

abbrev pub is_interrupted : Status → Bool
is_interrupted pending = true
is_interrupted running = true
is_interrupted synthesizing = true
is_interrupted _ = false

-- The last part of the `if` on the status: the context ends unless the task awaits approval.
unfoldable pub settle_loaded : Status → Task → Task
settle_loaded awaiting_approval t = record t { resumable = true }
settle_loaded cancelled t = record t {
  resumable = t.resumable || any (λ r. is_completed r.status) t.subtasks;
  context_done = true;
}
settle_loaded failed t = record t {
  resumable = t.resumable || any (λ r. is_completed r.status) t.subtasks;
  context_done = true;
}
settle_loaded _ t = record t { context_done = true }

interrupt : ℕ → Task → Task
unfolding interrupt_result
interrupt now t = record t {
  status = failed;
  error = interrupted_task_error;
  resumable = true;
  subtasks = map (interrupt_result interrupted_task_error) t.subtasks;
  updated_at = now;
  context_done = true;
}

-- What becomes of a task's own fields; its origin and its sequence number come after.
unfoldable pub mend_task : ℕ → Task → Task
unfolding load_attempts settle_loaded interrupt
mend_task now t =
    let t' = record t {
      context_done = false;
      changed = 0;
      subtasks = map (load_attempts t.id now) t.subtasks;
    } in
    if is_interrupted t.status then interrupt now t' else settle_loaded t.status t'

-- A task that lacks its origin or its sequence number gets them; a known origin's counter rises.
unfoldable pub load_origin : {S : Type 0} → Manager S → Task → Manager S × Task
unfolding next_sync_sequence
load_origin m t =
    let (m', n) = next_sync_sequence m.sync_origin m in
    if is_empty t.origin || (t.sequence == 0)
    then (m', record t { origin = m.sync_origin; sequence = n })
    else if ltb (get_or 0 t.origin m.sync_seq) t.sequence
    then (record m { sync_seq = put t.origin t.sequence m.sync_seq }, t)
    else (m, t)

-- A task whose state or attempts were changed counts as written by this manager.
unfoldable pub load_restamp : {S : Type 0} → Bool → ℕ → Manager S → Task → Manager S × Task
unfolding next_sync_sequence
load_restamp false now m t = (m, t)
load_restamp true now m t =
    let (m', n) = next_sync_sequence m.sync_origin m in
    (m', record t { updated_at = now; origin = m.sync_origin; sequence = n })

unfoldable pub register : {S : Type 0} → Manager S × Task → Manager S
register (m, t) = put_task t.id t (record m { seq = raise_seq (task_sequence t.id) m.seq })

-- The checkpoint of an interrupted task is made of the task in the table, which gets its id.
checkpoint_loaded : {S : Type 0} → Bool → ℕ → Manager S × Task → Manager S × Task
checkpoint_loaded true now (m, t) = (m, (checkpoint_for_task now t).0)
checkpoint_loaded false now (m, t) = (m, t)

unfoldable pub load_task : {S : Type 0} → ℕ → Manager S → Task → Manager S × Task
unfolding load_restamp checkpoint_loaded
load_task now m t =
    let (m', t') = load_origin m t in
    checkpoint_loaded (is_interrupted t.status) now
      (load_restamp (is_interrupted t.status || history_changed t) now m' (mend_task now t'))

-- How a loaded task is written back: with a checkpoint, alone, or not at all.
pub data WriteBack : Type 0 where
  checkpointed : Task → WriteBack
  plain : Task → WriteBack
  unchanged : WriteBack

unfoldable pub write_back : Task → Task → WriteBack
write_back old t =
    if is_interrupted old.status
    then checkpointed t
    else if is_empty old.origin || (old.sequence == 0) || history_changed old
    then plain t
    else unchanged

noted :
    {S : Type 0}
    → WriteBack
    → Result (Manager S × List WriteBack)
    → Result (Manager S × List WriteBack)
noted w (err e) = err e
noted w (ok (m, ws)) = ok (m, w ∷ ws)

-- The first loop of `load`: the new manager, and what is to be written.
unfoldable pub load_tasks :
    {S : Type 0} → ℕ → Manager S → List Task → Result (Manager S × List WriteBack)
unfolding noted
load_tasks now m [] = ok (m, [])
load_tasks now m (t ∷ ts) =
    let loaded = load_task now m t in
    let rest = load_tasks now (register loaded) ts in
    if is_empty t.id then err no_task_id else noted (write_back t loaded.1) rest

module _ {S : Type 0} (store : Store S) where
  write_one : ℕ → WriteBack → S → S × Option String
  write_one now unchanged s = (s, none)
  write_one now (plain t) s = store.save t s
  write_one now (checkpointed t) s =
      let (t', checkpoint) = checkpoint_for_task now t in
      save_task_and_checkpoint store t' checkpoint s

  -- The second loop, which ends at the first error.
  unfoldable pub write_loaded : ℕ → List WriteBack → S → S × Option String
  unfolding write_one
  write_loaded now [] s = (s, none)
  write_loaded now (w ∷ ws) s =
      let (s', e) = write_one now w s in
      let rest = write_loaded now ws s' in
      elim e [ some failure ↦ (s', some failure) | none ↦ rest ]

  opened : Manager S → S × Option String → Result (Manager S)
  opened m (s, none) = ok (record m { store = some s })
  opened m (s, some e) = err (storage e)

  written : ℕ → S → Result (Manager S × List WriteBack) → Result (Manager S)
  written now s (err e) = err e
  written now s (ok (m, ws)) = opened m (write_loaded now ws s)

  -- OpenManagerWithOrigin and NewManagerWithStore, from the tasks that the store's `Load` gave.
  unfoldable pub open_manager : ℕ → String → Bool → List Task → S → Result (Manager S)
  unfolding written opened
  open_manager now origin has_finalizer stored s =
      written now s (load_tasks now (new_manager origin (some s) has_finalizer) stored)
