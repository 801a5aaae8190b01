-- ===== src/TaskManager/Sync/Exchange.antt =====
-- internal/taskmgr/sync.go: syncTasks, which takes over the tasks of another manager.
pub mod Safety
use m_aistr.Prelude.{
  ℕ, ◌==◌, ltb, String, str_eq, Bool, true, false, not, ◌&&◌, ◌||◌, Option, none, some, List, [],
  ◌∷◌, map, is_empty, if◌then◌else◌,
}
use m_aistr.Prelude.Dict.{get, get_or, put}
use m_aistr.TaskManager.Model.{Task, clone_task}
use m_aistr.TaskManager.Ids.{task_sequence, raise_seq}
use m_aistr.TaskManager.Persist.{
  Store, Manager, Err, no_task_id, next_sync_sequence, save_task_and_checkpoint_locked, put_task,
  invalidate_recent_tasks,
}
use m_aistr.TaskManager.Transitions.{is_terminal}
use m_aistr.TaskManager.Recovery.{is_interrupted}
use m_aistr.TaskManager.Sync.{interrupt_orphaned_task, merge_replica_task_slices}

-- The flags of syncTasks: whether an incoming task replaces one that exists, and whether the tasks
-- come from a replica.
pub record Mode : Type 0 where
  pub replace : Bool
  pub merge_replicas : Bool

-- MergeMissingFrom, MergeFromReplicaFrom and ReplaceFromSyncFrom.
abbrev pub merge_missing : Mode
merge_missing = record { replace = false; merge_replicas = false }

abbrev pub merge_from_replica : Mode
merge_from_replica = record { replace = false; merge_replicas = true }

abbrev pub replace_from_sync : Mode
replace_from_sync = record { replace = true; merge_replicas = false }

next_verdict : List Bool → Bool × List Bool
next_verdict [] = (false, [])
next_verdict (b ∷ bs) = (b, bs)

-- A fresh context, which is cancelled if the task is at its end, and a fresh channel.
unfoldable pub attach : Task → Task
attach t = record t { context_done = is_terminal t.status; changed = 0 }

module _ {S : Type 0} where
  -- An incoming task without an origin or a number is numbered under the source's origin; the
  -- counter of a known origin rises to the task's number.
  unfoldable pub stamp_incoming : String → Manager S → Task → Manager S × Task
  unfolding next_sync_sequence
  stamp_incoming source m t =
      let (m', n) = next_sync_sequence source m in
      if is_empty t.origin || (t.sequence == 0)
      then (m', record t { origin = source; sequence = n })
      else if ltb (get_or 0 t.origin m.sync_seq) t.sequence
      then (record m { sync_seq = put t.origin t.sequence m.sync_seq }, t)
      else (m, t)

  -- A task that a replica ran, and that is unknown here, is cut short and written as this
  -- manager's own.
  unfoldable pub adopt : Bool → ℕ → Manager S → Task → Manager S × Task
  unfolding next_sync_sequence
  adopt unknown now m t =
      let t' = if unknown then interrupt_orphaned_task now t else t in
      let (m', n) = next_sync_sequence m.sync_origin m in
      if unknown && is_interrupted t.status
      then (m', record t' { origin = m.sync_origin; sequence = n })
      else (m, t')

  unfoldable pub install : Manager S → Task → Manager S
  install m t =
      let m' = invalidate_recent_tasks (put_task t.id t m) in
      record m' { seq = raise_seq (task_sequence t.id) m'.seq }

-- `same_json` says whether the JSON encodings of two tasks are equal, which the code compares.
module _ {S : Type 0} (store : Store S) (same_json : Task → Task → Bool) (mode : Mode) where
  -- Whether the loop passes over an incoming task: `accepted` is the merge's verdict.
  unfoldable pub passes_over : Bool → Task → Option Task → Bool
  passes_over accepted t none = false
  passes_over accepted t (some current) =
      if not mode.replace
      then not mode.merge_replicas || not accepted
      else (not (is_empty t.origin)
          && str_eq t.origin current.origin
          && ltb t.sequence current.sequence)
        || same_json current t

  installed : Manager S × Task × Option Err → Manager S × Option Err
  unfolding install
  installed (m, t, some e) = (m, some e)
  installed (m, t, none) = (install m t, none)

  is_unknown : Option Task → Bool
  is_unknown none = mode.merge_replicas
  is_unknown (some current) = false

  take_over : ℕ → Manager S → Task → Option Task → Manager S × Option Err
  unfolding installed is_unknown adopt attach
  take_over now m t current =
      let (m', t') = adopt (is_unknown current) now m (clone_task t) in
      installed (save_task_and_checkpoint_locked store now m' (attach t'))

  unfoldable pub sync_one : String → ℕ → Manager S → Task → Bool → Manager S × Option Err
  unfolding passes_over take_over stamp_incoming
  sync_one source now m incoming accepted =
      let (m', t) = stamp_incoming source m incoming in
      let current = get t.id m'.tasks in
      if passes_over accepted t current then (m', none) else take_over now m' t current

  -- The loop, which ends at the first error.
  unfoldable pub sync_loop : String → ℕ → Manager S → List Task → List Bool → Manager S × Option Err
  unfolding sync_one next_verdict
  sync_loop source now m [] accepted = (m, none)
  sync_loop source now m (t ∷ ts) accepted =
      let (verdict, verdicts) = next_verdict accepted in
      let (m', e) = sync_one source now m t verdict in
      let rest = sync_loop source now m' ts verdicts in
      if is_empty t.id
      then (m, some no_task_id)
      else elim e [ some failure ↦ (m', some failure) | none ↦ rest ]

  unfoldable pub sync_tasks : String → ℕ → List Task → Manager S → Manager S × Option Err
  unfolding sync_loop
  sync_tasks source now tasks m =
      let accepted =
        if mode.merge_replicas
        then (merge_replica_task_slices now (map (λ e. e.1) m.tasks) tasks).1
        else [] in
      sync_loop (if is_empty source then "task:legacy" else source) now m tasks accepted
