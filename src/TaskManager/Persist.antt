-- ===== src/TaskManager/Persist.antt =====
-- internal/taskmgr: the manager's state (model.go), its store, and the writes that follow each
-- update (lifecycle.go, checkpoint.go, sync.go).
--
-- A method holds its task's locks from its lookup to its last write, so it is one step on the
-- manager. `m.mu` is free while the store is written; other tasks may change then, and nothing
-- that the method reads or writes afterwards is theirs.
use m_aistr.Prelude.{ℕ, suc, ◌+◌, ◌%◌, ◌^◌, String, Bool, false, Option, none, some, List, []}
use m_aistr.Prelude.Dict.{Dict, put, get_or}
use m_aistr.TaskManager.Model.{Task, Checkpoint, clone_task}
use m_aistr.TaskManager.Frontier.{checkpoint_for_task}

pub data Err : Type 0 where
  task_not_found : String → Err
  subtask_not_found : String → String → Err
  subtask_finished : String → String → Err
  subtask_not_active : String → String → Err
  attempt_not_found : ℕ → String → Err
  attempt_finished : ℕ → String → Err
  invalid_attempt_status : Err
  not_awaiting_approval : String → Err
  not_resumable : String → Err
  no_task_id : Err
  storage : String → Err

pub data Result {ℓ} (A : Type ℓ) : Type ℓ where
  ok : A → Result A
  err : Err → Result A

-- `return value, err` where the value is used only if the error is nil.
abbrev pub result {ℓ} : {A : Type ℓ} → A → Option Err → Result A
result a none = ok a
result a (some e) = err e

abbrev pub storage_error : Option String → Option Err
storage_error none = none
storage_error (some e) = some (storage e)

-- The interface `Store`, over the states of a store. The text is that of an error; a store whose
-- `atomic` is none has no method `SaveTaskAndCheckpoint`.
pub record Store (S : Type 0) : Type 0 where
  pub save : Task → S → S × Option String
  pub save_checkpoint : Checkpoint → S → S × Option String
  pub atomic : Option (Task → Checkpoint → S → S × Option String)

-- `recent_tasks` holds the ids of the cached tasks, `has_finalizer` says whether a finalizer is
-- set, and `changes` counts the notifications.
pub record Manager (S : Type 0) : Type 0 where
  pub tasks : Dict Task
  pub recent_tasks : List String
  pub recent_tasks_valid : Bool
  pub seq : ℕ
  pub sync_origin : String
  pub sync_seq : Dict ℕ
  pub has_finalizer : Bool
  pub store : Option S
  pub changes : ℕ

module _ {S : Type 0} where
  -- newManager, with the origin that the process counter gives.
  unfoldable pub new_manager : String → Option S → Bool → Manager S
  new_manager origin store has_finalizer = record {
    tasks = [];
    recent_tasks = [];
    recent_tasks_valid = false;
    seq = 0;
    sync_origin = origin;
    sync_seq = [];
    has_finalizer = has_finalizer;
    store = store;
    changes = 0;
  }

  abbrev pub invalidate_recent_tasks : Manager S → Manager S
  invalidate_recent_tasks m = record m {
    recent_tasks_valid = false;
    recent_tasks = [];
    changes = suc m.changes;
  }

  -- The counter is a uint64.
  abbrev pub following_sequence : Manager S → String → ℕ
  following_sequence m origin = (get_or 0 origin m.sync_seq + 1) % 2 ^ 64

  unfoldable pub next_sync_sequence : String → Manager S → Manager S × ℕ
  next_sync_sequence origin m =
      let n = following_sequence m origin in (record m { sync_seq = put origin n m.sync_seq }, n)

  -- The origin and the sequence number of a write, and the end of the cache.
  unfoldable pub stamp : Manager S → Task → Manager S × Task
  unfolding next_sync_sequence
  stamp m t =
      let (m', n) = next_sync_sequence m.sync_origin m in
      (invalidate_recent_tasks m', record t { origin = m.sync_origin; sequence = n })

  abbrev pub put_task : String → Task → Manager S → Manager S
  put_task id t m = record m { tasks = put id t m.tasks }

module _ {S : Type 0} (store : Store S) where
  save_both :
      Option (Task → Checkpoint → S → S × Option String) → Task → Checkpoint → S → S × Option String
  save_both (some atomic) t c s = atomic t c s
  save_both none t c s =
      let (s', e) = store.save_checkpoint c s in
      elim e [ some failure ↦ (s', some failure) | none ↦ store.save t s' ]

  unfoldable pub save_task_and_checkpoint : Task → Checkpoint → S → S × Option String
  unfolding save_both
  save_task_and_checkpoint = save_both store.atomic

  -- The task keeps its old fields where the store failed.
  unfoldable pub saved : Option String → Task → Task → Task
  saved (some e) t snapshot = t
  saved none t snapshot = record t {
    last_checkpoint = snapshot.last_checkpoint;
    resumable = snapshot.resumable;
  }

  save_with : Option S → ℕ → Manager S → Task → Manager S × Task × Option Err
  save_with none now m t = (m, t, none)
  save_with (some s) now m t =
      let (snapshot, checkpoint) = checkpoint_for_task now (clone_task t) in
      let (s', e) = save_task_and_checkpoint snapshot checkpoint s in
      (record m { store = some s' }, saved e t snapshot, storage_error e)

  unfoldable pub save_task_and_checkpoint_locked :
      ℕ → Manager S → Task → Manager S × Task × Option Err
  unfolding save_with saved
  save_task_and_checkpoint_locked now m t = save_with m.store now m t

  unfoldable pub persist_task_and_checkpoint : ℕ → Manager S → Task → Manager S × Task × Option Err
  unfolding stamp save_task_and_checkpoint_locked
  persist_task_and_checkpoint now m t =
      let (m', t') = stamp m t in save_task_and_checkpoint_locked now m' t'

  save_only : Option S → Manager S → Task → Manager S × Option Err
  save_only none m t = (m, none)
  save_only (some s) m t =
      let (s', e) = store.save (clone_task t) s in (record m { store = some s' }, storage_error e)

  -- A write with no checkpoint, of a task that is in the table already.
  unfoldable pub persist : String → Manager S → Task → Manager S × Option Err
  unfolding stamp save_only
  persist id m t =
      let (m', t') = stamp m t in let (m'', e) = save_only m'.store m' t' in (put_task id t' m'', e)

  -- A write with a checkpoint, of a task that is in the table already: the table holds the task
  -- itself, so an update stands there whether or not the store failed.
  unfoldable pub commit : String → ℕ → Manager S → Task → Manager S × Task × Option Err
  unfolding persist_task_and_checkpoint
  commit id now m t =
      let (m', t', e) = persist_task_and_checkpoint now m t in (put_task id t' m', t', e)
