-- ===== src/TaskManager/Writes.antt =====
-- internal/taskmgr/lifecycle.go: what persistLocked and persistTaskAndCheckpointLocked leave in the
-- table, whatever the store answers.
use m_aistr.Prelude.{ℕ, String, ◌≡◌, refl, arith}
use m_aistr.Prelude.Dict.{put}
use m_aistr.TaskManager.Model.{Task}
use m_aistr.TaskManager.Persist.{
  Store, Manager, stamp, persist, commit, persist_task_and_checkpoint,
}

-- The fields that a write leaves alone.
pub record SameWork (t u : Task) : Type 0 where
  pub id : u.id ≡ t.id
  pub status : u.status ≡ t.status
  pub subtasks : u.subtasks ≡ t.subtasks
  pub error : u.error ≡ t.error
  pub result : u.result ≡ t.result

module _ {S : Type 0} (store : Store S) where
  pub tasks-persist :
      (id : String) (m : Manager S) (t : Task)
      → (persist store id m t).0.tasks ≡ put id (stamp m t).1 m.tasks
  unfolding persist
  tasks-persist id m t = ground arith

  pub stamp-SameWork : (m : Manager S) (t : Task) → SameWork t (stamp m t).1
  unfolding stamp
  stamp-SameWork m t = record {
    id = refl;
    status = refl;
    subtasks = refl;
    error = refl;
    result = refl;
  }

  pub tasks-commit :
      (id : String) (now : ℕ) (m : Manager S) (t : Task)
      → (commit store id now m t).0.tasks ≡ put id (commit store id now m t).1 m.tasks
  unfolding commit
  tasks-commit id now m t = ground arith

  pub persist_task_and_checkpoint-SameWork :
      (now : ℕ) (m : Manager S) (t : Task)
      → SameWork t (persist_task_and_checkpoint store now m t).1
  unfolding persist_task_and_checkpoint
  persist_task_and_checkpoint-SameWork now m t = ground arith

  pub tasks-persist_task_and_checkpoint :
      (now : ℕ) (m : Manager S) (t : Task)
      → (persist_task_and_checkpoint store now m t).0.tasks ≡ m.tasks
  unfolding persist_task_and_checkpoint
  tasks-persist_task_and_checkpoint now m t = ground arith

  pub commit-SameWork :
      (id : String) (now : ℕ) (m : Manager S) (t : Task) → SameWork t (commit store id now m t).1
  unfolding commit
  commit-SameWork id now m t = persist_task_and_checkpoint-SameWork now m t

  -- The counters and the settings that a write leaves alone.
  pub seq-persist : (id : String) (m : Manager S) (t : Task) → (persist store id m t).0.seq ≡ m.seq
  unfolding persist
  seq-persist id m t = ground arith

  pub seq-persist_task_and_checkpoint :
      (now : ℕ) (m : Manager S) (t : Task)
      → (persist_task_and_checkpoint store now m t).0.seq ≡ m.seq
  unfolding persist_task_and_checkpoint
  seq-persist_task_and_checkpoint now m t = ground arith

  pub seq-commit :
      (id : String) (now : ℕ) (m : Manager S) (t : Task) → (commit store id now m t).0.seq ≡ m.seq
  unfolding commit
  seq-commit id now m t = seq-persist_task_and_checkpoint now m t
