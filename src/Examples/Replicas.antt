-- ===== src/Examples/Replicas.antt =====
-- internal/taskmgr/sync.go: copies of a task and a slice of them.
use m_aistr.Prelude.{◌≤◌, Bool, some, ◌≡◌, refl, true, ◌||◌, ◌==◌, [], ◌∷◌, All, is_empty}
use m_aistr.TaskManager.Model.{clone_task, Task, running, completed}
use m_aistr.TaskManager.Sync.{
  at, merge_current, merge_incoming, snapshot_since, snapshot_watermarks,
}
use m_aistr.TaskManager.Sync.Newer.{merge_incoming-at}
use m_aistr.TaskManager.Sync.Watermarks.{snapshot_since-snapshot_watermarks}
use m_aistr.Prelude.Dict.{get}
use m_aistr.TaskManager.Fresh.{IsKeyed}
use m_aistr.TaskManager.MemoryStore.{memory_store}
use m_aistr.TaskManager.Sync.Exchange.{merge_missing, replace_from_sync, sync_tasks}
use m_aistr.TaskManager.Sync.Exchange.Safety.{sync_tasks-IsKeyed, sync_tasks-merge_missing}
use m_aistr.Examples.TaskData.{task, result, finished, manager}
use m_aistr.Examples.Tasks.{manager-IsKeyed, found}

abbrev older : Task
older = task running (result "a" [] running ∷ [])

abbrev newer : Task
newer = record (task completed (result "a" [] completed ∷ [])) { sequence = 2 }

older_stands : at 0 (merge_current (older ∷ []) ([], [])).0 ≡ some older
unfolding at merge_current clone_task
older_stands = refl

merge_incoming-at_example :
    (v : Task) × (at 0 (merge_incoming 9 (newer ∷ []) (merge_current (older ∷ []) ([], []))).0.0
      ≡ some v)
    × (older.sequence ≤ v.sequence)
merge_incoming-at_example =
    merge_incoming-at older.origin refl 9 (older ∷ []) (newer ∷ []) 0 older (refl, tt) (refl, tt)
      older_stands

snapshot_since-snapshot_watermarks_example :
    All
      (λ (t : Task). (is_empty t.origin || (t.sequence == 0)) ≡ true)
      (snapshot_since (snapshot_watermarks (older ∷ newer ∷ [])) (older ∷ newer ∷ []))
snapshot_since-snapshot_watermarks_example = snapshot_since-snapshot_watermarks (older ∷ newer ∷ [])

-- Two encodings, told apart by their numbers.
abbrev same_json : Task → Task → Bool
same_json t u = t.sequence == u.sequence

sync_tasks-merge_missing_example :
    get "task-1"
      (sync_tasks memory_store same_json merge_missing "task:b" 9 (newer ∷ []) manager).0.tasks
    ≡ some finished
sync_tasks-merge_missing_example =
    sync_tasks-merge_missing memory_store same_json "task-1" finished "task:b" 9 (newer ∷ [])
      manager found

sync_tasks-IsKeyed_example :
    IsKeyed (sync_tasks memory_store same_json replace_from_sync "task:b" 9 (newer ∷ []) manager).0
sync_tasks-IsKeyed_example =
    sync_tasks-IsKeyed memory_store same_json replace_from_sync "task:b" 9 (newer ∷ []) manager
      manager-IsKeyed
