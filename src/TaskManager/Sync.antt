-- ===== src/TaskManager/Sync.antt =====
-- internal/taskmgr/sync.go: which of two copies of a task wins, and what a peer still lacks.
pub mod Ranking
pub mod Watermarks
pub mod Merge
pub mod Newer
pub mod Exchange
use m_aistr.Prelude.{
  ℕ, zero, suc, ◌+◌, ◌==◌, ltb, leb, String, str_eq, Bool, true, false, not, ◌&&◌, ◌||◌, Option,
  none, some, List, [], ◌∷◌, ◌++◌, map, length, any, select, is_empty, if◌then◌else◌,
}
use m_aistr.Prelude.Dict.{Dict, get, get_or, put}
use m_aistr.TaskManager.Model.{
  Status, pending, running, synthesizing, awaiting_approval, completed, failed, cancelled, Task,
  SubtaskResult, is_completed, clone_task,
}
use m_aistr.TaskManager.Recovery.{interrupted_task_error, interrupt_result, is_interrupted}

abbrev pub coordinator_changed_task_error : String
coordinator_changed_task_error = "coordinator changed before the task completed"

abbrev pub is_interrupted_task : Task → Bool
is_interrupted_task t =
    str_eq t.error interrupted_task_error || str_eq t.error coordinator_changed_task_error

abbrev pub completed_count : List SubtaskResult → ℕ
completed_count [] = 0
completed_count (r ∷ rs) =
    if is_completed r.status then suc (completed_count rs) else completed_count rs

abbrev pub completed_subtask_count : Task → ℕ
completed_subtask_count t = completed_count t.subtasks

abbrev pub task_status_rank : Status → ℕ
task_status_rank completed = 6
task_status_rank awaiting_approval = 5
task_status_rank synthesizing = 4
task_status_rank failed = 3
task_status_rank cancelled = 3
task_status_rank running = 2
task_status_rank pending = 1
task_status_rank _ = 0

-- The statuses that a running coordinator ends with, or waits for approval in.
abbrev pub is_decided : Status → Bool
is_decided completed = true
is_decided awaiting_approval = true
is_decided cancelled = true
is_decided failed = true
is_decided _ = false

unfoldable pub replica_outranks : Task → Task → Bool
replica_outranks current incoming =
    let same_origin = not (is_empty incoming.origin) && str_eq incoming.origin current.origin in
    if is_interrupted_task incoming
    then false
    else if is_interrupted_task current
    then (if same_origin && ltb incoming.sequence current.sequence
        then false
        else if is_decided incoming.status
        then true
        else ltb (completed_subtask_count current) (completed_subtask_count incoming))
    else if same_origin && not (incoming.sequence == current.sequence)
    then ltb current.sequence incoming.sequence
    else if ltb current.updated_at incoming.updated_at
    then true
    else if incoming.updated_at == current.updated_at
    then ltb (completed_subtask_count current) (completed_subtask_count incoming)
      || ltb (task_status_rank current.status) (task_status_rank incoming.status)
    else false

unfoldable pub interrupt_orphaned_task : ℕ → Task → Task
interrupt_orphaned_task now t =
    if is_interrupted t.status
    then record t {
      status = failed;
      error = coordinator_changed_task_error;
      resumable = true;
      subtasks = map (interrupt_result coordinator_changed_task_error) t.subtasks;
      updated_at = now;
    }
    else t

-- The slice with the element at an index replaced.
unfoldable pub set_at : ℕ → Task → List Task → List Task
set_at n t [] = []
set_at zero t (u ∷ us) = t ∷ us
set_at (suc n) t (u ∷ us) = u ∷ set_at n t us

unfoldable pub at : ℕ → List Task → Option Task
at n [] = none
at zero (u ∷ us) = some u
at (suc n) (u ∷ us) = at n us

-- The slice `merged` with the map `indexByID`.
abbrev pub Merged : Type 0
Merged = List Task × Dict ℕ

unfoldable pub merge_current : List Task → Merged → Merged
merge_current [] s = s
merge_current (t ∷ ts) (merged, index) =
    let skip = merge_current ts (merged, index) in
    if is_empty t.id
    then skip
    else merge_current ts (merged ++ clone_task t ∷ [], put t.id (length merged) index)

outranks_at : Task → Option Task → Bool
unfolding replica_outranks
outranks_at t none = false
outranks_at t (some current) = replica_outranks current t

-- One incoming task: the new slice and map, and whether the task was accepted.
merge_one : ℕ → Task → Merged → Option ℕ → Merged × Bool
unfolding outranks_at interrupt_orphaned_task set_at at
merge_one now t (merged, index) none = (
  (merged ++ interrupt_orphaned_task now (clone_task t) ∷ [], put t.id (length merged) index),
  true,
)
merge_one now t (merged, index) (some i) =
    if outranks_at t (at i merged)
    then ((set_at i (clone_task t) merged, index), true)
    else ((merged, index), false)

unfoldable pub merge_incoming : ℕ → List Task → Merged → Merged × List Bool
unfolding merge_one
merge_incoming now [] s = (s, [])
merge_incoming now (t ∷ ts) s =
    let (s', accepted) = if is_empty t.id then (s, false) else merge_one now t s (get t.id s.1) in
    let (s'', rest) = merge_incoming now ts s' in (s'', accepted ∷ rest)

-- mergeReplicaTaskSlices; no task of a slice is nil.
unfoldable pub merge_replica_task_slices : ℕ → List Task → List Task → List Task × List Bool
unfolding merge_current merge_incoming
merge_replica_task_slices now current incoming =
    let (s, accepted) = merge_incoming now incoming (merge_current current ([], [])) in
    (s.0, accepted)

note_watermark : Task → Dict ℕ → Dict ℕ
note_watermark t d =
    if not (is_empty t.origin) && ltb (get_or 0 t.origin d) t.sequence
    then put t.origin t.sequence d
    else d

watermarks_from : Dict ℕ → List Task → Dict ℕ
unfolding note_watermark
watermarks_from d [] = d
watermarks_from d (t ∷ ts) = watermarks_from (note_watermark t d) ts

-- SnapshotWatermarks, and the loop of `Watermarks`.
unfoldable pub snapshot_watermarks : List Task → Dict ℕ
unfolding watermarks_from
snapshot_watermarks ts = watermarks_from [] ts

-- The test of SnapshotSince and of SnapshotAndWatermarksForPeer.
abbrev pub is_beyond : Dict ℕ → Task → Bool
is_beyond watermarks t =
    is_empty t.origin || (t.sequence == 0) || ltb (get_or 0 t.origin watermarks) t.sequence

unfoldable pub snapshot_since : Dict ℕ → List Task → List Task
snapshot_since watermarks ts = map clone_task (select (is_beyond watermarks) ts)

-- Whether the peer knows an origin further than this manager does.
unfoldable pub is_ahead : Dict ℕ → Dict ℕ → Bool
is_ahead watermarks local = any (λ e. ltb (get_or 0 e.0 local) e.1) watermarks

-- SnapshotAndWatermarksForPeer on the tasks that `All` gives; the flag is
-- memory.SupportsIncrementalSync.
unfoldable pub snapshot_and_watermarks_for_peer : Bool → Dict ℕ → List Task → List Task × Dict ℕ
unfolding snapshot_watermarks is_ahead
snapshot_and_watermarks_for_peer incremental watermarks tasks =
    let local = snapshot_watermarks tasks in
    if not incremental || is_ahead watermarks local
    then (tasks, local)
    else (select (is_beyond watermarks) tasks, local)
