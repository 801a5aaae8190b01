-- ===== src/TaskManager/Sync/Ranking.antt =====
-- internal/taskmgr/sync.go: the order that replicaOutranks puts copies of a task in.
use m_aistr.Prelude.{ℕ, ◌<◌, ◌≡◌, refl, arith, true, false, is_empty, eq_iff}
use text.Mathlib.TextPositions.{eq_refl}
use m_aistr.TaskManager.Model.{Task}
use m_aistr.TaskManager.Recovery.{is_interrupted}
use m_aistr.TaskManager.Sync.{
  coordinator_changed_task_error, replica_outranks, interrupt_orphaned_task,
}

-- No copy of a task outranks itself, so a replica that sends a task again changes nothing.
pub replica_outranks_irrefl : (t : Task) → replica_outranks t t ≡ false
unfolding replica_outranks
replica_outranks_irrefl t = ground (arith, eq_refl t.origin)

-- An older write of the same origin never outranks a newer one, whatever the states, errors, times
-- and subtasks of the two say.
pub older-outranks_not :
    (current incoming : Task)
    → is_empty incoming.origin ≡ false
    → incoming.origin ≡ current.origin
    → incoming.sequence < current.sequence
    → replica_outranks current incoming ≡ false
unfolding replica_outranks
older-outranks_not current incoming o e lt = ground (arith, eq_iff incoming.origin current.origin)

orphaned-error :
    (now : ℕ) (t : Task)
    → is_interrupted t.status ≡ true
    → (interrupt_orphaned_task now t).error ≡ coordinator_changed_task_error
unfolding interrupt_orphaned_task
orphaned-error now t h = rw h refl

interrupted-outranks_not :
    (current u : Task)
    → u.error ≡ coordinator_changed_task_error
    → replica_outranks current u ≡ false
unfolding replica_outranks
interrupted-outranks_not current u h = ground (arith, eq_iff u.error coordinator_changed_task_error)

-- A task that was cut short by a change of coordinator outranks no copy.
pub orphaned-outranks_not :
    (now : ℕ) (current t : Task)
    → is_interrupted t.status ≡ true
    → replica_outranks current (interrupt_orphaned_task now t) ≡ false
orphaned-outranks_not now current t h =
    interrupted-outranks_not current (interrupt_orphaned_task now t) (orphaned-error now t h)
