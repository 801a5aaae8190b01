-- ===== src/TaskManager/MemoryStore/Reads.antt =====
-- internal/taskmgr/memorystore.go: what a reader of the store finds after a write of the manager.
use Prim.Native.String.{◌++◌}
use text.Mathlib.TextLemmas.{cons-append}
use m_aistr.Prelude.{
  ℕ, String, ◌≡◌, refl, sym, subst, ◌∙◌, ap, arith, Bool, false, Option, none, some, List, [], ◌∷◌,
  map, is_empty, eq_iff,
}
use m_aistr.Prelude.Dict.{get, get-put}
use m_aistr.TaskManager.Model.{
  Task, Checkpoint, SubtaskResult, DispatchAttempt, clone_task, clone_result, clone_attempt,
}
use m_aistr.TaskManager.Frontier.{checkpoint_for_task, checkpoint_id}
use m_aistr.TaskManager.Persist.{
  Manager, saved, storage_error, save_task_and_checkpoint, save_task_and_checkpoint_locked,
}
use m_aistr.TaskManager.MemoryStore.{
  MemoryStore, memory_store, save_task_and_checkpoint as save_both, latest_checkpoint,
}

is_empty-append : (p s : String) → is_empty p ≡ false → is_empty (p ++ s) ≡ false
is_empty-append String.[] s h = absurd (cc)
is_empty-append (String.◌∷◌ c p) s h = rw (cons-append c p s) refl

named : (t : Task) → is_empty (checkpoint_id t) ≡ false
unfolding checkpoint_id
named t = is_empty-append "cp-" _ refl

-- What a store holds of a task and of its checkpoint after a write that succeeds.
abbrev pub Holds : Task → Checkpoint → MemoryStore × Option String → Type 0
Holds t c r =
    (r.1 ≡ none)
    × (get t.id r.0.tasks ≡ some (clone_task t))
    × (latest_checkpoint t.id r.0 ≡ some c)

stored :
    (t : Task) (c : Checkpoint) (s : MemoryStore)
    → is_empty t.id ≡ false
    → is_empty c.id ≡ false
    → c.task_id ≡ t.id
    → Holds t c (save_both t c s)
unfolding save_both latest_checkpoint
stored t c s h k e = ground (
  arith,
  eq_iff c.task_id t.id,
  eq_iff t.id t.id,
  get-put t.id t.id (clone_task t) s.tasks,
  get-put t.id t.id c s.latest,
)

attempts-clone :
    (id sid : String) (as' : List DispatchAttempt)
    → map (clone_attempt id sid) (map (clone_attempt id sid) as') ≡ map (clone_attempt id sid) as'
unfolding clone_attempt
attempts-clone id sid [] = refl
attempts-clone id sid (a ∷ as') = ground (arith, attempts-clone id sid as')

results-clone :
    (id : String) (rs : List SubtaskResult)
    → map (clone_result id) (map (clone_result id) rs) ≡ map (clone_result id) rs
unfolding clone_result
results-clone id [] = refl
results-clone id (r ∷ rs) =
    cc (attempts-clone id r.assignment.subtask.id r.attempts, results-clone id rs)

clone-task_twice :
    (t : Task) (last : String) (resumable : Bool)
    → clone_task (record (clone_task t) { last_checkpoint = last; resumable = resumable })
      ≡ clone_task (record t { last_checkpoint = last; resumable = resumable })
unfolding clone_task
clone-task_twice t last resumable =
    ap (λ rs. record t { subtasks = rs; last_checkpoint = last; resumable = resumable })
      (results-clone t.id t.subtasks)

-- A write of a manager with a memory store reaches the store whole: it does not fail for a task with
-- an id, and then the store holds the task as the manager has it and, as the task's latest
-- checkpoint, the one that was made of it.
pub save_task_and_checkpoint_locked-stored :
    (now : ℕ) (m : Manager MemoryStore) (t : Task) (s : MemoryStore)
    → is_empty t.id ≡ false
    → let (m', t', e) =
        save_task_and_checkpoint_locked memory_store now (record m { store = some s }) t in
      (e ≡ none)
      × (s' : MemoryStore) × (m'.store ≡ some s')
      × (get t.id s'.tasks ≡ some (clone_task t'))
      × (latest_checkpoint t.id s' ≡ some (checkpoint_for_task now (clone_task t)).1)
unfolding save_task_and_checkpoint_locked save_task_and_checkpoint checkpoint_for_task clone_task
    saved
save_task_and_checkpoint_locked-stored now m t s k =
    let (snapshot, c) = checkpoint_for_task now (clone_task t) in
    let r = stored snapshot c s k (named (clone_task t)) refl in
    let s' = (save_both snapshot c s).0 in
    let Written : Option String → Type 0 = λ o.
      (storage_error o ≡ none)
      × (x : MemoryStore) × (some s' ≡ some x)
      × (get t.id x.tasks ≡ some (clone_task (saved memory_store o t snapshot)))
      × (latest_checkpoint t.id x ≡ some c) in
    subst Written (sym r.0) (
      refl,
      s',
      refl,
      r.1 ∙ ap some (clone-task_twice t snapshot.last_checkpoint snapshot.resumable),
      r.2,
    )
