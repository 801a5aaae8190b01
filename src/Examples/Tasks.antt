-- ===== src/Examples/Tasks.antt =====
-- internal/taskmgr: a task with one subtask, in each of the states that a manager takes it through.
use m_aistr.Prelude.{
  suc, ◌+◌, length, ◌<◌, ◌^◌, String, ◌≡◌, refl, ◌⊎◌, true, false, none, some, [], ◌∷◌, arith,
}
use m_aistr.Prelude.Dict.{get, put}
use m_aistr.Prelude.Digits.{format_int, parse_digits}
use m_aistr.Examples.TaskData.{result, task, no_graph, empty_manager, operations, finished, manager}
use m_aistr.TaskManager.Model.{pending, running, completed, Task, is_cancelled, clone_task}
use m_aistr.Prelude.Integers.{pos}
use m_aistr.TaskManager.Ids.{gen_id, task_sequence, task_sequence-gen_id}
use m_aistr.TaskManager.Persist.{
  Manager, new_manager, Result, ok, err, save_task_and_checkpoint, save_task_and_checkpoint_locked,
}
use m_aistr.TaskManager.Operations.{cancel, apply, run}
use m_aistr.TaskManager.Keeps.{EachTask, put-each}
use m_aistr.TaskManager.Consistency.Lists.{allowed}
use m_aistr.TaskManager.Counter.{seq-apply}
use m_aistr.TaskManager.Lifecycle
use m_aistr.TaskManager.Consistency.Steps.{IsConsistent}
use m_aistr.TaskManager.Consistency.Runs.{run-IsConsistent}
use m_aistr.TaskManager.Final.{IsFinal, apply-IsFinal}
use m_aistr.TaskManager.Fresh.{IsKeyed, Within, run-IsKeyed}
use m_aistr.TaskManager.Numbering.{IsNumbered}
use m_aistr.TaskManager.Numbering.Runs.{run-IsNumbered}
use m_aistr.TaskManager.Recovery.{
  load_task, load_tasks, load_origin, mend_task, write_loaded, write_back, open_manager,
}
use m_aistr.TaskManager.Recovery.Keys.{open_manager-IsKeyed}
use m_aistr.TaskManager.Recovery.Loaded.{
  IsAtRest, AreEnded, load_task-IsAtRest, load_task-IsConsistent,
}
use m_aistr.TaskManager.MemoryStore as Memory
use m_aistr.TaskManager.MemoryStore.{MemoryStore, memory_store, new_memory_store, latest_checkpoint}
use m_aistr.TaskManager.MemoryStore.Reads.{save_task_and_checkpoint_locked-stored}
use m_aistr.TaskManager.Frontier.{checkpoint_for_task, collect_outputs}
use m_aistr.TaskManager.Dependencies.{answer, poll, required, readiness}
use m_aistr.TaskManager.Dependencies.Ready.{is_done, poll-is_done}

empty : (P : String → Task → Type 0) → EachTask P empty_manager.tasks
unfolding new_manager get
empty P k u e = absurd (cc)

run-IsConsistent_example :
    EachTask (λ _ t. IsConsistent t) (run memory_store no_graph operations empty_manager).tasks
run-IsConsistent_example =
    run-IsConsistent memory_store no_graph operations empty_manager (empty (λ _ t. IsConsistent t))

run-IsNumbered_example :
    EachTask (λ _ t. IsNumbered t) (run memory_store no_graph operations empty_manager).tasks
run-IsNumbered_example =
    run-IsNumbered memory_store no_graph operations empty_manager (empty (λ _ t. IsNumbered t))

within_bound : empty_manager.seq + length operations < 2 ^ 31
unfolding new_manager
within_bound = omega arith

run-IsKeyed_example : IsKeyed (run memory_store no_graph operations empty_manager)
run-IsKeyed_example =
    run-IsKeyed memory_store no_graph operations empty_manager within_bound
      (empty (λ k t. (t.id ≡ k) × Within k empty_manager.seq))

Within-one : Within "task-1" 1
unfolding Within task_sequence parse_digits
Within-one = omega arith

pub manager-IsKeyed : IsKeyed manager
unfolding put new_manager
manager-IsKeyed =
    put-each (λ k t. (t.id ≡ k) × Within k 1) "task-1" finished [] (refl, Within-one)
      (empty (λ k t. (t.id ≡ k) × Within k 1))

finished-IsConsistent : IsConsistent finished
unfolding IsConsistent allowed
finished-IsConsistent = refl

pub found : get "task-1" manager.tasks ≡ some finished
unfolding get
found = refl

cancelled_found :
    get "task-1" (apply memory_store no_graph (cancel "task-1") 9 manager).tasks ≡ some finished
unfolding apply Lifecycle.cancel get
cancelled_found = refl

counter_bound : suc manager.seq < 2 ^ 31
counter_bound = omega arith

apply-IsFinal_example : IsFinal finished finished
apply-IsFinal_example =
    apply-IsFinal memory_store no_graph (cancel "task-1") 9 manager "task-1" finished finished
      counter_bound manager-IsKeyed found finished-IsConsistent refl cancelled_found

-- A task that the process left at work, as its store has it.
abbrev left : Task
left = record (task running (result "a" [] running ∷ [])) { origin = ""; sequence = 0 }

left-IsConsistent : IsConsistent left
unfolding IsConsistent allowed
left-IsConsistent = refl

load_task-IsAtRest_example :
    IsAtRest (load_task 9 empty_manager left).1.status
    × AreEnded (load_task 9 empty_manager left).1.subtasks
load_task-IsAtRest_example = load_task-IsAtRest 9 empty_manager left

load_task-IsConsistent_example : IsConsistent (load_task 9 empty_manager left).1
load_task-IsConsistent_example = load_task-IsConsistent 9 empty_manager left left-IsConsistent

-- The manager after a restart with that task in its store.
abbrev opened : Result (Manager MemoryStore) → Manager MemoryStore
opened (ok m) = m
opened (err e) = empty_manager

abbrev restarted : Manager MemoryStore
restarted = opened (open_manager memory_store 9 "task:b" false (left ∷ []) new_memory_store)

restarted_opens :
    open_manager memory_store 9 "task:b" false (left ∷ []) new_memory_store ≡ ok restarted
unfolding open_manager load_tasks write_loaded write_back save_task_and_checkpoint
    Memory.save_task_and_checkpoint checkpoint_for_task load_task mend_task load_origin format_int
    collect_outputs
restarted_opens = refl

open_manager-IsKeyed_example : IsKeyed restarted
open_manager-IsKeyed_example =
    open_manager-IsKeyed memory_store 9 "task:b" false (left ∷ []) new_memory_store restarted
      restarted_opens

task_sequence-gen_id_example : task_sequence (gen_id 1295) ≡ pos 1295
task_sequence-gen_id_example = task_sequence-gen_id 1295 (omega arith)

seq-apply_example :
    ((apply memory_store no_graph (cancel "task-1") 9 manager).seq ≡ suc manager.seq)
    ⊎ ((apply memory_store no_graph (cancel "task-1") 9 manager).seq ≡ manager.seq)
seq-apply_example = seq-apply memory_store no_graph (cancel "task-1") 9 manager

save_task_and_checkpoint_locked-stored_example :
    let (m', t', e) =
      save_task_and_checkpoint_locked memory_store 9
        (record empty_manager { store = some new_memory_store })
        finished in
    (e ≡ none)
    × (s' : MemoryStore) × (m'.store ≡ some s')
    × (get "task-1" s'.tasks ≡ some (clone_task t'))
    × (latest_checkpoint "task-1" s' ≡ some (checkpoint_for_task 9 (clone_task finished)).1)
save_task_and_checkpoint_locked-stored_example =
    save_task_and_checkpoint_locked-stored 9 empty_manager finished new_memory_store refl

-- The second subtask depends on the first, which is completed.
abbrev chain : Task
chain = task running (result "a" [] completed ∷ result "b" ("a" ∷ []) pending ∷ [])

chain-answer : poll false false "task-1" "b" (("task-1", chain) ∷ []) ≡ answer true
unfolding poll required readiness get put
chain-answer = refl

poll-is_done_example : (is_done "a" chain.subtasks ≡ true) × (is_cancelled chain.status ≡ false)
poll-is_done_example =
    poll-is_done false false "task-1" "b" (("task-1", chain) ∷ []) chain
      (result "b" ("a" ∷ []) pending) "a" (unfold get in refl) refl chain-answer refl
