-- ===== src/TaskManager/Numbering.antt =====
-- internal/taskmgr/dispatch_attempts.go: the attempts of a subtask are numbered 1, 2, 3 and so on.
pub mod Runs
use m_aistr.Prelude.{
  ℕ, suc, ◌+◌, String, ◌≡◌, refl, Bool, true, false, ◌&&◌, ◌==◌, Option, none, some, List, [], ◌∷◌,
  ◌++◌, arith, map, update_first, all, length, if◌then◌else◌,
}
use m_aistr.Scheduler.Model.{Subtask, Assignment}
use m_aistr.Scheduler.Graph.{TaskGraph}
use m_aistr.TaskManager.Model.{Task, SubtaskResult, DispatchAttempt, DispatchAttemptStatus}
use m_aistr.TaskManager.Persist.{Store, Manager}
use m_aistr.TaskManager.Transitions.{
  Outcome, output, failure, has_id, new_task, cancel_task, start_task, start_result, reassign_task,
  complete_task, record_outcome, roll_up, finish_status, approve_task, synthesis_task, resume_task,
}
use m_aistr.TaskManager.Attempts.{
  Report, has_number, begin_task, begin_result, new_attempt, close_subtasks, close_result,
  close_attempt, assign_winner,
}
use m_aistr.TaskManager.Writes.{SameWork}
use m_aistr.TaskManager.Keeps.{Keeps, EachTask}
use m_aistr.TaskManager.Operations.{Operation, run}
use m_aistr.TaskManager.Operations.Preservation.{run-each}

-- The numbers k + 1, k + 2 and so on.
unfoldable pub numbered : ℕ → List DispatchAttempt → Bool
numbered k [] = true
numbered k (a ∷ as') = (a.number == k + 1) && numbered (k + 1) as'

unfoldable pub all_numbered : List SubtaskResult → Bool
all_numbered rs = all (λ r. numbered 0 r.attempts) rs

unfoldable pub IsNumbered : Task → Type 0
IsNumbered t = all_numbered t.subtasks ≡ true

pub numbered-append :
    (k : ℕ) (as' : List DispatchAttempt) (a : DispatchAttempt)
    → numbered k as' ≡ true
    → a.number ≡ k + length as' + 1
    → numbered k (as' ++ a ∷ []) ≡ true
unfolding numbered
numbered-append k [] a h e = ground arith
numbered-append k (x ∷ xs) a h e = ground (arith, numbered-append (k + 1) xs a)

pub numbered-close :
    (k n : ℕ) (f : DispatchAttempt → DispatchAttempt) (as' : List DispatchAttempt)
    → ((a : DispatchAttempt) → (f a).number ≡ a.number)
    → numbered k as' ≡ true
    → numbered k (update_first (has_number n) f as') ≡ true
unfolding numbered
numbered-close k n f [] e h = refl
numbered-close k n f (x ∷ xs) e h = ground (arith, e x, numbered-close (k + 1) n f xs e)

pub update_first-numbered :
    (p : SubtaskResult → Bool) (f : SubtaskResult → SubtaskResult) (rs : List SubtaskResult)
    → ((r : SubtaskResult) → numbered 0 r.attempts ≡ true → numbered 0 (f r).attempts ≡ true)
    → all_numbered rs ≡ true
    → all_numbered (update_first p f rs) ≡ true
unfolding all_numbered
update_first-numbered p f [] k h = refl
update_first-numbered p f (x ∷ xs) k h = ground (arith, k x, update_first-numbered p f xs k)

pub map-numbered :
    (f : SubtaskResult → SubtaskResult) (rs : List SubtaskResult)
    → ((r : SubtaskResult) → numbered 0 r.attempts ≡ true → numbered 0 (f r).attempts ≡ true)
    → all_numbered rs ≡ true
    → all_numbered (map f rs) ≡ true
unfolding all_numbered
map-numbered f [] k h = refl
map-numbered f (x ∷ xs) k h = ground (arith, k x, map-numbered f xs k)

pub new-numbered :
    (f : Assignment → SubtaskResult) (as' : List Assignment)
    → ((a : Assignment) → (f a).attempts ≡ [])
    → all_numbered (map f as') ≡ true
unfolding all_numbered numbered
new-numbered f [] e = refl
new-numbered f (a ∷ as') e = ground (arith, e a, new-numbered f as' e)

pub subtasks-roll_up : (b : Bool) (t : Task) → (roll_up b t).subtasks ≡ t.subtasks
unfolding roll_up finish_status
subtasks-roll_up b t = ground arith

pub subtasks-approve :
    (b : Bool) (now : ℕ) (t : Task) → (approve_task b now t).subtasks ≡ t.subtasks
unfolding approve_task
subtasks-approve b now t = ground arith

pub subtasks-synthesis :
    (o : Outcome) (now : ℕ) (t : Task) → (synthesis_task o now t).subtasks ≡ t.subtasks
unfolding synthesis_task
subtasks-synthesis o now t = ground arith

pub attempts-outcome :
    (o : Outcome) (r : SubtaskResult) → (record_outcome o r).attempts ≡ r.attempts
unfolding record_outcome
attempts-outcome (output x) r = refl
attempts-outcome (failure x) r = refl
