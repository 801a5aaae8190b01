-- ===== src/TaskManager/Dependencies.antt =====
-- internal/taskmgr/deps.go: a subtask's wait for the subtasks that it depends on.
pub mod Ready
use m_aistr.Prelude.{
  ℕ, ltb, String, str_eq, Bool, true, false, not, ◌&&◌, ◌||◌, Option, none, some, List, [], ◌∷◌,
  find, if◌then◌else◌,
}
use m_aistr.Prelude.Dict.{Dict, get, put, has}
use m_aistr.TaskManager.Model.{
  Status, pending, completed, failed, cancelled, Task, SubtaskResult, is_cancelled, subtask_id,
}

-- One pass of the loop: its result, or the number of the channel that it waits on.
pub data Poll : Type 0 where
  answer : Bool → Poll
  wait : ℕ → Poll

-- The map `required`: the dependencies as pending, then the statuses that the task has.
require : List String → Dict Status → Dict Status
require [] d = d
require (s ∷ ss) d = require ss (put s pending d)

fill : List SubtaskResult → Dict Status → Dict Status
fill [] d = d
fill (r ∷ rs) d = fill rs (if has (subtask_id r) d then put (subtask_id r) r.status d else d)

unfoldable pub required : List String → List SubtaskResult → Dict Status
unfolding require fill
required dependencies rs = fill rs (require dependencies [])

-- none where a prerequisite failed, otherwise whether all are completed. The range over the map
-- ends at a failure, whichever entry it meets first.
unfoldable pub readiness : Dict Status → Option Bool
readiness [] = some true
readiness ((k, s) ∷ d) = elim (readiness d) [
  | none ↦ none
  | some ready ↦ elim s [
    | completed ↦ some ready
    | failed ↦ none
    | cancelled ↦ none
    | _ ↦ some false
  ]
]

settle : Bool → ℕ → Option Bool → Poll
settle done changed none = answer false
settle done changed (some true) = answer (not done)
settle done changed (some false) = wait changed

poll_subtask : Bool → Task → Option SubtaskResult → Poll
unfolding settle
poll_subtask done t none = answer false
poll_subtask done t (some r) =
    settle done t.changed (readiness (required r.assignment.subtask.depends_on t.subtasks))

poll_task : Bool → String → Option Task → Poll
unfolding poll_subtask
poll_task done sid none = answer false
poll_task done sid (some t) =
    if is_cancelled t.status
    then answer false
    else poll_subtask done t (find (λ r. str_eq (subtask_id r) sid) t.subtasks)

-- `done` says whether the caller's context is cancelled at the start of the pass, `done_later`
-- whether it is when the subtask is ready.
unfoldable pub poll : Bool → Bool → String → String → Dict Task → Poll
unfolding poll_task
poll done done_later id sid tasks =
    if done then answer false else poll_task done_later sid (get id tasks)
