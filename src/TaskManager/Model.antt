-- ===== src/TaskManager/Model.antt =====
-- internal/taskmgr/model.go and the `Checkpoint` of checkpoint.go: tasks, subtask results and
-- dispatch attempts. A `time.Time` is a number of nanoseconds. Values are copied, so the clone
-- functions keep only what they change.
use m_aistr.Prelude.{
  ℕ, suc, String, Bool, true, false, ◌&&◌, ◌||◌, Option, List, [], ◌∷◌, map, is_empty, concat,
  if◌then◌else◌,
}
use m_aistr.Prelude.Text.{trim_space}
use m_aistr.Prelude.Digits.{format_int}
use m_aistr.Prelude.Dict.{Dict}
use m_aistr.Scheduler.Model.{Assignment}
use m_aistr.Scheduler.Graph.{TaskGraph}

-- `other` is any other text, which only a stored or a synchronized task can hold.
pub data Status : Type 0 where
  pending running synthesizing awaiting_approval completed failed cancelled : Status
  other : String → Status

pub data DispatchAttemptStatus : Type 0 where
  running succeeded failed : DispatchAttemptStatus
  other : String → DispatchAttemptStatus

pub record DispatchAttempt : Type 0 where
  pub id : String
  pub request_id : String
  pub number : ℕ
  pub node_id : String
  pub model : String
  pub engine : String
  pub status : DispatchAttemptStatus
  pub failure_class : String
  pub http_status : ℕ
  pub error : String
  pub started_at : ℕ
  pub finished_at : Option ℕ
  pub duration_ms : ℕ

pub record SubtaskResult : Type 0 where
  pub assignment : Assignment
  pub status : Status
  pub output : String
  pub error : String
  pub attempts : List DispatchAttempt

-- `context_done` says whether the task's context is cancelled. `changed` counts the channels that
-- `changed` has held: a waiter that took channel number `g` is woken once the count passes `g`.
pub record Task : Type 0 where
  pub id : String
  pub origin : String
  pub sequence : ℕ  -- uint64
  pub description : String
  pub status : Status
  pub subtasks : List SubtaskResult
  pub graph : Option TaskGraph
  pub resumable : Bool
  pub last_checkpoint : String
  pub require_approval : Bool
  pub result : String
  pub error : String
  pub created_at : ℕ
  pub updated_at : ℕ
  pub context_done : Bool
  pub changed : ℕ

pub record Checkpoint : Type 0 where
  pub id : String
  pub task_id : String
  pub sequence : ℕ
  pub status : Status
  pub graph : Option TaskGraph
  pub subtasks : List SubtaskResult
  pub outputs : Dict String
  pub frontier : List String
  pub error : String
  pub resumable : Bool
  pub timestamp : ℕ

abbrev pub is_pending : Status → Bool
is_pending Status.pending = true
is_pending _ = false

abbrev pub is_running : Status → Bool
is_running Status.running = true
is_running _ = false

abbrev pub is_synthesizing : Status → Bool
is_synthesizing Status.synthesizing = true
is_synthesizing _ = false

abbrev pub is_awaiting_approval : Status → Bool
is_awaiting_approval Status.awaiting_approval = true
is_awaiting_approval _ = false

abbrev pub is_completed : Status → Bool
is_completed Status.completed = true
is_completed _ = false

abbrev pub is_failed : Status → Bool
is_failed Status.failed = true
is_failed _ = false

abbrev pub is_cancelled : Status → Bool
is_cancelled Status.cancelled = true
is_cancelled _ = false

-- `status == StatusPending || status == StatusRunning`
abbrev pub is_unfinished : Status → Bool
is_unfinished s = is_pending s || is_running s

abbrev pub is_attempt_running : DispatchAttemptStatus → Bool
is_attempt_running DispatchAttemptStatus.running = true
is_attempt_running _ = false

abbrev pub subtask_id : SubtaskResult → String
subtask_id r = r.assignment.subtask.id

unfoldable pub dispatch_attempt_id : String → String → ℕ → String
dispatch_attempt_id task_id subtask number =
    concat (task_id ∷ ":" ∷ subtask ∷ ":" ∷ format_int number 10 ∷ [])

unfoldable pub dispatch_request_id : String → String → String
dispatch_request_id task_id subtask = concat (task_id ∷ ":" ∷ subtask ∷ [])

unfoldable pub clone_attempt : String → String → DispatchAttempt → DispatchAttempt
clone_attempt task_id subtask a =
    if is_empty a.request_id
    then record a { request_id = dispatch_request_id task_id subtask }
    else a

unfoldable pub clone_result : String → SubtaskResult → SubtaskResult
unfolding clone_attempt
clone_result task_id r = record r {
  attempts = map (clone_attempt task_id (subtask_id r)) r.attempts;
}

-- A clone fills in the request ids that older records lack.
unfoldable pub clone_task : Task → Task
unfolding clone_result
clone_task t = record t { subtasks = map (clone_result t.id) t.subtasks }

abbrev pub signal_changed : Task → Task
signal_changed t = record t { changed = suc t.changed }

aggregate_next : String → SubtaskResult → String
aggregate_next result r =
    if is_completed r.status && (if is_empty (trim_space r.output) then false else true)
    then concat (
        result
        ∷ (if is_empty result then "" else "\n\n")
        ∷ "## "
        ∷ r.assignment.subtask.description
        ∷ "\n"
        ∷ trim_space r.output
        ∷ [])
    else result

aggregate_from : String → List SubtaskResult → String
aggregate_from result [] = result
aggregate_from result (r ∷ rs) = aggregate_from (aggregate_next result r) rs

unfoldable pub aggregate_outputs : List SubtaskResult → String
unfolding aggregate_from aggregate_next
aggregate_outputs rs = aggregate_from "" rs
