-- ===== src/TaskManager/Attempts.antt =====
-- internal/taskmgr/dispatch_attempts.go: the attempts to dispatch a subtask to a node.
pub mod Preservation
pub mod Winning
use m_aistr.Prelude.{
  ℕ, suc, ◌+◌, ◌*◌, ◌/◌, String, Bool, true, false, not, ◌&&◌, Option, none, some, List, [], ◌∷◌,
  ◌++◌, if◌then◌else◌, find, update_first, length, ◌==◌,
}
use m_aistr.Prelude.Dict.{get}
use m_aistr.Scheduler.Model.{Assignment}
use m_aistr.TaskManager.Model.{
  Task, SubtaskResult, DispatchAttempt, DispatchAttemptStatus, is_attempt_running, is_running,
  is_cancelled, clone_task, dispatch_attempt_id, dispatch_request_id, signal_changed,
}
use m_aistr.TaskManager.Persist.{
  Store, Manager, Err, task_not_found, subtask_not_found, subtask_not_active, attempt_not_found,
  attempt_finished, invalid_attempt_status, Result, ok, err, result, persist, put_task,
}
use m_aistr.TaskManager.Transitions.{Outcome, output, has_id, touch}
use m_aistr.TaskManager.Lifecycle.{Next, returns, failed_with, complete_locked}

abbrev pub has_number : ℕ → DispatchAttempt → Bool
has_number n a = a.number == n

unfoldable pub new_attempt : String → String → ℕ → Assignment → ℕ → DispatchAttempt
new_attempt id sid number a now = record {
  id = dispatch_attempt_id id sid number;
  request_id = dispatch_request_id id sid;
  number = number;
  node_id = a.node_id;
  model = a.model;
  engine = a.engine;
  status = DispatchAttemptStatus.running;
  failure_class = "";
  http_status = 0;
  error = "";
  started_at = now;
  finished_at = none;
  duration_ms = 0;
}

unfoldable pub begin_result : String → String → Assignment → ℕ → SubtaskResult → SubtaskResult
begin_result id sid a now r = record r {
  attempts = r.attempts ++ new_attempt id sid (length r.attempts + 1) a now ∷ [];
}

unfoldable pub begin_task : String → String → Assignment → ℕ → Task → Task
unfolding begin_result
begin_task id sid a now t =
    touch now
      (record t { subtasks = update_first (has_id sid) (begin_result id sid a now) t.subtasks })

-- What the caller says of a finished attempt. The duration is in nanoseconds; `error` is the text
-- of `attemptErr`, if there is one.
pub record Report : Type 0 where
  pub failure_class : String
  pub http_status : ℕ
  pub error : Option String
  pub duration : ℕ

abbrev error_or : String → Option String → String
error_or old none = old
error_or old (some e) = e

unfoldable pub close_attempt :
    DispatchAttemptStatus → Report → ℕ → DispatchAttempt → DispatchAttempt
close_attempt status report now a = record a {
  status = status;
  failure_class = report.failure_class;
  http_status = report.http_status;
  error = error_or a.error report.error;
  finished_at = some now;
  duration_ms = report.duration / 1000000;
}

unfoldable pub close_result : ℕ → DispatchAttemptStatus → Report → ℕ → SubtaskResult → SubtaskResult
unfolding close_attempt
close_result number status report now r = record r {
  attempts = update_first (has_number number) (close_attempt status report now) r.attempts;
}

abbrev pub close_subtasks : String → ℕ → DispatchAttemptStatus → Report → ℕ → Task → Task
close_subtasks sid number status report now t = record t {
  subtasks = update_first (has_id sid) (close_result number status report now) t.subtasks;
  updated_at = now;
}

unfoldable pub assign_winner : String → Option Assignment → Task → Task
assign_winner sid none t = t
assign_winner sid (some a) t = record t {
  subtasks = update_first (has_id sid) (λ r. record r { assignment = a }) t.subtasks;
}

abbrev is_final : DispatchAttemptStatus → Bool
is_final DispatchAttemptStatus.succeeded = true
is_final DispatchAttemptStatus.failed = true
is_final _ = false

module _ {S : Type 0} (store : Store S) where
  -- `return number, nil`, or `return 0, err`.
  begun : ℕ → Manager S × Option Err → Manager S × Result ℕ
  begun number (m, e) = (m, result number e)

  begin_on :
      String
      → String
      → Assignment
      → ℕ
      → Manager S
      → Task
      → Option SubtaskResult
      → Manager S × Result ℕ
  unfolding begun
  begin_on id sid a now m t none = (m, err (subtask_not_found sid id))
  begin_on id sid a now m t (some r) =
      if is_running r.status
      then begun (length r.attempts + 1) (persist store id m (begin_task id sid a now t))
      else (m, err (subtask_not_active sid id))

  begin_found : String → String → Assignment → ℕ → Manager S → Option Task → Manager S × Result ℕ
  unfolding begin_on
  begin_found id sid a now m none = (m, err (task_not_found id))
  begin_found id sid a now m (some t) = begin_on id sid a now m t (find (has_id sid) t.subtasks)

  -- BeginDispatchAttemptChecked
  unfoldable pub begin_attempt : String → String → Assignment → ℕ → Manager S → Manager S × Result ℕ
  unfolding begin_found
  begin_attempt id sid a now m = begin_found id sid a now m (get id m.tasks)

  finish_attempt_on :
      String
      → String
      → ℕ
      → DispatchAttemptStatus
      → Report
      → ℕ
      → Manager S
      → Task
      → Option DispatchAttempt
      → Manager S × Option Err
  finish_attempt_on id sid number status report now m t none =
      (m, some (attempt_not_found number sid))
  finish_attempt_on id sid number status report now m t (some a) =
      if is_attempt_running a.status
      then persist store id m (signal_changed (close_subtasks sid number status report now t))
      else (m, some (attempt_finished number sid))

  finish_on :
      String
      → String
      → ℕ
      → DispatchAttemptStatus
      → Report
      → ℕ
      → Manager S
      → Task
      → Option SubtaskResult
      → Manager S × Option Err
  unfolding finish_attempt_on
  finish_on id sid number status report now m t none = (m, some (subtask_not_found sid id))
  finish_on id sid number status report now m t (some r) =
      finish_attempt_on id sid number status report now m t (find (has_number number) r.attempts)

  finish_found :
      String
      → String
      → ℕ
      → DispatchAttemptStatus
      → Report
      → ℕ
      → Manager S
      → Option Task
      → Manager S × Option Err
  unfolding finish_on
  finish_found id sid number status report now m none = (m, some (task_not_found id))
  finish_found id sid number status report now m (some t) =
      finish_on id sid number status report now m t (find (has_id sid) t.subtasks)

  -- FinishDispatchAttemptChecked
  unfoldable pub finish_attempt :
      String → String → ℕ → DispatchAttemptStatus → Report → ℕ → Manager S → Manager S × Option Err
  unfolding finish_found
  finish_attempt id sid number status report now m =
      if is_final status
      then finish_found id sid number status report now m (get id m.tasks)
      else (m, some invalid_attempt_status)

  -- The first result says whether the attempt won: then `onWinner` is called.
  lost : Manager S × Option Err → Manager S × Bool × Next
  lost (m, e) = (m, false, returns e)

  won : Manager S × Next → Manager S × Bool × Next
  won (m, next) = (m, true, next)

  -- The new assignment may name another subtask; then none is left to complete, and what was
  -- changed in the task stays unwritten.
  complete_winner :
      String
      → String
      → String
      → ℕ
      → Manager S
      → Task
      → Option SubtaskResult
      → Manager S × Bool × Next
  unfolding won
  complete_winner id sid text now m t none =
      (put_task id t m, false, failed_with (subtask_not_found sid id))
  complete_winner id sid text now m t (some r) =
      won (complete_locked store id sid (output text) now m t)

  pub settle :
      String
      → String
      → Option Assignment
      → String
      → ℕ
      → Manager S
      → Task
      → SubtaskResult
      → Manager S × Bool × Next
  unfolding lost complete_winner
  settle id sid a text now m t r =
      let t' = assign_winner sid a t in
      if is_cancelled t.status
      then lost (persist store id m (signal_changed t))
      else if not (is_running r.status)
      then lost (persist store id m (signal_changed t))
      else complete_winner id sid text now m t' (find (has_id sid) t'.subtasks)

  complete_attempt_on :
      String
      → String
      → ℕ
      → Option Assignment
      → Report
      → String
      → ℕ
      → Manager S
      → Task
      → SubtaskResult
      → Option DispatchAttempt
      → Manager S × Bool × Next
  unfolding settle
  complete_attempt_on id sid number a report text now m t r none =
      (m, false, failed_with (attempt_not_found number sid))
  complete_attempt_on id sid number a report text now m t r (some attempt) =
      if is_attempt_running attempt.status
      then settle id sid a text now m
          (close_subtasks sid number DispatchAttemptStatus.succeeded report now t) r
      else (m, false, failed_with (attempt_finished number sid))

  complete_on :
      String
      → String
      → ℕ
      → Option Assignment
      → Report
      → String
      → ℕ
      → Manager S
      → Task
      → Option SubtaskResult
      → Manager S × Bool × Next
  unfolding complete_attempt_on
  complete_on id sid number a report text now m t none =
      (m, false, failed_with (subtask_not_found sid id))
  complete_on id sid number a report text now m t (some r) =
      complete_attempt_on id sid number a report text now m t r
        (find (has_number number) r.attempts)

  complete_found :
      String
      → String
      → ℕ
      → Option Assignment
      → Report
      → String
      → ℕ
      → Manager S
      → Option Task
      → Manager S × Bool × Next
  unfolding complete_on
  complete_found id sid number a report text now m none =
      (m, false, failed_with (task_not_found id))
  complete_found id sid number a report text now m (some t) =
      complete_on id sid number a report text now m t (find (has_id sid) t.subtasks)

  -- CompleteDispatchAttemptWithAssignmentChecked; a successful attempt reports no error.
  unfoldable pub complete_attempt :
      String
      → String
      → ℕ
      → Option Assignment
      → Report
      → String
      → ℕ
      → Manager S
      → Manager S × Bool × Next
  unfolding complete_found
  complete_attempt id sid number a report text now m =
      complete_found id sid number a (record report { error = none }) text now m (get id m.tasks)
