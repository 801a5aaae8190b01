-- ===== src/TaskManager/Dependencies/Ready.antt =====
-- internal/taskmgr/deps.go: a subtask starts only behind its prerequisites.
use m_aistr.Prelude.{
  ℕ, String, str_eq, ◌≡◌, ◌≢◌, refl, sym, ◌∙◌, ap, arith, Bool, true, false, ◌&&◌, ◌||◌, Option,
  none, some, List, [], ◌∷◌, find, any, if_elim, Bool-cases, inl, inr, if◌then◌else◌, eq_iff,
}
use m_aistr.Prelude.Dict.{Dict, get, put, has, get-put}
use m_aistr.Scheduler.Graph.{contains_string}
use m_aistr.TaskManager.Model.{
  Status, pending, running, synthesizing, awaiting_approval, other, completed, failed, cancelled,
  Task, SubtaskResult, is_cancelled, is_completed, subtask_id,
}
use m_aistr.TaskManager.Dependencies.{
  answer, require, fill, required, readiness, settle, poll_subtask, poll_task, poll,
}

ready-head :
    (r : Status) (o : Option Bool)
    → elim o [
      | none ↦ none
      | some ready ↦ elim r [
        | completed ↦ some ready
        | failed ↦ none
        | cancelled ↦ none
        | _ ↦ some false
      ]
    ]
      ≡ some true
    → (r ≡ completed) × (o ≡ some true)
ready-head r none h = absurd (cc)
ready-head completed (some ready) h = (refl, h)
ready-head pending (some ready) h = absurd (cc)
ready-head running (some ready) h = absurd (cc)
ready-head synthesizing (some ready) h = absurd (cc)
ready-head awaiting_approval (some ready) h = absurd (cc)
ready-head failed (some ready) h = absurd (cc)
ready-head cancelled (some ready) h = absurd (cc)
ready-head (other x) (some ready) h = absurd (cc)

-- A map that is ready has only completed entries.
ready-completed :
    (d : Dict Status) (k : String)
    → readiness d ≡ some true
    → has k d ≡ true
    → get k d ≡ some completed
unfolding readiness get
ready-completed [] k h g = absurd (cc)
ready-completed ((j, r) ∷ d) k h g =
    let head = ready-head r (readiness d) h in ground (arith, head.0, ready-completed d k head.1)

put-has : (j k : String) (s : Status) (d : Dict Status) → has k d ≡ true → has k (put j s d) ≡ true
put-has j k s d h = ground (arith, get-put j k s d)

require-has :
    (ss : List String) (d : Dict Status) (k : String)
    → (contains_string ss k || has k d) ≡ true
    → has k (require ss d) ≡ true
unfolding require
require-has [] d k h = h
require-has (s ∷ ss) d k h =
    require-has ss (put s pending d) k (ground (arith, get-put s k pending d, eq_iff s k))

fill-has :
    (rs : List SubtaskResult) (d : Dict Status) (k : String)
    → has k d ≡ true
    → has k (fill rs d) ≡ true
unfolding fill
fill-has [] d k h = h
fill-has (r ∷ rs) d k h = fill-has rs _ k (
    if_elim (λ (e : Dict Status). has k e ≡ true) (has (subtask_id r) d)
      (λ _. put-has (subtask_id r) k r.status d h) (λ _. h))

require-pending :
    (ss : List String) (d : Dict Status) (k : String)
    → get k d ≢ some completed
    → get k (require ss d) ≢ some completed
unfolding require
require-pending [] d k n = n
require-pending (s ∷ ss) d k n =
    require-pending ss (put s pending d) k (λ e. ground (arith, e, n, get-put s k pending d))

-- Whether a subtask with the id is completed.
abbrev pub is_done : String → List SubtaskResult → Bool
is_done k rs = any (λ r. str_eq (subtask_id r) k && is_completed r.status) rs

fill-completed :
    (rs : List SubtaskResult) (d : Dict Status) (k : String)
    → get k d ≢ some completed
    → get k (fill rs d) ≡ some completed
    → is_done k rs ≡ true
unfolding fill
fill-completed [] d k n h = absurd (n h)
fill-completed (r ∷ rs) d k n h =
    elim (Bool-cases (str_eq (subtask_id r) k && is_completed r.status)) [
      | inl y ↦ ground (arith, y)
      | inr b ↦
          let d' = if has (subtask_id r) d then put (subtask_id r) r.status d else d in
          let absent : get k d' ≢ some completed = not_filled b in
          let later = fill-completed rs d' k absent h in ground (arith, later)
    ]
  where
    written :
        (str_eq (subtask_id r) k && is_completed r.status) ≡ false
        → get k (put (subtask_id r) r.status d) ≢ some completed
    written b e = ground (arith, b, e, n, get-put (subtask_id r) k r.status d)

    not_filled :
        (str_eq (subtask_id r) k && is_completed r.status) ≡ false
        → get k (if has (subtask_id r) d then put (subtask_id r) r.status d else d) ≢ some completed
    not_filled b =
        if_elim (λ (e : Dict Status). get k e ≢ some completed) (has (subtask_id r) d)
          (λ _. written b) (λ _. n)

empty-get : (k : String) → get {V = Status} k [] ≢ some completed
unfolding get
empty-get k e = cc

required-done :
    (dependencies : List String) (rs : List SubtaskResult) (k : String)
    → readiness (required dependencies rs) ≡ some true
    → contains_string dependencies k ≡ true
    → is_done k rs ≡ true
unfolding required
required-done ss rs k h c =
    let known = require-has ss [] k (ground (arith, c)) in
    let filled = fill-has rs (require ss []) k known in
    fill-completed rs (require ss []) k (require-pending ss [] k (empty-get k))
      (ready-completed (fill rs (require ss [])) k h filled)

settled : (done : Bool) (n : ℕ) (o : Option Bool) → settle done n o ≡ answer true → o ≡ some true
unfolding settle
settled done n none h = absurd (cc)
settled done n (some true) h = refl
settled done n (some false) h = absurd (cc)

task-answer :
    (done : Bool) (sid : String) (t : Task) (r : SubtaskResult)
    → find (λ q. str_eq (subtask_id q) sid) t.subtasks ≡ some r
    → poll_task done sid (some t) ≡ answer true
    → (readiness (required r.assignment.subtask.depends_on t.subtasks) ≡ some true)
      × (is_cancelled t.status ≡ false)
unfolding poll_task poll_subtask
task-answer done sid t r f p = elim (Bool-cases (is_cancelled t.status)) [
  | inl y ↦ absurd (ground (arith, y, p))
  | inr n ↦
      let found : poll_subtask done t (some r) ≡ answer true = ground (arith, n, p, f) in
      (settled done t.changed _ found, n)
]

poll-task :
    (done done_later : Bool) (id sid : String) (tasks : Dict Task) (t : Task)
    → get id tasks ≡ some t
    → poll done done_later id sid tasks ≡ answer true
    → poll_task done_later sid (some t) ≡ answer true
unfolding poll
poll-task true done_later id sid tasks t g p = absurd (cc)
poll-task false done_later id sid tasks t g p = sym (ap (poll_task done_later sid) g) ∙ p

-- A subtask is let start only behind its prerequisites: where a pass of the wait answers yes for a
-- subtask of a task, each id that the subtask depends on is that of a completed subtask of the
-- task, and the task is not cancelled.
pub poll-is_done :
    (done done_later : Bool) (id sid : String) (tasks : Dict Task) (t : Task) (r : SubtaskResult)
    (k : String)
    → get id tasks ≡ some t
    → find (λ q. str_eq (subtask_id q) sid) t.subtasks ≡ some r
    → poll done done_later id sid tasks ≡ answer true
    → contains_string r.assignment.subtask.depends_on k ≡ true
    → (is_done k t.subtasks ≡ true) × (is_cancelled t.status ≡ false)
poll-is_done done done_later id sid tasks t r k g f p c =
    let (ready, live) =
      task-answer done_later sid t r f (poll-task done done_later id sid tasks t g p) in
    (required-done r.assignment.subtask.depends_on t.subtasks k ready c, live)
