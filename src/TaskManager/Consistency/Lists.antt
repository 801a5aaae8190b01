-- ===== src/TaskManager/Consistency/Lists.antt =====
-- internal/taskmgr: which states of its subtasks go with the state of a task, and the lists of
-- subtasks that the operations make.
use m_aistr.Prelude.{
  Bool, true, false, ◌≡◌, refl, some, List, [], ◌∷◌, map, all, any, find, update_first, arith,
}
use m_aistr.TaskManager.Model.{
  Status, pending, running, synthesizing, awaiting_approval, completed, failed, cancelled,
  SubtaskResult, is_completed, is_unfinished,
}

-- A finished task has finished subtasks, one whose outcome is being put together has completed
-- ones, and only a cancelled task has cancelled ones.
unfoldable pub allowed : Status → Status → Bool
allowed completed s = is_completed s
allowed synthesizing s = is_completed s
allowed awaiting_approval s = is_completed s
allowed failed completed = true
allowed failed failed = true
allowed failed _ = false
allowed cancelled completed = true
allowed cancelled failed = true
allowed cancelled cancelled = true
allowed cancelled _ = false
allowed _ pending = true
allowed _ running = true
allowed _ completed = true
allowed _ failed = true
allowed _ _ = false

abbrev pub all_allowed : Status → List SubtaskResult → Bool
all_allowed s rs = all (λ r. allowed s r.status) rs

-- A pending or a running subtask shows that its task is at work.
pub allowed_active :
    (s u v : Status)
    → allowed s u ≡ true
    → is_unfinished u ≡ true
    → allowed running v ≡ true
    → allowed s v ≡ true
unfolding allowed
allowed_active s u v h k l = ground arith

pub find-allowed :
    (s : Status) (p : SubtaskResult → Bool) (rs : List SubtaskResult) {r : SubtaskResult}
    → all_allowed s rs ≡ true
    → find p rs ≡ some r
    → allowed s r.status ≡ true
find-allowed s p [] h e = ground arith
find-allowed s p (x ∷ xs) {r = r} h e = ground (arith, find-allowed s p xs {r = r})

pub update_first-allowed :
    (s : Status) (p : SubtaskResult → Bool) (f : SubtaskResult → SubtaskResult)
    (rs : List SubtaskResult)
    → ((r : SubtaskResult) → allowed s r.status ≡ true → allowed s (f r).status ≡ true)
    → all_allowed s rs ≡ true
    → all_allowed s (update_first p f rs) ≡ true
update_first-allowed s p f [] k h = refl
update_first-allowed s p f (x ∷ xs) k h = ground (arith, k x, update_first-allowed s p f xs k)

pub map-allowed :
    (s u : Status) (f : SubtaskResult → SubtaskResult) (rs : List SubtaskResult)
    → ((r : SubtaskResult) → allowed s r.status ≡ true → allowed u (f r).status ≡ true)
    → all_allowed s rs ≡ true
    → all_allowed u (map f rs) ≡ true
map-allowed s u f [] k h = refl
map-allowed s u f (x ∷ xs) k h = ground (arith, k x, map-allowed s u f xs k)

pub all-allowed_mono :
    (s u : Status) (rs : List SubtaskResult)
    → ((r : SubtaskResult) → allowed s r.status ≡ true → allowed u r.status ≡ true)
    → all_allowed s rs ≡ true
    → all_allowed u rs ≡ true
all-allowed_mono s u [] k h = refl
all-allowed_mono s u (x ∷ xs) k h = ground (arith, k x, all-allowed_mono s u xs k)

unfinished-running :
    (s u : Status) → allowed s u ≡ true → is_unfinished u ≡ true → allowed s running ≡ true
unfolding allowed
unfinished-running s u h k = ground arith

pub any-allowed :
    (s : Status) (rs : List SubtaskResult)
    → all_allowed s rs ≡ true
    → any (λ r. is_unfinished r.status) rs ≡ true
    → allowed s running ≡ true
any-allowed s [] h k = ground arith
any-allowed s (x ∷ xs) h k = ground (arith, unfinished-running s x.status, any-allowed s xs)
