-- ===== src/TaskManager/Final.antt =====
-- internal/taskmgr: what a completed task keeps through every later operation.
use m_aistr.Prelude.{
  ℕ, suc, String, ◌<◌, ◌^◌, ◌≡◌, ◌≢◌, refl, sym, ap, ◌∙◌, subst, Bool, true, Option, some, List, [],
  ◌∷◌, arith, map, update_first,
}
use m_aistr.Prelude.Dict.{get}
use m_aistr.Scheduler.Model.{Subtask}
use m_aistr.Scheduler.Graph.{TaskGraph}
use m_aistr.TaskManager.Model.{Status, completed, Task, SubtaskResult, DispatchAttemptStatus}
use m_aistr.TaskManager.Persist.{Store, Manager}
use m_aistr.TaskManager.Transitions.{has_id}
use m_aistr.TaskManager.Lifecycle.Preservation.{find-unfinished}
use m_aistr.TaskManager.Attempts.{Report, close_subtasks, close_result}
use m_aistr.TaskManager.Keeps.{Keeps, has_unfinished}
use m_aistr.TaskManager.Operations.{Operation, apply}
use m_aistr.TaskManager.Operations.Preservation.{apply-each}
use m_aistr.TaskManager.Consistency.Lists.{allowed, any-allowed}
use m_aistr.TaskManager.Consistency.Steps.{IsConsistent}
use m_aistr.TaskManager.Consistency.Runs.{consistency}
use m_aistr.TaskManager.Fresh.{IsKeyed, gen_id-fresh}

-- The state, the output and the error of a subtask.
abbrev pub outcome : SubtaskResult → Status × String × String
outcome r = (r.status, r.output, r.error)

pub record IsFinal (t u : Task) : Type 0 where
  pub consistent : IsConsistent u
  pub status : u.status ≡ completed
  pub result : u.result ≡ t.result
  pub error : u.error ≡ t.error
  pub outcomes : map outcome u.subtasks ≡ map outcome t.subtasks

-- No subtask of a completed task is pending or running.
final-unfinished : (t u : Task) → IsFinal t u → has_unfinished u ≡ true → ⊥
unfolding allowed IsConsistent
final-unfinished t u f h = ground (arith, any-allowed u.status u.subtasks f.consistent h, f.status)

map-update_first :
    (p : SubtaskResult → Bool) (f : SubtaskResult → SubtaskResult) (rs : List SubtaskResult)
    → ((r : SubtaskResult) → outcome (f r) ≡ outcome r)
    → map outcome (update_first p f rs) ≡ map outcome rs
map-update_first p f [] k = refl
map-update_first p f (r ∷ rs) k = ground (arith, k r, map-update_first p f rs k)

close-IsFinal :
    (sid : String) (n : ℕ) (s : DispatchAttemptStatus) (r : Report) (now : ℕ) (t u : Task)
    → IsFinal t u
    → IsFinal t (close_subtasks sid n s r now u)
unfolding close_result
close-IsFinal sid n s r now t u f = record {
  consistent = consistency.close u.id sid n s r now u f.consistent;
  status = f.status;
  result = f.result;
  error = f.error;
  outcomes =
      map-update_first (has_id sid) (close_result n s r now) u.subtasks (λ x. refl) ∙ f.outcomes;
}

-- Under the key `k`, every change that an operation makes is ruled out but the end of an attempt.
final : (k : String) (t : Task) → Keeps (λ j u. j ≡ k → IsFinal t u) (λ j. j ≢ k)
final k t = record {
  same = λ j u v w p e.
      let f = p e in
      record {
        consistent = consistency.same j u v w f.consistent;
        status = w.status ∙ f.status;
        result = w.result ∙ f.result;
        error = w.error ∙ f.error;
        outcomes = ap (map outcome) w.subtasks ∙ f.outcomes;
      };
  new = λ j d g as' b now n e. absurd (n e);
  cancel = λ j now u h p e. let f = p e in absurd (cc (f.status, h));
  start = λ j sid now u r q h p e.
      absurd (final-unfinished t u (p e) (find-unfinished (has_id sid) u.subtasks {r = r} q h));
  reassign = λ j sid a now u h p e. absurd (final-unfinished t u (p e) h);
  complete = λ j b sid o now u h p e. absurd (final-unfinished t u (p e) h);
  approve = λ j b now u h p e. let f = p e in absurd (ground (arith, f.status, h));
  synthesis = λ j o now u h p e. let f = p e in absurd (ground (arith, f.status, h));
  resume = λ j now u h p e. let f = p e in absurd (ground (arith, f.status, h));
  begin = λ j sid a now u h p e. absurd (final-unfinished t u (p e) h);
  close = λ j sid n s r now u p e. close-IsFinal sid n s r now t u (p e);
  assign = λ j sid a u h p e. absurd (final-unfinished t u (p e) h);
}

start-IsFinal : (t v : Task) → IsConsistent t → t.status ≡ completed → v ≡ t → IsFinal t v
start-IsFinal t v c s e = record {
  consistent = subst IsConsistent (sym e) c;
  status = ap (λ x. x.status) e ∙ s;
  result = ap (λ x. x.result) e;
  error = ap (λ x. x.error) e;
  outcomes = ap (λ x. map outcome x.subtasks) e;
}

module _ {S : Type 0} (store : Store S) (graph_of : List Subtask → Option TaskGraph) where
  same_entry :
      (k : String) (m : Manager S) (t v : Task)
      → get k m.tasks ≡ some t
      → get k m.tasks ≡ some v
      → v ≡ t
  same_entry k m t v h e = cc

  -- In a manager whose tasks stand under their own ids, none with a number above the counter, which is
  -- below 2^31, let a completed task agree with its subtasks. Whatever operation comes, what stands
  -- under its id afterwards is completed with the same result and error, and the state, output and
  -- error of each subtask are the same.
  pub apply-IsFinal :
      (op : Operation) (now : ℕ) (m : Manager S) (k : String) (t u : Task)
      → suc m.seq < 2 ^ 31
      → IsKeyed m
      → get k m.tasks ≡ some t
      → IsConsistent t
      → t.status ≡ completed
      → get k (apply store graph_of op now m).tasks ≡ some u
      → IsFinal t u
  apply-IsFinal op now m k t u bound keyed h c s e =
      apply-each store graph_of (final k t) op now m
        (λ _ same. cc (gen_id-fresh store graph_of m bound keyed, h, same))
        (λ j v q same.
          start-IsFinal t v c s (same_entry k m t v h (subst (λ x. get x m.tasks ≡ some v) same q)))
        k u e refl
