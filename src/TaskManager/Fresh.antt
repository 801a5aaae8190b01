-- ===== src/TaskManager/Fresh.antt =====
-- internal/taskmgr: the id that CreateWithGraphAndOptionsChecked generates belongs to no task yet.
use m_aistr.Prelude.{
  ℕ, suc, String, ◌+◌, ◌<◌, ◌≤◌, ◌^◌, length, ◌≡◌, refl, sym, subst, ◌∙◌, inl, inr, Bool, Option,
  none, some, List, [], ◌∷◌, arith, Option-cases,
}
use m_aistr.Prelude.Dict.{get}
use m_aistr.Scheduler.Model.{Subtask, Assignment}
use m_aistr.Scheduler.Graph.{TaskGraph}
use m_aistr.TaskManager.Model.{Task}
use m_aistr.TaskManager.Ids.{gen_id, task_sequence, task_sequence-gen_id}
use m_aistr.Prelude.Integers.{ℤ, pos, negsuc}
use m_aistr.TaskManager.Persist.{Store, Manager}
use m_aistr.TaskManager.Transitions.{
  Outcome, new_task, cancel_task, start_task, reassign_task, complete_task, roll_up, finish_status,
  approve_task, synthesis_task, resume_task,
}
use m_aistr.TaskManager.Attempts.{begin_task, assign_winner}
use m_aistr.TaskManager.Keeps.{Keeps, EachTask}
use m_aistr.TaskManager.Operations.{Operation, apply, run}
use m_aistr.TaskManager.Operations.Preservation.{apply-each}
use m_aistr.TaskManager.Counter.{seq-apply}

abbrev pub IsAtMost : ℤ → ℕ → Type 0
IsAtMost (pos n) seq = n ≤ seq
IsAtMost (negsuc n) seq = Unit

IsAtMost-mono : (n : ℤ) (a b : ℕ) → a ≤ b → IsAtMost n a → IsAtMost n b
IsAtMost-mono (pos n) a b h w = omega arith
IsAtMost-mono (negsuc n) a b h w = tt

-- The number in an id is not above `seq`.
unfoldable pub Within : String → ℕ → Type 0
Within id seq = IsAtMost (task_sequence id) seq

-- Every task stands under its own id, and no id carries a number above the counter.
abbrev pub IsKeyed : {S : Type 0} → Manager S → Type 0
IsKeyed m = EachTask (λ k t. (t.id ≡ k) × Within k m.seq) m.tasks

pub Within-mono : (id : String) (a b : ℕ) → a ≤ b → Within id a → Within id b
unfolding Within
Within-mono id a b h w = IsAtMost-mono (task_sequence id) a b h w

Within-gen_id : (n : ℕ) → n < 2 ^ 31 → Within (gen_id n) n
unfolding Within
Within-gen_id n h = subst (λ z. IsAtMost z n) (sym (task_sequence-gen_id n h)) (omega arith)

not_Within-gen_id : (n : ℕ) → suc n < 2 ^ 31 → ¬ Within (gen_id (suc n)) n
unfolding Within
not_Within-gen_id n h w =
    let above : suc n ≤ n = subst (λ z. IsAtMost z n) (task_sequence-gen_id (suc n) h) w in
    omega (arith, above)

id-complete_task :
    (b : Bool) (sid : String) (o : Outcome) (now : ℕ) (t : Task)
    → (complete_task b sid o now t).id ≡ t.id
unfolding complete_task roll_up finish_status
id-complete_task b sid o now t = ground arith

id-approve_task : (b : Bool) (now : ℕ) (t : Task) → (approve_task b now t).id ≡ t.id
unfolding approve_task
id-approve_task b now t = ground arith

id-synthesis_task : (o : Outcome) (now : ℕ) (t : Task) → (synthesis_task o now t).id ≡ t.id
unfolding synthesis_task
id-synthesis_task o now t = ground arith

id-assign_winner :
    (sid : String) (a : Option Assignment) (t : Task) → (assign_winner sid a t).id ≡ t.id
unfolding assign_winner
id-assign_winner sid none t = refl
id-assign_winner sid (some a) t = refl

-- An id is never changed, so what holds of the keys goes on holding.
keyed : (n : ℕ) → Keeps (λ k t. (t.id ≡ k) × Within k n) (λ k. Within k n)
unfolding new_task cancel_task start_task reassign_task resume_task begin_task
keyed n = record {
  same = λ k t u w p. (w.id ∙ p.0, p.1);
  new = λ k d g as' b now f. (refl, f);
  cancel = λ k now t _ p. p;
  start = λ k sid now t r _ _ p. p;
  reassign = λ k sid a now t _ p. p;
  complete = λ k b sid o now t _ p. (id-complete_task b sid o now t ∙ p.0, p.1);
  approve = λ k b now t _ p. (id-approve_task b now t ∙ p.0, p.1);
  synthesis = λ k o now t _ p. (id-synthesis_task o now t ∙ p.0, p.1);
  resume = λ k now t _ p. p;
  begin = λ k sid a now t _ p. p;
  close = λ k sid n' s r now t p. p;
  assign = λ k sid a t _ p. (id-assign_winner sid a t ∙ p.0, p.1);
}

module _ {S : Type 0} (store : Store S) (graph_of : List Subtask → Option TaskGraph) where
  IsKeyed-mono :
      (m : Manager S) (n : ℕ)
      → m.seq ≤ n
      → IsKeyed m
      → EachTask (λ k t. (t.id ≡ k) × Within k n) m.tasks
  IsKeyed-mono m n le h k u e = ((h k u e).0, Within-mono k m.seq n le (h k u e).1)

  -- From a manager whose tasks stand under their own ids, none with a number above the counter,
  -- each operation leads to such a manager again, as long as the counter stays below 2^31.
  pub apply-IsKeyed :
      (op : Operation) (now : ℕ) (m : Manager S)
      → suc m.seq < 2 ^ 31
      → IsKeyed m
      → IsKeyed (apply store graph_of op now m)
  apply-IsKeyed op now m bound h = elim (seq-apply store graph_of op now m) [
    | inl e ↦ rw e (
        apply-each store graph_of (keyed (suc m.seq)) op now m
          (λ _. Within-gen_id (suc m.seq) bound) (IsKeyed-mono m (suc m.seq) (omega arith) h))
    | inr e ↦ rw e (apply-each store graph_of (keyed m.seq) op now m (λ e'. absurd (omega arith)) h)
  ]

  -- Where every task stands under its own id and no id carries a number above the counter, below
  -- 2^31, the id that the next task gets is the key of none.
  pub gen_id-fresh :
      (m : Manager S) → suc m.seq < 2 ^ 31 → IsKeyed m → get (gen_id (suc m.seq)) m.tasks ≡ none
  gen_id-fresh m bound h = elim (Option-cases (get (gen_id (suc m.seq)) m.tasks)) [
    | inl e ↦ e
    | inr (t, e) ↦ absurd (not_Within-gen_id m.seq bound (h _ t e).1)
  ]

  -- Where every task stands under its own id and no id carries a number above the counter, and the
  -- counter and the number of operations add up to less than 2^31, the same holds after the run.
  pub run-IsKeyed :
      (ops : List (Operation × ℕ)) (m : Manager S)
      → m.seq + length ops < 2 ^ 31
      → IsKeyed m
      → IsKeyed (run store graph_of ops m)
  unfolding run
  run-IsKeyed [] m bound h = h
  run-IsKeyed ((op, now) ∷ rest) m bound h =
      run-IsKeyed rest (apply store graph_of op now m)
        (elim (seq-apply store graph_of op now m) [ inl e ↦ omega arith | inr e ↦ omega arith ])
        (apply-IsKeyed op now m (omega arith) h)
