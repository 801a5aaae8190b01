-- ===== src/TaskManager/Sync/Exchange/Safety.antt =====
-- internal/taskmgr/sync.go: what syncTasks keeps of the tasks that are here already.
use m_aistr.Prelude.{
  ℕ, String, str_eq, ◌≡◌, refl, ◌∙◌, ap, Bool, true, false, Option, none, some, List, [], ◌∷◌,
  arith, is_empty, if_elim, eq_iff, Bool-cases, inl, inr,
}
use m_aistr.Prelude.Dict.{get, get-put}
use m_aistr.TaskManager.Model.{Task, clone_task}
use m_aistr.TaskManager.Persist.{Store, Manager, Err, save_task_and_checkpoint_locked}
use m_aistr.TaskManager.Fresh.{IsKeyed}
use m_aistr.TaskManager.Recovery.{register}
use m_aistr.TaskManager.Recovery.Keys.{KeepsTable, register-IsKeyed, table-IsKeyed}
use m_aistr.TaskManager.Sync.{interrupt_orphaned_task}
use m_aistr.TaskManager.Sync.Exchange.{
  Mode, merge_missing, stamp_incoming, adopt, attach, install, passes_over, installed, is_unknown,
  take_over, sync_one, sync_loop, sync_tasks, next_verdict,
}

module _ {S : Type 0} where
  stamp-KeepsTable :
      (source : String) (m : Manager S) (t : Task) → KeepsTable m (stamp_incoming source m t).0
  unfolding stamp_incoming
  stamp-KeepsTable source m t = ground arith

  adopt-KeepsTable :
      (unknown : Bool) (now : ℕ) (m : Manager S) (t : Task) → KeepsTable m (adopt unknown now m t).0
  unfolding adopt
  adopt-KeepsTable unknown now m t = ground arith

  install-IsKeyed : (m : Manager S) (t : Task) → IsKeyed m → IsKeyed (install m t)
  unfolding install register
  install-IsKeyed m t h = register-IsKeyed m t h

module _ {S : Type 0} (store : Store S) (same_json : Task → Task → Bool) (mode : Mode) where
  save-KeepsTable :
      (now : ℕ) (m : Manager S) (t : Task)
      → KeepsTable m (save_task_and_checkpoint_locked store now m t).0
  unfolding save_task_and_checkpoint_locked
  save-KeepsTable now m t = ground arith

  installed-IsKeyed :
      (m : Manager S) (t : Task) (e : Option Err)
      → IsKeyed m
      → IsKeyed (installed store same_json mode (m, t, e)).0
  unfolding installed
  installed-IsKeyed m t none h = install-IsKeyed m t h
  installed-IsKeyed m t (some e) h = h

  take_over-IsKeyed :
      (now : ℕ) (m : Manager S) (t : Task) (current : Option Task)
      → IsKeyed m
      → IsKeyed (take_over store same_json mode now m t current).0
  unfolding take_over
  take_over-IsKeyed now m t current h =
      let u = is_unknown store same_json mode current in
      let (m', t') = adopt u now m (clone_task t) in
      let saved = save_task_and_checkpoint_locked store now m' (attach t') in
      installed-IsKeyed saved.0 saved.1 saved.2 (
        table-IsKeyed m' saved.0 (save-KeepsTable now m' (attach t'))
          (table-IsKeyed m m' (adopt-KeepsTable u now m (clone_task t)) h))

  sync_one-IsKeyed :
      (source : String) (now : ℕ) (m : Manager S) (t : Task) (accepted : Bool)
      → IsKeyed m
      → IsKeyed (sync_one store same_json mode source now m t accepted).0
  unfolding sync_one
  sync_one-IsKeyed source now m t accepted h =
      let (m', t') = stamp_incoming source m t in
      let h' = table-IsKeyed m m' (stamp-KeepsTable source m t) h in
      if_elim {A = Manager S × Option Err} (λ r. IsKeyed r.0)
        (passes_over store same_json mode accepted t' (get t'.id m'.tasks)) (λ _. h')
        (λ _. take_over-IsKeyed now m' t' (get t'.id m'.tasks) h')

  -- What each step of the loop keeps, the loop keeps.
  loop_keeps :
      (Q : Manager S → Type 0) (source : String) (now : ℕ)
      → ((m : Manager S) (t : Task) (accepted : Bool)
          → Q m
          → Q (sync_one store same_json mode source now m t accepted).0)
      → (ts : List Task) (m : Manager S) (accepted : List Bool) → Q m
      → Q (sync_loop store same_json mode source now m ts accepted).0
  unfolding sync_loop
  loop_keeps Q source now step [] m accepted h = h
  loop_keeps Q source now step (t ∷ ts) m accepted h =
      let (verdict, verdicts) = next_verdict accepted in
      let (m', e) = sync_one store same_json mode source now m t verdict in
      let h' = step m t verdict h in
      if_elim {A = Manager S × Option Err} (λ r. Q r.0) (is_empty t.id) (λ _. h)
        (λ _. ended e m' _ h' (loop_keeps Q source now step ts m' verdicts h'))
    where
      ended :
          (e : Option Err) (m' : Manager S) (rest : Manager S × Option Err)
          → Q m'
          → Q rest.0
          → Q
              (elim e as (λ x. Manager S × Option Err) [
                | some failure ↦ (m', some failure)
                | none ↦ rest
              ]).0
      ended none m' rest p q = q
      ended (some failure) m' rest p q = p

  -- Whatever is synchronized, in every mode and also where it ends in an error: if every task stands
  -- under its own id and no id carries a number above the counter, that still holds afterwards.
  pub sync_tasks-IsKeyed :
      (source : String) (now : ℕ) (tasks : List Task) (m : Manager S)
      → IsKeyed m
      → IsKeyed (sync_tasks store same_json mode source now tasks m).0
  unfolding sync_tasks
  sync_tasks-IsKeyed source now tasks m h =
      loop_keeps IsKeyed _ now (sync_one-IsKeyed _ now) tasks m _ h

  id-save :
      (now : ℕ) (m : Manager S) (t : Task)
      → (save_task_and_checkpoint_locked store now m t).1.id ≡ t.id
  unfolding save_task_and_checkpoint_locked
  id-save now m t = ground arith

  id-adopt :
      (unknown : Bool) (now : ℕ) (m : Manager S) (t : Task) → (adopt unknown now m t).1.id ≡ t.id
  unfolding adopt interrupt_orphaned_task
  id-adopt unknown now m t = ground arith

  get-installed :
      (k : String) (m : Manager S) (t : Task) (e : Option Err)
      → str_eq t.id k ≡ false
      → get k (installed store same_json mode (m, t, e)).0.tasks ≡ get k m.tasks
  unfolding installed install
  get-installed k m t none n = ground (arith, get-put t.id k t m.tasks, n)
  get-installed k m t (some e) n = refl

  get-take_over :
      (k : String) (now : ℕ) (m : Manager S) (t : Task) (current : Option Task)
      → str_eq t.id k ≡ false
      → get k (take_over store same_json mode now m t current).0.tasks ≡ get k m.tasks
  unfolding take_over attach clone_task
  get-take_over k now m t current n =
      let u = is_unknown store same_json mode current in
      let (m', t') = adopt u now m (clone_task t) in
      let saved = save_task_and_checkpoint_locked store now m' (attach t') in
      let named : saved.1.id ≡ t.id =
        id-save now m' (attach t') ∙ id-adopt u now m (clone_task t) in
      get-installed k saved.0 saved.1 saved.2 (ap (λ i. str_eq i k) named ∙ n)
      ∙ ap (get k)
          ((save-KeepsTable now m' (attach t')).0 ∙ (adopt-KeepsTable u now m (clone_task t)).0)

module _ {S : Type 0} (store : Store S) (same_json : Task → Task → Bool) where
  known_passed :
      (accepted : Bool) (t : Task) (o : Option Task) {u : Task}
      → o ≡ some u
      → passes_over store same_json merge_missing accepted t o ≡ true
  unfolding passes_over
  known_passed accepted t none e = absurd (cc)
  known_passed accepted t (some c) e = refl

  one_missing :
      (k : String) (u : Task) (source : String) (now : ℕ) (m : Manager S) (t : Task)
      (accepted : Bool)
      → get k m.tasks ≡ some u
      → get k (sync_one store same_json merge_missing source now m t accepted).0.tasks ≡ some u
  unfolding sync_one
  one_missing k u source now m t accepted h =
      let (m', t') = stamp_incoming source m t in
      let here : get k m'.tasks ≡ some u = ap (get k) (stamp-KeepsTable source m t).0 ∙ h in
      if_elim {A = Manager S × Option Err} (λ r. get k r.0.tasks ≡ some u)
        (passes_over store same_json merge_missing accepted t' (get t'.id m'.tasks)) (λ _. here)
        (λ over. elim (Bool-cases (str_eq t'.id k)) [
          | inl same ↦
              let at_id : get t'.id m'.tasks ≡ some u =
                ap (λ i. get i m'.tasks) ((eq_iff t'.id k).0 same) ∙ here in
              let passed = known_passed accepted t' (get t'.id m'.tasks) {u = u} at_id in
              absurd (cc)
          | inr other ↦
              get-take_over store same_json merge_missing k now m' t' (get t'.id m'.tasks) other
              ∙ here
        ])

  -- A synchronization that only adds missing tasks never changes a task that is here, whatever comes
  -- and also where it ends in an error.
  pub sync_tasks-merge_missing :
      (k : String) (u : Task) (source : String) (now : ℕ) (tasks : List Task) (m : Manager S)
      → get k m.tasks ≡ some u
      → get k (sync_tasks store same_json merge_missing source now tasks m).0.tasks ≡ some u
  unfolding sync_tasks
  sync_tasks-merge_missing k u source now tasks m h =
      loop_keeps store same_json merge_missing (λ x. get k x.tasks ≡ some u) _ now
        (one_missing k u _ now) tasks m _ h
