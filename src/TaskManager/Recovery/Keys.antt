-- ===== src/TaskManager/Recovery/Keys.antt =====
-- internal/taskmgr/recovery.go: after a restart the counter lies above the ids of the loaded tasks.
use m_aistr.Prelude.{
  ℕ, String, ◌≤◌, ◌≡◌, refl, ap, ◌∙◌, sym, subst, Bool, true, false, some, List, [], ◌∷◌, arith,
  if◌then◌else◌, is_empty,
}
use m_aistr.Prelude.Dict.{get}
use m_aistr.TaskManager.Model.{Task}
use m_aistr.Prelude.Integers.{ℤ, pos, negsuc}
use m_aistr.TaskManager.Ids.{task_sequence, raise_seq}
use m_aistr.TaskManager.Persist.{Store, Manager, Result, ok, err, no_task_id, new_manager}
use m_aistr.TaskManager.Keeps.{put-each}
use m_aistr.TaskManager.Fresh.{IsAtMost, IsKeyed, Within, Within-mono}
use m_aistr.TaskManager.Recovery.{
  load_origin, load_restamp, checkpoint_loaded, load_task, register, load_tasks, WriteBack,
  write_back, noted, opened, written, open_manager,
}

raise-le : (n : ℤ) (seq : ℕ) → seq ≤ raise_seq n seq
unfolding raise_seq
raise-le (pos n) seq = ground arith
raise-le (negsuc n) seq = ground arith

raise-IsAtMost : (n : ℤ) (seq : ℕ) → IsAtMost n (raise_seq n seq)
unfolding raise_seq
raise-IsAtMost (pos n) seq = ground arith
raise-IsAtMost (negsuc n) seq = tt

abbrev pub KeepsTable : {S : Type 0} → Manager S → Manager S → Type 0
KeepsTable m m' = (m'.tasks ≡ m.tasks) × (m'.seq ≡ m.seq)

load_task-table :
    {S : Type 0} (now : ℕ) (m : Manager S) (t : Task) → KeepsTable m (load_task now m t).0
unfolding load_task load_origin load_restamp checkpoint_loaded
load_task-table now m t = ground arith

pub register-IsKeyed :
    {S : Type 0} (m : Manager S) (t : Task) → IsKeyed m → IsKeyed (register (m, t))
unfolding register Within
register-IsKeyed m t h =
    let n = raise_seq (task_sequence t.id) m.seq in
    put-each (λ k u. (u.id ≡ k) × Within k n) t.id t m.tasks
      (refl, raise-IsAtMost (task_sequence t.id) m.seq)
      (λ k u e.
        ((h k u e).0, Within-mono k m.seq n (raise-le (task_sequence t.id) m.seq) (h k u e).1))

pub table-IsKeyed : {S : Type 0} (m m' : Manager S) → KeepsTable m m' → IsKeyed m → IsKeyed m'
table-IsKeyed m m' w h k u e =
    let p = h k u (sym (ap (get k) w.0) ∙ e) in (p.0, subst (Within k) (sym w.1) p.1)

noted_inv :
    {S : Type 0} (b : Bool) (w : WriteBack) (r : Result (Manager S × List WriteBack))
    (m : Manager S) {ws : List WriteBack}
    → (if b then err no_task_id else noted w r) ≡ ok (m, ws)
    → (vs : List WriteBack) × (r ≡ ok (m, vs))
unfolding noted
noted_inv true w r m e = absurd (cc)
noted_inv false w (err x) m e = absurd (cc)
noted_inv false w (ok (m', vs)) m e = (vs, ground arith)

load_tasks-IsKeyed :
    {S : Type 0} (now : ℕ) (ts : List Task) (m m' : Manager S) {ws : List WriteBack}
    → IsKeyed m
    → load_tasks now m ts ≡ ok (m', ws)
    → IsKeyed m'
unfolding load_tasks
load_tasks-IsKeyed now [] m m' h e = let same : m ≡ m' = ground arith in subst IsKeyed same h
load_tasks-IsKeyed now (t ∷ ts) m m' h e =
    let loaded = load_task now m t in
    let rest =
      noted_inv (is_empty t.id) (write_back t loaded.1) (load_tasks now (register loaded) ts) m'
        e in
    load_tasks-IsKeyed now ts (register loaded) m'
      (register-IsKeyed loaded.0 loaded.1 (table-IsKeyed m loaded.0 (load_task-table now m t) h))
      rest.1

written_inv :
    {S : Type 0} (store : Store S) (now : ℕ) (s : S) (r : Result (Manager S × List WriteBack))
    (m : Manager S)
    → written store now s r ≡ ok m
    → (m' : Manager S) × (ws : List WriteBack) × (r ≡ ok (m', ws)) × KeepsTable m' m
unfolding written opened
written_inv store now s (err x) m e = absurd (cc)
written_inv store now s (ok (m', ws)) m e = (m', ws, refl, ground arith)

-- When a manager opens with stored tasks, every task stands under its own id and the counter is
-- not below the number in any id.
pub open_manager-IsKeyed :
    {S : Type 0} (store : Store S) (now : ℕ) (origin : String) (has_finalizer : Bool)
    (stored : List Task) (s : S) (m : Manager S)
    → open_manager store now origin has_finalizer stored s ≡ ok m
    → IsKeyed m
unfolding open_manager
open_manager-IsKeyed store now origin has_finalizer stored s m e =
    let r =
      written_inv store now s (load_tasks now (new_manager origin (some s) has_finalizer) stored) m
        e in
    table-IsKeyed r.0 m r.3 (
      load_tasks-IsKeyed now stored (new_manager origin (some s) has_finalizer) r.0
        (unfold new_manager get in λ k u q. absurd (cc)) r.2)
