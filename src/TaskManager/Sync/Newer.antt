-- ===== src/TaskManager/Sync/Newer.antt =====
-- internal/taskmgr/sync.go: mergeReplicaTaskSlices on copies from one origin.
use m_aistr.Prelude.{
  ℕ, ◌≤◌, ◌==◌, String, ◌≡◌, sym, ◌∙◌, arith, subst, ap, if_elim, if◌then◌else◌, Bool, true, false,
  is_empty, ltb, Bool-cases, inl, inr, List, [], ◌∷◌, ◌++◌, All, Option, none, some, zero, suc,
}
use m_aistr.Prelude.Dict.{get}
use m_aistr.TaskManager.Model.{Task, clone_task}
use m_aistr.TaskManager.Sync.{
  Merged, at, set_at, merge_current, merge_one, merge_incoming, outranks_at, replica_outranks,
  interrupt_orphaned_task,
}
use m_aistr.TaskManager.Sync.Merge.{at-append, set_at-same, set_at-other}
use m_aistr.TaskManager.Sync.Ranking.{older-outranks_not}

module _ (origin : String) (named : is_empty origin ≡ false) where
  abbrev From : List Task → Type 0
  From ts = All (λ t. t.origin ≡ origin) ts

  -- What stands at a place is not older than what stood there.
  abbrev Newer : List Task → List Task → Type 0
  Newer ts us =
      (i : ℕ) (u : Task)
      → at i ts ≡ some u
      → (v : Task) × (at i us ≡ some v) × (u.sequence ≤ v.sequence)

  From-append : (ts : List Task) (t : Task) → From ts → t.origin ≡ origin → From (ts ++ t ∷ [])
  From-append [] t h e = (e, tt)
  From-append (u ∷ ts) t (p, h) e = (p, From-append ts t h e)

  From-set_at :
      (i : ℕ) (t : Task) (ts : List Task) → From ts → t.origin ≡ origin → From (set_at i t ts)
  unfolding set_at
  From-set_at i t [] h e = h
  From-set_at zero t (u ∷ ts) (p, h) e = (e, h)
  From-set_at (suc i) t (u ∷ ts) (p, h) e = (p, From-set_at i t ts h e)

  From-at : (i : ℕ) (ts : List Task) (u : Task) → From ts → at i ts ≡ some u → u.origin ≡ origin
  unfolding at
  From-at i [] u h e = absurd (cc)
  From-at zero (t ∷ ts) u (p, h) e = let same : t ≡ u = cc in ap (λ z. z.origin) (sym same) ∙ p
  From-at (suc i) (t ∷ ts) u (p, h) e = From-at i ts u h e

  -- A copy that outranks another of the origin is not older.
  outranks-le :
      (current incoming : Task)
      → current.origin ≡ origin
      → incoming.origin ≡ origin
      → replica_outranks current incoming ≡ true
      → current.sequence ≤ incoming.sequence
  outranks-le current incoming c t h = elim (Bool-cases (ltb incoming.sequence current.sequence)) [
    | inl older ↦
        let refused =
          older-outranks_not current incoming (ap is_empty t ∙ named) (t ∙ sym c)
            (ground (arith, older)) in
        absurd (cc)
    | inr newer ↦ ground (arith, newer)
  ]

  set_at-Newer :
      (i : ℕ) (t : Task) (ts : List Task)
      → From ts
      → t.origin ≡ origin
      → outranks_at t (at i ts) ≡ true
      → Newer ts (set_at i (clone_task t) ts)
  unfolding clone_task outranks_at
  set_at-Newer i t ts h e wins j u q = elim (Bool-cases (j == i)) [
    | inl y ↦
        let same : j ≡ i = ground (arith, y) in
        let here : at i ts ≡ some u = subst (λ n. at n ts ≡ some u) same q in
        let wins' : replica_outranks u t ≡ true = sym (ap (outranks_at t) here) ∙ wins in
        (
          clone_task t,
          subst (λ n. at n (set_at i (clone_task t) ts) ≡ some (clone_task t)) (sym same)
              (set_at-same i (clone_task t) ts {u = u} here),
          outranks-le u t (From-at i ts u h here) e wins',
        )
    | inr n ↦ (u, set_at-other i j (clone_task t) ts n ∙ q, omega arith)
  ]

  Newer-same : (ts : List Task) → Newer ts ts
  Newer-same ts i u q = (u, q, omega arith)

  orphaned-origin :
      (now : ℕ) (t : Task) → (interrupt_orphaned_task now (clone_task t)).origin ≡ t.origin
  unfolding interrupt_orphaned_task clone_task
  orphaned-origin now t = ground arith

  abbrev Kept : List Task → Merged → Type 0
  Kept ts s = From s.0 × Newer ts s.0

  one-Kept :
      (now : ℕ) (t : Task) (s : Merged) (o : Option ℕ)
      → From s.0
      → t.origin ≡ origin
      → Kept s.0 (merge_one now t s o).0
  unfolding merge_one
  one-Kept now t (ts, index) none h e =
      let t' = interrupt_orphaned_task now (clone_task t) in
      (
        From-append ts t' h (orphaned-origin now t ∙ e),
        λ i u q. (u, at-append i ts (t' ∷ []) {t = u} q, omega arith),
      )
  one-Kept now t (ts, index) (some i) h e =
      if_elim {A = Merged × Bool} (λ r. Kept ts r.0) (outranks_at t (at i ts))
        (λ wins. (
          From-set_at i (clone_task t) ts h (unfold clone_task in e),
          set_at-Newer i t ts h e wins,
        ))
        (λ _. (h, Newer-same ts))

  incoming-Kept :
      (now : ℕ) (incoming : List Task) (s : Merged)
      → From s.0
      → From incoming
      → Kept s.0 (merge_incoming now incoming s).0
  unfolding merge_incoming
  incoming-Kept now [] s h k = (h, Newer-same s.0)
  incoming-Kept now (t ∷ ts) s h (e, k) =
      let s' = (if is_empty t.id then (s, false) else merge_one now t s (get t.id s.1)).0 in
      let one : Kept s.0 s' =
        if_elim {A = Merged × Bool} (λ r. Kept s.0 r.0) (is_empty t.id) (λ _. (h, Newer-same s.0))
          (λ _. one-Kept now t s (get t.id s.1) h e) in
      let rest = incoming-Kept now ts s' one.0 k in
      (
        rest.0,
        λ i u q.
            let (v, at_v, le) = one.1 i u q in
            let (w, at_w, le') = rest.1 i v at_v in (w, at_w, omega (arith, le, le')),
      )

  current-From : (ts : List Task) (s : Merged) → From ts → From s.0 → From (merge_current ts s).0
  unfolding merge_current clone_task
  current-From [] s h k = k
  current-From (t ∷ ts) (merged, index) (e, h) k =
      if_elim {A = Merged} (λ s. From s.0) (is_empty t.id)
        (λ _. current-From ts (merged, index) h k)
        (λ _. current-From ts _ h (From-append merged (clone_task t) k e))

  -- Where all copies of two slices have one origin, which is not empty, no merge makes a copy older:
  -- what stands at a place of the slice before the incoming copies, stands there afterwards or is
  -- replaced by a copy with a sequence number that is not lower, whatever the states, errors and
  -- times of the copies.
  pub merge_incoming-at :
      (now : ℕ) (current incoming : List Task) (i : ℕ) (u : Task)
      → All (λ t. t.origin ≡ origin) current
      → All (λ t. t.origin ≡ origin) incoming
      → at i (merge_current current ([], [])).0 ≡ some u
      → (v : Task) × (at i (merge_incoming now incoming (merge_current current ([], []))).0.0
          ≡ some v)
        × (u.sequence ≤ v.sequence)
  merge_incoming-at now current incoming i u h k q =
      (incoming-Kept now incoming (merge_current current ([], []))
          (current-From current ([], []) h tt) k).1
        i u q
