-- ===== src/TaskManager/Sync/Merge.antt =====
-- internal/taskmgr/sync.go: the index that mergeReplicaTaskSlices keeps of its slice.
use m_aistr.Prelude.{
  ℕ, zero, suc, String, str_eq, ◌≡◌, ◌≢◌, refl, sym, ◌∙◌, arith, if◌then◌else◌, if_elim, Bool,
  false, is_empty, eq_iff, subst, ap, Bool-cases, inl, inr, List, [], ◌∷◌, ◌++◌, length, ◌==◌,
  Option, none, some,
}
use m_aistr.Prelude.Dict.{Dict, get, put, get-put}
use m_aistr.TaskManager.Model.{Task, clone_task}
use m_aistr.TaskManager.Sync.{
  Merged, at, set_at, merge_current, merge_one, merge_incoming, outranks_at,
  interrupt_orphaned_task,
}

-- The task that the map says an id stands at.
abbrev found : Option ℕ → List Task → Option Task
found none ts = none
found (some i) ts = at i ts

-- Every index of the map is one of the slice, and the task there has the id.
abbrev pub IsIndexed : Merged → Type 0
IsIndexed (merged, index) =
    (id : String) (i : ℕ)
    → get id index ≡ some i
    → (t : Task) × (at i merged ≡ some t) × (t.id ≡ id)

pub at-append : (i : ℕ) (ts us : List Task) {t : Task} → at i ts ≡ some t → at i (ts ++ us) ≡ some t
unfolding at
at-append i [] us h = absurd (cc)
at-append zero (u ∷ ts) us h = h
at-append (suc i) (u ∷ ts) us {t = t} h = at-append i ts us {t = t} h

at-length : (ts : List Task) (t : Task) → at (length ts) (ts ++ t ∷ []) ≡ some t
unfolding at
at-length [] t = refl
at-length (u ∷ ts) t = at-length ts t

append-IsIndexed :
    (t : Task) (merged : List Task) (index : Dict ℕ) (id : String)
    → t.id ≡ id
    → IsIndexed (merged, index)
    → IsIndexed (merged ++ t ∷ [], put id (length merged) index)
append-IsIndexed t merged index id e h j i q =
    let read = get-put id j (length merged) index in
    elim (Bool-cases (str_eq id j)) [
      | inl y ↦
          let same : id ≡ j = ground (arith, y, eq_iff id j) in
          let end : length merged ≡ i = ground (arith, y, q, read) in
          (t, subst (λ n. at n (merged ++ t ∷ []) ≡ some t) end (at-length merged t), e ∙ same)
      | inr n ↦
          let old : get j index ≡ some i = ground (arith, n, q, read) in
          let (u, at_i, named) = h j i old in (u, at-append i merged (t ∷ []) {t = u} at_i, named)
    ]

pub set_at-same :
    (i : ℕ) (t : Task) (ts : List Task) {u : Task}
    → at i ts ≡ some u
    → at i (set_at i t ts) ≡ some t
unfolding at set_at
set_at-same i t [] h = absurd (cc)
set_at-same zero t (v ∷ ts) h = refl
set_at-same (suc i) t (v ∷ ts) {u = u} h = set_at-same i t ts {u = u} h

pub set_at-other :
    (i j : ℕ) (t : Task) (ts : List Task) → (j == i) ≡ false → at j (set_at i t ts) ≡ at j ts
unfolding at set_at
set_at-other i j t [] h = refl
set_at-other zero zero t (v ∷ ts) h = absurd (ground (arith, h))
set_at-other zero (suc j) t (v ∷ ts) h = refl
set_at-other (suc i) zero t (v ∷ ts) h = refl
set_at-other (suc i) (suc j) t (v ∷ ts) h = set_at-other i j t ts (ground (arith, h))

-- The task at an id's index may change to another one with the id.
set_at-IsIndexed :
    (i : ℕ) (t : Task) (merged : List Task) (index : Dict ℕ)
    → get t.id index ≡ some i
    → IsIndexed (merged, index)
    → IsIndexed (set_at i t merged, index)
set_at-IsIndexed i t merged index g h id j q =
    let (u, at_j, named) = h id j q in
    elim (Bool-cases (j == i)) [
      | inl y ↦
          let same : i ≡ j = ground (arith, y) in
          let (v, at_i, own) = h t.id i g in
          let there : v ≡ u =
            let met : at i merged ≡ at j merged = ap (λ n. at n merged) same in cc in
          (
            t,
            subst (λ n. at n (set_at i t merged) ≡ some t) same
                (set_at-same i t merged {u = v} at_i),
            sym own ∙ ap (λ w. w.id) there ∙ named,
          )
      | inr n ↦ (u, set_at-other i j t merged n ∙ at_j, named)
    ]

current-IsIndexed : (ts : List Task) (s : Merged) → IsIndexed s → IsIndexed (merge_current ts s)
unfolding merge_current clone_task
current-IsIndexed [] s h = h
current-IsIndexed (t ∷ ts) (merged, index) h =
    if_elim {A = Merged} IsIndexed (is_empty t.id) (λ _. current-IsIndexed ts (merged, index) h)
      (λ _. current-IsIndexed ts _ (append-IsIndexed (clone_task t) merged index t.id refl h))

orphaned-id : (now : ℕ) (t : Task) → (interrupt_orphaned_task now t).id ≡ t.id
unfolding interrupt_orphaned_task
orphaned-id now t = ground arith

one-IsIndexed :
    (now : ℕ) (t : Task) (s : Merged) (o : Option ℕ)
    → get t.id s.1 ≡ o
    → IsIndexed s
    → IsIndexed (merge_one now t s o).0
unfolding merge_one clone_task
one-IsIndexed now t (merged, index) none q h =
    append-IsIndexed (interrupt_orphaned_task now (clone_task t)) merged index t.id
      (orphaned-id now (clone_task t)) h
one-IsIndexed now t (merged, index) (some i) q h =
    if_elim {A = Merged × Bool} (λ r. IsIndexed r.0) (outranks_at t (at i merged))
      (λ _. set_at-IsIndexed i (clone_task t) merged index q h) (λ _. h)

incoming_IsIndexed :
    (now : ℕ) (ts : List Task) (s : Merged) → IsIndexed s → IsIndexed (merge_incoming now ts s).0
unfolding merge_incoming
incoming_IsIndexed now [] s h = h
incoming_IsIndexed now (t ∷ ts) s h =
    incoming_IsIndexed now ts
      (if is_empty t.id then (s, false) else merge_one now t s (get t.id s.1)).0
      (if_elim {A = Merged × Bool} (λ r. IsIndexed r.0) (is_empty t.id) (λ _. h)
        (λ _. one-IsIndexed now t s (get t.id s.1) refl h))

nothing : (id : String) (i : ℕ) → get {V = ℕ} id [] ≢ some i
unfolding get
nothing id i q = cc

-- The index of a slice that is merged stays sound: each id that it holds leads to a place inside
-- the slice, where a task with that id stands.
pub merge_incoming-IsIndexed :
    (now : ℕ) (current incoming : List Task)
    → IsIndexed (merge_incoming now incoming (merge_current current ([], []))).0
merge_incoming-IsIndexed now current incoming =
    incoming_IsIndexed now incoming _
      (current-IsIndexed current ([], []) (λ id i q. absurd (nothing id i q)))
