-- ===== src/Scheduler/Sorting/Sorted.antt =====
-- internal/scheduler/graph.go: what TopologicalSort gives for a graph that Validate accepts.
use m_aistr.Prelude.{
  ℕ, suc, ◌+◌, ◌≤◌, ◌==◌, ◌≡◌, refl, sym, subst, ap, ◌∙◌, arith, String, str_eq, eq_iff, true, List,
  [], ◌∷◌, map, length, sort_by, All, any, if◌then◌else◌, Option-cases, Bool-cases, ◌&&◌, inl, inr,
}
use m_aistr.Prelude.Text.{str_lt}
use m_aistr.Prelude.Dict.{Dict, get, has, get-All}
use m_aistr.Prelude.Occurrences.{occ, keys, has-occ, occ-has, occ-sort_by, length-occ, length-keys}
use m_aistr.Scheduler.Model.{Subtask}
use m_aistr.Scheduler.Graph.{Edge, TaskGraph, is_edge}
use m_aistr.Scheduler.Search.Order.{IsOrder}
use m_aistr.Scheduler.Validation.{valid, validate, prerequisites}
use m_aistr.Scheduler.Validation.Checks.{IsClosed-prerequisites}
use m_aistr.Scheduler.Validation.Verdict.{IsPlan, validate-IsPlan, valid-IsOrder}
use m_aistr.Scheduler.Sorting.{
  sync_edges, degrees, without_degree, sorted_node, drain, sorted, complete, sort_synced,
  sort_valid, topological_sort,
}
use m_aistr.Scheduler.Sorting.Tables.{
  pending, Targeted, occ-first_queue, degrees-pending, remaining-nil,
}
use m_aistr.Scheduler.Sorting.Rounds.{IsRound}
use m_aistr.Scheduler.Sorting.Drained.{after, occ-after, InTurn, Drained, drain-Drained}
use m_aistr.Scheduler.Sorting.Synced.{
  IsKeyed, Asked, sync_edges-nodes, sync_edges-Asked, prerequisites-edge,
}

length-map : (f : String → Subtask) (xs : List String) → length (map f xs) ≡ length xs
length-map f [] = refl
length-map f (x ∷ xs) = ap suc (length-map f xs)

-- The prerequisites of each id stand before it, or in `s`.
abbrev pub Follows : (String → List String) → List String → List String → Type 0
Follows pre s [] = Unit
Follows pre s (c ∷ ids) = ((d : String) → 1 ≤ occ d (pre c) → 1 ≤ occ d s) × Follows pre (c ∷ s) ids

abbrev pub names : List Subtask → List String
names rs = map (λ r. r.id) rs

pending-edge :
    (es : List Edge) (s : List String) (x d : String)
    → pending es s x ≡ 0
    → any (is_edge d x) es ≡ true
    → 1 ≤ occ d s
pending-edge [] s x d p h = absurd (cc)
pending-edge (e ∷ es) s x d p h = ground (arith, p, h, pending-edge es s x d, eq_iff e.source d)

edges-pending :
    (es : List Edge) (s : List String) (x : String)
    → ((e : Edge)
        → any (is_edge e.source e.target) es ≡ true
        → str_eq e.target x ≡ true
        → 1 ≤ occ e.source s)
    → pending es s x ≡ 0
edges-pending [] s x h = refl
edges-pending (e ∷ es) s x h = ground (
  arith,
  h e,
  eq_iff e.source e.source,
  eq_iff e.target e.target,
  edges-pending es s x (λ f m q. h f (ground (arith, m)) q),
)

Asked-edge :
    (g : TaskGraph) (es : List Edge)
    → All (Asked g) es
    → (e : Edge) → any (is_edge e.source e.target) es ≡ true
    → 1 ≤ occ e.source (prerequisites g e.target)
Asked-edge g [] a e h = absurd (cc)
Asked-edge g (f ∷ es) ((j, m), a) e h = elim (Bool-cases (is_edge e.source e.target f)) [
  | inl q ↦
      subst (λ z. 1 ≤ occ e.source (prerequisites g z))
        (ground (arith, q, eq_iff f.target e.target))
        (subst (λ z. 1 ≤ occ z (prerequisites g f.target))
          (ground (arith, q, eq_iff f.source e.source)) m)
  | inr q ↦ Asked-edge g es a e (ground (arith, h, q))
]

Asked-Targeted :
    (g : TaskGraph) (nodes : Dict Subtask) (es : List Edge)
    → nodes ≡ g.nodes
    → All (Asked g) es
    → Targeted nodes es
Asked-Targeted g nodes [] s a = tt
Asked-Targeted g nodes (e ∷ es) s (((_, _, t), _), a) =
    (ap (has e.target) s ∙ t, Asked-Targeted g nodes es s a)

module _ (g : TaskGraph) (keyed : IsKeyed g.nodes) (accepted : validate g ≡ valid) where
  plan : IsPlan g
  plan = (validate-IsPlan g).0 accepted

  abbrev synced : TaskGraph
  synced = sync_edges g

  targeted : Targeted synced.nodes synced.edges
  targeted =
      Asked-Targeted g synced.nodes synced.edges (sync_edges-nodes g keyed plan.closed)
        (sync_edges-Asked g keyed plan.closed)

  abbrev first_queue : List String
  first_queue = sort_by str_lt (without_degree (degrees synced))

  first-IsRound : IsRound synced [] [] first_queue (degrees synced)
  first-IsRound = record {
    counted = λ x. omega (arith, degrees-pending synced x);
    once = λ x. ground (arith, queue x);
    free = λ x h. ground (arith, h, queue x, degrees-pending synced x);
    queued = λ x m h. ground (arith, m, h, queue x, degrees-pending synced x);
    known = λ x h. ground (arith, h, queue x);
  }
    where
      queue :
          (x : String)
          → occ x (sort_by str_lt (without_degree (degrees synced)))
            ≡ (if has x synced.nodes && (pending synced.edges [] x == 0) then 1 else 0)
      queue x =
          occ-sort_by str_lt x (without_degree (degrees synced)) ∙ occ-first_queue synced x targeted

  drained :
      Drained synced []
        (drain synced (length first_queue + length synced.edges) first_queue (degrees synced))
  drained =
      drain-Drained synced targeted (length first_queue + length synced.edges) first_queue []
        (degrees synced) first-IsRound (omega (arith, remaining-nil synced.edges))

  ids : List String
  ids = drained.0

  same_nodes : synced.nodes ≡ g.nodes
  same_nodes = sync_edges-nodes g keyed plan.closed

  InTurn-Follows : (s is : List String) → InTurn synced s is → Follows (prerequisites g) s is
  InTurn-Follows s [] t = tt
  InTurn-Follows s (c ∷ is) (p, t) = (
    (λ d m. pending-edge synced.edges s c d p (prerequisites-edge g keyed plan.closed c d m)),
    InTurn-Follows (c ∷ s) is t,
  )

  last-IsRound : (d : Dict ℕ) × IsRound synced (after [] ids) [] [] d
  unfolding ids
  last-IsRound = drained.3

  next-done :
      (x : String)
      → has x g.nodes ≡ true
      → ((d : String) → 1 ≤ occ d (prerequisites g x) → 1 ≤ occ d (after [] ids))
      → 1 ≤ occ x (after [] ids)
  next-done x m h =
      let (d, r) = last-IsRound in
      let none_pending = edges-pending synced.edges (after [] ids) x (λ e q t. h e.source (
        subst (λ z. 1 ≤ occ e.source (prerequisites g z)) ((eq_iff e.target x).0 t)
          (Asked-edge g synced.edges (sync_edges-Asked g keyed plan.closed) e q))) in
      omega
        (arith, r.queued x (ap (has x) same_nodes ∙ m) (omega (arith, r.counted x, none_pending)))

  order-done :
      (xs : List String)
      → IsOrder (prerequisites g) xs
      → (x : String) → 1 ≤ occ x xs
      → has x g.nodes ≡ true
      → 1 ≤ occ x (after [] ids)
  order-done [] o x m h = absurd (omega (arith, m))
  order-done (y ∷ ys) (here, o) x m h = elim (Bool-cases (str_eq y x)) [
    | inl q ↦ next-done x h (λ d k.
        order-done ys o d
          (here d (subst (λ z. 1 ≤ occ d (prerequisites g z)) (sym ((eq_iff y x).0 q)) k))
          (occ-has d g.nodes (IsClosed-prerequisites g plan.closed x d k)))
    | inr q ↦ order-done ys o x (ground (arith, m, q)) h
  ]

  -- Every node is done once, and nothing else is.
  ids-occ : (x : String) → occ x ids ≡ occ x (keys g.nodes)
  ids-occ x =
      let (d, r) = last-IsRound in
      let (xs, all_in, order) = valid-IsOrder g accepted in
      elim (Bool-cases (has x g.nodes)) [
        | inl h ↦ ground (
          arith,
          has-occ x g.nodes h,
          keyed.distinct x,
          r.once x,
          occ-after [] ids x,
          order-done xs order x (all_in x (has-occ x g.nodes h)) h,
        )
        | inr h ↦
            ground
              (arith, h, occ-has x g.nodes, r.known x, occ-after [] ids x, ap (has x) same_nodes)
      ]

  count : length (map (sorted_node synced) ids) ≡ length synced.nodes
  count = omega (
    arith,
    length-map (sorted_node synced) ids,
    length-occ ids (keys g.nodes) ids-occ,
    length-keys g.nodes,
    ap length same_nodes,
  )

  ids-names :
      (is : List String)
      → ((x : String) → 1 ≤ occ x is → has x g.nodes ≡ true)
      → names (map (sorted_node synced) is) ≡ is
  unfolding sorted_node
  ids-names [] h = refl
  ids-names (x ∷ is) h = elim (Option-cases (get x g.nodes)) [
    | inl e ↦ absurd (ground (arith, e, h x, eq_iff x x))
    | inr (node, e) ↦ ground (
      arith,
      e,
      ap (get x) same_nodes,
      ids-names is (λ y m. h y (ground (arith, m))),
      get-All (λ entry. entry.1.id ≡ entry.0) x node g.nodes keyed.own_ids e,
    )
  ]

  sort_synced-sorted : sort_synced synced ≡ sorted (map (sorted_node synced) ids)
  unfolding sort_synced complete ids
  sort_synced-sorted = rw drained.1 (ground (arith, count))

-- Nodes sorted as a plan asks for: each once, behind all its prerequisites.
pub record IsSortOf (g : TaskGraph) (rs : List Subtask) : Type 0 where
  pub each_once : (x : String) → occ x (names rs) ≡ occ x (keys g.nodes)
  pub follows : Follows (prerequisites g) [] (names rs)

-- For a graph that Validate accepts, whose nodes stand under their own ids, each once, not empty
-- and without outer spaces, TopologicalSort gives a list: every node is in it exactly once and
-- nothing else, and the prerequisites of each node, by edge or by its own list, stand before it.
-- So it neither runs out of fuel nor reports a cycle.
pub topological_sort-IsSortOf :
    (g : TaskGraph)
    → IsKeyed g.nodes
    → validate g ≡ valid
    → (rs : List Subtask) × ((topological_sort g).1 ≡ sorted rs) × IsSortOf g rs
unfolding topological_sort sort_valid ids
topological_sort-IsSortOf g keyed accepted =
    let is = ids g keyed accepted in
    let rs = map (sorted_node (sync_edges g)) is in
    let named : names rs ≡ is =
      ids-names g keyed accepted is
        (λ x m. occ-has x g.nodes (omega (arith, ids-occ g keyed accepted x, m))) in
    (
      rs,
      rw accepted (sort_synced-sorted g keyed accepted),
      record {
        each_once = λ x.
            subst (λ z. occ x z ≡ occ x (keys g.nodes)) (sym named) (ids-occ g keyed accepted x);
        follows =
            subst (Follows (prerequisites g) []) (sym named)
              (InTurn-Follows g keyed accepted [] is (drained g keyed accepted).2);
      },
    )
