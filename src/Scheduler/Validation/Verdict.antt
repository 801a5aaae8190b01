-- ===== src/Scheduler/Validation/Verdict.antt =====
-- internal/scheduler/graph.go: what Validate accepts and what it refuses for a cycle.
use m_aistr.Prelude.{
  suc, ◌≤◌, ◌==◌, ltb, ◌≡◌, ◌≢◌, refl, sym, ap, ◌↔◌, ◌∙◌, subst, inl, inr, arith, String, Bool,
  true, false, Option, Option-cases, none, some, List, [], ◌∷◌, length, if_elim,
}
use m_aistr.Prelude.Dict.{Dict, has}
use m_aistr.Prelude.Occurrences.{occ, keys, length-keys, has-occ, occ-has}
use m_aistr.Scheduler.Model.{Subtask}
use m_aistr.Scheduler.Graph.{Edge, TaskGraph, GraphError, dependency_cycle_at}
use m_aistr.Scheduler.Search.{Colors, Visit, visited, cycle, out_of_fuel, search}
use m_aistr.Scheduler.Search.Order.{IsOrder, search-IsOrder}
use m_aistr.Scheduler.Search.Ending.{search-ends}
use m_aistr.Scheduler.Search.Cycle.{Needs, direct, further, search-cycle, order-ne-cycle}
use m_aistr.Scheduler.Validation.{
  Validity, valid, stuck, invalid, check_edges, check_names, verdict, refuse, check_depends_on,
  prerequisites, validate,
}
use m_aistr.Scheduler.Validation.Checks.{
  check_edges-Joins, check_depends_on-AllKnow, Joins-check_edges, AllKnow-check_depends_on,
  IsClosed, IsClosed-prerequisites,
}

searched : TaskGraph → Visit
searched g = search (prerequisites g) (suc (length g.nodes)) (keys g.nodes) []

-- An error that only the search gives.
abbrev from_search : GraphError → Bool
from_search (dependency_cycle_at at) = true
from_search e = false

check_edges-from_search :
    (nodes : Dict Subtask) (es : List Edge) (e : GraphError)
    → check_edges nodes es ≡ some e
    → from_search e ≡ false
unfolding check_edges
check_edges-from_search nodes [] e h = cc
check_edges-from_search nodes (x ∷ es) e h = ground (arith, h, check_edges-from_search nodes es e)

check_names-from_search :
    (nodes : Dict Subtask) (id : String) (ds : List String) (e : GraphError)
    → check_names nodes id ds ≡ some e
    → from_search e ≡ false
unfolding check_names
check_names-from_search nodes id [] e h = cc
check_names-from_search nodes id (d ∷ ds) e h =
    ground (arith, h, check_names-from_search nodes id ds e)

check_depends_on-from_search :
    (nodes checked : Dict Subtask) (e : GraphError)
    → check_depends_on nodes checked ≡ some e
    → from_search e ≡ false
unfolding check_depends_on
check_depends_on-from_search nodes [] e h = cc
check_depends_on-from_search nodes ((id, node) ∷ checked) e h =
    elim (Option-cases (check_names nodes id node.depends_on)) [
      | inl q ↦ check_depends_on-from_search nodes checked e (ground (arith, h, q))
      | inr (e', q) ↦ check_names-from_search nodes id node.depends_on e (ground (arith, h, q))
    ]

abbrev Undecided : Validity → Type 0
Undecided valid = Unit
Undecided stuck = Unit
Undecided (invalid e) = from_search e ≡ true

refused :
    (o : Option GraphError) (v : Validity)
    → ((e : GraphError) → o ≡ some e → from_search e ≡ false)
    → Undecided (refuse o v)
    → (o ≡ none) × (refuse o v ≡ v)
unfolding refuse
refused none v early u = (refl, refl)
refused (some e) v early u = absurd (ground (arith, u, early e refl))

-- The search decides what the checks before it do not.
validate-searched :
    (g : TaskGraph) → Undecided (validate g) → IsClosed g × (validate g ≡ verdict (searched g))
unfolding validate searched
validate-searched g =
    if_elim Decided (length g.nodes == 0) (λ _ u. absurd (cc))
      (λ some_nodes.
        if_elim Decided (ltb 64 (length g.nodes)) (λ _ u. absurd (cc))
          (λ not_many u.
            let (edges, e) =
              refused (check_edges g.nodes g.edges) _ (check_edges-from_search g.nodes g.edges) u in
            let (lists, f) =
              refused (check_depends_on g.nodes g.nodes) (verdict (searched g))
                (check_depends_on-from_search g.nodes g.nodes) (subst Undecided e u) in
            (
              record {
                sized = (ground (arith, some_nodes), ground (arith, not_many));
                joined = check_edges-Joins g.nodes g.edges edges;
                known = check_depends_on-AllKnow g.nodes g.nodes lists;
              },
              e ∙ f,
            )))
  where
    Decided : Validity → Type 0
    Decided v = Undecided v → IsClosed g × (v ≡ verdict (searched g))

-- The search decides about a graph that passes the checks before it.
IsClosed-validate : (g : TaskGraph) → IsClosed g → validate g ≡ verdict (searched g)
unfolding validate searched refuse
IsClosed-validate g c =
    rw (Joins-check_edges g.nodes g.edges c.joined)
      (rw (AllKnow-check_depends_on g.nodes g.nodes c.known) (ground (arith, c.sized)))

searched-ne-out_of_fuel : (g : TaskGraph) → IsClosed g → searched g ≢ out_of_fuel
unfolding searched
searched-ne-out_of_fuel g c =
    rw (← length-keys g.nodes)
      (search-ends (prerequisites g) (keys g.nodes) (λ x d m k. IsClosed-prerequisites g c x d k))

verdict-cases :
    (v : Visit)
    → (verdict v ≡ stuck → v ≡ out_of_fuel)
      × (verdict v ≡ valid → (c : Colors) × (v ≡ visited c))
      × ((at : String) → verdict v ≡ invalid (dependency_cycle_at at) → v ≡ cycle at)
unfolding verdict
verdict-cases (visited c) = ((λ e. cc), (λ e. (c, refl)), (λ at e. cc))
verdict-cases (cycle at) = ((λ e. cc), (λ e. absurd (cc)), (λ at e. cc))
verdict-cases out_of_fuel = ((λ e. refl), (λ e. absurd (cc)), (λ at e. cc))

verdict-cycle : (at : String) → verdict (cycle at) ≡ invalid (dependency_cycle_at at)
unfolding verdict
verdict-cycle at = refl

-- Validate ends on every graph: its search never runs out of its fuel, one unit more than there
-- are nodes.
pub validate-ne-stuck : (g : TaskGraph) → validate g ≢ stuck
validate-ne-stuck g h =
    let (c, e) = validate-searched g (subst Undecided (sym h) tt) in
    searched-ne-out_of_fuel g c ((verdict-cases (searched g)).0 (sym e ∙ h))

-- A plan: its size is within the limits, edges and lists name nodes, other ones than the node
-- itself, and no node needs itself, be it over other nodes.
pub record IsPlan (g : TaskGraph) : Type 0 where
  pub closed : IsClosed g
  pub acyclic : (x : String) → has x g.nodes ≡ true → ¬ Needs (prerequisites g) x x

-- The nodes of an accepted graph stand in a list in which whatever a node needs is behind it.
pub valid-IsOrder :
    (g : TaskGraph)
    → validate g ≡ valid
    → (xs : List String) × ((d : String) → 1 ≤ occ d (keys g.nodes) → 1 ≤ occ d xs)
      × IsOrder (prerequisites g) xs
unfolding searched
valid-IsOrder g h =
    let (_, e) = validate-searched g (subst Undecided (sym h) tt) in
    let (c, q) = (verdict-cases (searched g)).1 (sym e ∙ h) in
    search-IsOrder (prerequisites g) (suc (length g.nodes)) (keys g.nodes) c q

-- Where Validate reports a cycle at an id, that id needs itself over one or more steps along edges
-- and lists.
pub validate-cycle :
    (g : TaskGraph) (x : String)
    → validate g ≡ invalid (dependency_cycle_at x)
    → Needs (prerequisites g) x x
unfolding searched
validate-cycle g x h =
    let (_, e) = validate-searched g (subst Undecided (sym h) refl) in
    search-cycle (prerequisites g) (suc (length g.nodes)) (keys g.nodes) x
      ((verdict-cases (searched g)).2 x (sym e ∙ h))

Needs-has :
    (g : TaskGraph)
    → IsClosed g
    → (x d : String) → Needs (prerequisites g) x d
    → has d g.nodes ≡ true
Needs-has g c x d (direct _ _ m) = occ-has d g.nodes (IsClosed-prerequisites g c x d m)
Needs-has g c x d (further _ y _ n m) = occ-has d g.nodes (IsClosed-prerequisites g c y d m)

-- A search without a result but a cycle, where there is none.
no_cycle : (r : Visit) → r ≢ out_of_fuel → ((at : String) → r ≢ cycle at) → verdict r ≡ valid
unfolding verdict
no_cycle (visited c) fuel acyclic = refl
no_cycle (cycle at) fuel acyclic = absurd (acyclic at refl)
no_cycle out_of_fuel fuel acyclic = absurd (fuel refl)

-- Validate accepts a graph exactly if it has 1 to 64 nodes, each edge joins two different nodes,
-- each entry of a node's own list is another node, and no node needs itself over one or more steps
-- along edges and lists.
pub validate-IsPlan : (g : TaskGraph) → (validate g ≡ valid) ↔ IsPlan g
validate-IsPlan g = (accepted, accepts)
  where
    accepted : validate g ≡ valid → IsPlan g
    accepted h =
        let (xs, all_in, order) = valid-IsOrder g h in
        record {
          closed = (validate-searched g (subst Undecided (sym h) tt)).0;
          acyclic =
              λ x m. order-ne-cycle (prerequisites g) x xs order (all_in x (has-occ x g.nodes m));
        }

    accepts : IsPlan g → validate g ≡ valid
    accepts p =
        let e = IsClosed-validate g p.closed in
        e
        ∙ no_cycle (searched g) (searched-ne-out_of_fuel g p.closed) (λ at q.
          let n = validate-cycle g at (e ∙ ap verdict q ∙ verdict-cycle at) in
          p.acyclic at (Needs-has g p.closed at at n) n)
