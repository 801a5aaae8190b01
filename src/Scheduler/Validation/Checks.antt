-- ===== src/Scheduler/Validation/Checks.antt =====
-- internal/scheduler/graph.go: the checks of Validate before its search.
use m_aistr.Prelude.{
  ◌≤◌, ◌≡◌, refl, inl, inr, arith, String, str_eq, eq_iff, true, false, Option, Option-cases, none,
  some, List, [], ◌∷◌, ◌++◌, ◌+◌, length, select, All,
}
use m_aistr.Prelude.Dict.{Dict, get, has, get-All}
use m_aistr.Prelude.Occurrences.{occ, occ-append, keys, has-occ}
use m_aistr.Scheduler.Model.{Subtask}
use m_aistr.Scheduler.Graph.{Edge, TaskGraph, sources, dependencies}
use m_aistr.Scheduler.Validation.{
  check_edges, check_names, check_depends_on, depends_on_of, prerequisites,
}

-- Both ends are nodes, and they differ.
abbrev pub Joins : Dict Subtask → Edge → Type 0
Joins nodes e =
    (str_eq e.source e.target ≡ false) × (has e.source nodes ≡ true) × (has e.target nodes ≡ true)

pub check_edges-Joins :
    (nodes : Dict Subtask) (es : List Edge) → check_edges nodes es ≡ none → All (Joins nodes) es
unfolding check_edges
check_edges-Joins nodes [] h = tt
check_edges-Joins nodes (e ∷ es) h = (ground arith, check_edges-Joins nodes es (ground arith))

edge_known :
    (nodes : Dict Subtask) (es : List Edge) (id d : String)
    → All (Joins nodes) es
    → 1 ≤ occ d (sources (select (λ e. str_eq e.target id) es))
    → has d nodes ≡ true
unfolding sources
edge_known nodes [] id d h m = absurd (omega (arith, m))
edge_known nodes (e ∷ es) id d (j, h) m =
    ground (arith, j, m, edge_known nodes es id d h, eq_iff e.source d)

-- Every entry of a node's own list is a node, and another one.
abbrev pub Knows : Dict Subtask → String → List String → Type 0
Knows nodes id ds = All (λ d. (str_eq d id ≡ false) × (has d nodes ≡ true)) ds

check_names-Knows :
    (nodes : Dict Subtask) (id : String) (ds : List String)
    → check_names nodes id ds ≡ none
    → Knows nodes id ds
unfolding check_names
check_names-Knows nodes id [] h = tt
check_names-Knows nodes id (d ∷ ds) h = (ground arith, check_names-Knows nodes id ds (ground arith))

-- The same of every node of a part of the nodes.
abbrev pub AllKnow : Dict Subtask → Dict Subtask → Type 0
AllKnow nodes checked = All (λ entry. Knows nodes entry.0 entry.1.depends_on) checked

pub check_depends_on-AllKnow :
    (nodes checked : Dict Subtask) → check_depends_on nodes checked ≡ none → AllKnow nodes checked
unfolding check_depends_on
check_depends_on-AllKnow nodes [] h = tt
check_depends_on-AllKnow nodes ((id, node) ∷ checked) h =
    elim (Option-cases (check_names nodes id node.depends_on)) [
      | inl q ↦ (
        check_names-Knows nodes id node.depends_on q,
        check_depends_on-AllKnow nodes checked (ground (arith, h, q)),
      )
      | inr (e, q) ↦ absurd (ground (arith, h, q))
    ]

pub AllKnow-get :
    (nodes checked : Dict Subtask) (id : String) (node : Subtask)
    → AllKnow nodes checked
    → get id checked ≡ some node
    → Knows nodes id node.depends_on
AllKnow-get nodes checked id node h e =
    get-All (λ entry. Knows nodes entry.0 entry.1.depends_on) id node checked h e

-- The other way round: the checks pass what they are to pass.
pub Joins-check_edges :
    (nodes : Dict Subtask) (es : List Edge) → All (Joins nodes) es → check_edges nodes es ≡ none
unfolding check_edges
Joins-check_edges nodes [] h = refl
Joins-check_edges nodes (e ∷ es) (j, h) = ground (arith, j, Joins-check_edges nodes es h)

Knows-check_names :
    (nodes : Dict Subtask) (id : String) (ds : List String)
    → Knows nodes id ds
    → check_names nodes id ds ≡ none
unfolding check_names
Knows-check_names nodes id [] h = refl
Knows-check_names nodes id (d ∷ ds) (k, h) = ground (arith, k, Knows-check_names nodes id ds h)

pub AllKnow-check_depends_on :
    (nodes checked : Dict Subtask) → AllKnow nodes checked → check_depends_on nodes checked ≡ none
unfolding check_depends_on
AllKnow-check_depends_on nodes [] h = refl
AllKnow-check_depends_on nodes ((id, node) ∷ checked) (k, h) =
    ground (
      arith,
      Knows-check_names nodes id node.depends_on k,
      AllKnow-check_depends_on nodes checked h,
    )

Knows-has :
    (nodes : Dict Subtask) (id : String) (ds : List String) (d : String)
    → Knows nodes id ds
    → 1 ≤ occ d ds
    → has d nodes ≡ true
Knows-has nodes id [] d h m = absurd (omega (arith, m))
Knows-has nodes id (y ∷ ds) d (k, h) m = ground (arith, k, m, Knows-has nodes id ds d h, eq_iff y d)

-- What the checks before the search establish.
pub record IsClosed (g : TaskGraph) : Type 0 where
  pub sized : (1 ≤ length g.nodes) × (length g.nodes ≤ 64)
  pub joined : All (Joins g.nodes) g.edges
  pub known : AllKnow g.nodes g.nodes

pub IsClosed-prerequisites :
    (g : TaskGraph)
    → IsClosed g
    → (x d : String) → 1 ≤ occ d (prerequisites g x)
    → 1 ≤ occ d (keys g.nodes)
unfolding prerequisites dependencies depends_on_of
IsClosed-prerequisites g c x d m = has-occ d g.nodes (elim (Option-cases (get x g.nodes)) [
  | inl e ↦ ground (arith, e, m, both (get x g.nodes), edge_known g.nodes g.edges x d c.joined)
  | inr (node, e) ↦ ground (
    arith,
    e,
    m,
    both (get x g.nodes),
    edge_known g.nodes g.edges x d c.joined,
    Knows-has g.nodes x node.depends_on d (AllKnow-get g.nodes g.nodes x node c.known e),
  )
])
  where
    both :
        (o : Option Subtask)
        → occ d (dependencies g x ++ depends_on_of o)
          ≡ occ d (dependencies g x) + occ d (depends_on_of o)
    both o = occ-append d (dependencies g x) (depends_on_of o)
