-- ===== src/Scheduler/Sorting/Synced.antt =====
-- internal/scheduler/graph.go: the edges that TopologicalSort adds for the nodes' own lists.
use m_aistr.Prelude.{
  ◌+◌, ◌≤◌, ◌≡◌, refl, sym, subst, ap, ◌∙◌, arith, String, str_eq, eq_iff, Bool, true, false,
  is_empty, inl, inr, ◌||◌, Bool-cases, if_elim, Option, Option-cases, some, List, [], ◌∷◌, ◌++◌,
  All, any, select, if◌then◌else◌,
}
use m_aistr.Prelude.Text.{trim_space}
use m_aistr.Prelude.Dict.{Dict, get, has, get-All}
use m_aistr.Prelude.Occurrences.{occ, occ-append, any-occ, keys}
use m_aistr.Scheduler.Model.{Subtask}
use m_aistr.Scheduler.Graph.{
  Edge, TaskGraph, contains_string, is_edge, sync_depends_on, add_edge, sources, dependencies,
}
use m_aistr.Scheduler.Validation.{prerequisites, depends_on_of}
use m_aistr.Scheduler.Validation.Checks.{Joins, Knows, AllKnow, IsClosed}
use m_aistr.Scheduler.Sorting.{add_all, sync_nodes, sync_edges}

-- How AddNode leaves the map of nodes.
pub record IsKeyed (nodes : Dict Subtask) : Type 0 where
  pub distinct : (x : String) → occ x (keys nodes) ≤ 1
  pub trimmed : All (λ entry. (trim_space entry.0 ≡ entry.0) × (is_empty entry.0 ≡ false)) nodes
  pub own_ids : All (λ entry. entry.1.id ≡ entry.0) nodes

Looked : Dict Subtask → Dict Subtask → Type 0
Looked nodes part = All (λ entry. get entry.0 nodes ≡ some entry.1) part

Looked-cons :
    (k : String) (v : Subtask) (nodes part : Dict Subtask)
    → occ k (keys part) ≡ 0
    → Looked nodes part
    → Looked ((k, v) ∷ nodes) part
unfolding Looked get
Looked-cons k v nodes [] h l = tt
Looked-cons k v nodes ((j, w) ∷ part) h (e, l) =
    (ground (arith, h, e, eq_iff k j, eq_iff j k), Looked-cons k v nodes part (ground (arith, h)) l)

distinct-Looked :
    (nodes : Dict Subtask) → ((x : String) → occ x (keys nodes) ≤ 1) → Looked nodes nodes
unfolding Looked get
distinct-Looked [] h = tt
distinct-Looked ((k, v) ∷ nodes) h = (
  ground (arith, eq_iff k k),
  Looked-cons k v nodes nodes (ground (arith, h k, eq_iff k k))
      (distinct-Looked nodes (λ x. ground (arith, h x))),
)

any-append_edge :
    (p : Edge → Bool) (es : List Edge) (e : Edge) → any p (es ++ e ∷ []) ≡ (any p es || p e)
any-append_edge p [] e = ground arith
any-append_edge p (x ∷ es) e = ground (arith, any-append_edge p es e)

All-append_edge {κ} :
    (P : Edge → Type κ) (es : List Edge) (e : Edge) → All P es → P e → All P (es ++ e ∷ [])
All-append_edge P [] e h p = (p, tt)
All-append_edge P (x ∷ es) e (px, h) p = (px, All-append_edge P es e h p)

-- The edges to an id, and the test for one.
pub edge-sources :
    (es : List Edge) (d x : String)
    → any (is_edge d x) es ≡ true
    → 1 ≤ occ d (sources (select (λ e. str_eq e.target x) es))
unfolding sources
edge-sources [] d x h = absurd (cc)
edge-sources (e ∷ es) d x h = ground (arith, h, edge-sources es d x)

pub sources-edge :
    (es : List Edge) (d x : String)
    → 1 ≤ occ d (sources (select (λ e. str_eq e.target x) es))
    → any (is_edge d x) es ≡ true
unfolding sources
sources-edge [] d x h = absurd (omega (arith, h))
sources-edge (e ∷ es) d x h = ground (arith, h, sources-edge es d x)

-- What AddEdge does for an entry of a node's own list.
add_edge_entry :
    (g : TaskGraph) (d id : String) (node : Subtask)
    → get id g.nodes ≡ some node
    → contains_string node.depends_on d ≡ true
    → (trim_space d ≡ d) × (is_empty d ≡ false)
    → (trim_space id ≡ id) × (is_empty id ≡ false)
    → str_eq d id ≡ false
    → (add_edge d id g).0 ≡ (
        if any (is_edge d id) g.edges
        then g
        else record g { edges = g.edges ++ (record { source = d; target = id }) ∷ [] })
unfolding add_edge sync_depends_on
add_edge_entry g d id node e c td ti ne = ground (arith, e, c, td, ti, ne)

module _ (g : TaskGraph) where
  -- An edge that the graph asks for.
  abbrev pub Asked : Edge → Type 0
  Asked e = Joins g.nodes e × (1 ≤ occ e.source (prerequisites g e.target))

  pub record IsSynced (g' : TaskGraph) : Type 0 where
    pub same_nodes : g'.nodes ≡ g.nodes
    pub asked : All Asked g'.edges

  -- A step that keeps the edges and adds those from `ds` to `id`.
  pub record Adds (id : String) (ds : List String) (a b : TaskGraph) : Type 0 where
    pub synced : IsSynced b
    pub kept : (d x : String) → any (is_edge d x) a.edges ≡ true → any (is_edge d x) b.edges ≡ true
    pub added : (d : String) → 1 ≤ occ d ds → any (is_edge d id) b.edges ≡ true

  module _ (keyed : IsKeyed g.nodes) (closed : IsClosed g) where
    key : (d : String) → has d g.nodes ≡ true → (trim_space d ≡ d) × (is_empty d ≡ false)
    key d h = elim (Option-cases (get d g.nodes)) [
      | inl e ↦ absurd (ground (arith, h, e))
      | inr (node, e) ↦
          get-All (λ entry. (trim_space entry.0 ≡ entry.0) × (is_empty entry.0 ≡ false)) d node
            g.nodes keyed.trimmed e
    ]

    module _ (id : String) (node : Subtask) (found : get id g.nodes ≡ some node) where
      Asked-entry :
          (d : String)
          → 1 ≤ occ d node.depends_on
          → has d g.nodes ≡ true
          → str_eq d id ≡ false
          → Asked (record { source = d; target = id })
      unfolding prerequisites depends_on_of
      Asked-entry d m h ne = (
        (ne, h, ground (arith, found)),
        ground (
          arith,
          m,
          found,
          ap depends_on_of found,
          occ-append d (dependencies g id) (depends_on_of (get id g.nodes)),
        ),
      )

      step : TaskGraph → String → TaskGraph
      step a d =
          if any (is_edge d id) a.edges
          then a
          else record a { edges = a.edges ++ (record { source = d; target = id }) ∷ [] }

      step-Adds :
          (a : TaskGraph) (d : String)
          → IsSynced a
          → Asked (record { source = d; target = id })
          → Adds id (d ∷ []) a (step a d)
      unfolding step
      step-Adds a d s ask =
          if_elim {A = TaskGraph} (Adds id (d ∷ []) a) (any (is_edge d id) a.edges)
            (λ there. record {
              synced = s;
              kept = λ e x h. h;
              added = λ e m. ground (arith, there, m, eq_iff d e);
            })
            (λ new. record {
              synced = record {
                same_nodes = s.same_nodes;
                asked =
                    All-append_edge Asked a.edges (record { source = d; target = id }) s.asked ask;
              };
              kept = λ e x h. ground (
                arith,
                h,
                any-append_edge (is_edge e x) a.edges (record { source = d; target = id }),
              );
              added = λ e m. ground (
                arith,
                m,
                eq_iff d e,
                eq_iff id id,
                any-append_edge (is_edge e id) a.edges (record { source = d; target = id }),
              );
            })

      add_edge-Adds :
          (a : TaskGraph) (d : String)
          → IsSynced a
          → 1 ≤ occ d node.depends_on
          → has d g.nodes ≡ true
          → str_eq d id ≡ false
          → Adds id (d ∷ []) a (add_edge d id a).0
      unfolding step
      add_edge-Adds a d s m h ne =
          subst (Adds id (d ∷ []) a)
            (sym (
              add_edge_entry a d id node (ap (get id) s.same_nodes ∙ found)
                (any-occ d node.depends_on m) (key d h) (key id (ground (arith, found))) ne))
            (step-Adds a d s (Asked-entry d m h ne))

      add_all-Adds :
          (ds : List String) (a : TaskGraph)
          → Knows g.nodes id ds
          → ((d : String) → 1 ≤ occ d ds → 1 ≤ occ d node.depends_on)
          → IsSynced a
          → Adds id ds a (add_all id ds a)
      unfolding add_all
      add_all-Adds [] a k m s = record {
        synced = s;
        kept = λ d x h. h;
        added = λ d h. absurd (omega (arith, h));
      }
      add_all-Adds (d ∷ ds) a ((ne, h), k) m s =
          let one = add_edge-Adds a d s (m d (ground (arith, eq_iff d d))) h ne in
          let rest =
            add_all-Adds ds (add_edge d id a).0 k (λ e q. m e (ground (arith, q))) one.synced in
          record {
            synced = rest.synced;
            kept = λ e x q. rest.kept e x (one.kept e x q);
            added = λ e q. elim (Bool-cases (str_eq d e)) [
              | inl same ↦ rest.kept e id (one.added e (ground (arith, same)))
              | inr other ↦ rest.added e (ground (arith, q, other))
            ];
          }

    -- The loop over a part of the nodes.
    record AddsAll (part : Dict Subtask) (a b : TaskGraph) : Type 0 where
      synced : IsSynced b
      kept : (d x : String) → any (is_edge d x) a.edges ≡ true → any (is_edge d x) b.edges ≡ true
      added :
          All
            (λ entry.
              (d : String) → 1 ≤ occ d entry.1.depends_on → any (is_edge d entry.0) b.edges ≡ true)
            part

    sync_nodes-AddsAll :
        (part : Dict Subtask) (a : TaskGraph)
        → Looked g.nodes part
        → AllKnow g.nodes part
        → IsSynced a
        → AddsAll part a (sync_nodes part a)
    unfolding sync_nodes Looked
    sync_nodes-AddsAll [] a l k s = record { synced = s; kept = λ d x h. h; added = tt }
    sync_nodes-AddsAll ((id, node) ∷ part) a (found, l) (here, k) s =
        let one = add_all-Adds id node found node.depends_on a here (λ d q. q) s in
        let rest = sync_nodes-AddsAll part (add_all id node.depends_on a) l k one.synced in
        record {
          synced = rest.synced;
          kept = λ e x q. rest.kept e x (one.kept e x q);
          added = ((λ d q. rest.kept d id (one.added d q)), rest.added);
        }

    given-Asked :
        (es : List Edge)
        → All (Joins g.nodes) es
        → ((e : Edge)
            → any (is_edge e.source e.target) es ≡ true
            → any (is_edge e.source e.target) g.edges ≡ true)
        → All Asked es
    unfolding prerequisites dependencies
    given-Asked [] j h = tt
    given-Asked (e ∷ es) (j, js) h = (
      (
        j,
        ground (
          arith,
          edge-sources g.edges e.source e.target
              (h e (ground (arith, eq_iff e.source e.source, eq_iff e.target e.target))),
          occ-append e.source (dependencies g e.target) (depends_on_of (get e.target g.nodes)),
        ),
      ),
      given-Asked es js (λ f q. h f (ground (arith, q))),
    )

    synced_all : AddsAll g.nodes g (sync_edges g)
    unfolding sync_edges
    synced_all =
        sync_nodes-AddsAll g.nodes g (distinct-Looked g.nodes keyed.distinct) closed.known
          (record { same_nodes = refl; asked = given-Asked g.edges closed.joined (λ e q. q) })

    -- The nodes stay, the ends of all edges are nodes, and each node's edges come from exactly what
    -- Validate takes for its prerequisites.
    pub sync_edges-nodes : (sync_edges g).nodes ≡ g.nodes
    sync_edges-nodes = synced_all.synced.same_nodes

    pub sync_edges-Asked : All Asked (sync_edges g).edges
    sync_edges-Asked = synced_all.synced.asked

    pub prerequisites-edge :
        (x d : String)
        → 1 ≤ occ d (prerequisites g x)
        → any (is_edge d x) (sync_edges g).edges ≡ true
    unfolding prerequisites dependencies depends_on_of
    prerequisites-edge x d m = elim (Option-cases (get x g.nodes)) [
      | inl e ↦
          synced_all.kept d x
            (sources-edge g.edges d x (ground (arith, m, e, both (get x g.nodes))))
      | inr (node, e) ↦ elim (Bool-cases (any (is_edge d x) g.edges)) [
        | inl q ↦ synced_all.kept d x q
        | inr q ↦
            get-All
              (λ entry.
                (y : String)
                → 1 ≤ occ y entry.1.depends_on
                → any (is_edge y entry.0) (sync_edges g).edges ≡ true)
              x node g.nodes synced_all.added e d
              (ground (arith, m, e, q, both (get x g.nodes), sources-edge g.edges d x))
      ]
    ]
      where
        both :
            (o : Option Subtask)
            → occ d (dependencies g x ++ depends_on_of o)
              ≡ occ d (dependencies g x) + occ d (depends_on_of o)
        both o = occ-append d (dependencies g x) (depends_on_of o)
