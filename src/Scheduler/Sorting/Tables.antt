-- ===== src/Scheduler/Sorting/Tables.antt =====
-- internal/scheduler/graph.go: the tables that TopologicalSort builds from the edges, and what they
-- count.
use mathlib.Core.List.{append-nil, append_assoc}
use m_aistr.Prelude.{
  ℕ, suc, ◌+◌, ◌≤◌, ◌==◌, leb, ◌≡◌, refl, sym, ◌∙◌, arith, String, str_eq, eq_iff, true, not, ◌&&◌,
  ◌||◌, List, [], ◌∷◌, ◌++◌, length, All, if◌then◌else◌,
}
use m_aistr.Prelude.Dict.{Dict, get, get_or, put, has, get-put}
use m_aistr.Prelude.Occurrences.{occ, keys, has-occ, AtMostOnce, put-AtMostOnce}
use m_aistr.Scheduler.Model.{Subtask}
use m_aistr.Scheduler.Graph.{Edge, TaskGraph}
use m_aistr.Scheduler.Sorting.{
  zero_degrees, count_edges, degrees, collect_dependents, dependents, without_degree,
}

-- The edges to an id whose source is not done yet, and all edges of which that holds.
abbrev pub pending : List Edge → List String → String → ℕ
pending [] s x = 0
pending (e ∷ es) s x =
    if str_eq e.target x && not (leb 1 (occ e.source s))
    then suc (pending es s x)
    else pending es s x

abbrev pub remaining : List Edge → List String → ℕ
remaining [] s = 0
remaining (e ∷ es) s = if leb 1 (occ e.source s) then remaining es s else suc (remaining es s)

abbrev pub targets : List Edge → String → List String
targets [] c = []
targets (e ∷ es) c = if str_eq e.source c then e.target ∷ targets es c else targets es c

pub pending-done :
    (es : List Edge) (s : List String) (c x : String)
    → occ c s ≡ 0
    → pending es s x ≡ pending es (c ∷ s) x + occ x (targets es c)
pending-done [] s c x h = omega arith
pending-done (e ∷ es) s c x h =
    ground (arith, h, pending-done es s c x, eq_iff e.source c, eq_iff c e.source)

pub remaining-done :
    (es : List Edge) (s : List String) (c : String)
    → occ c s ≡ 0
    → remaining es s ≡ remaining es (c ∷ s) + length (targets es c)
remaining-done [] s c h = omega arith
remaining-done (e ∷ es) s c h =
    ground (arith, h, remaining-done es s c, eq_iff e.source c, eq_iff c e.source)

pub remaining-nil : (es : List Edge) → remaining es [] ≡ length es
remaining-nil [] = refl
remaining-nil (e ∷ es) = ground (arith, remaining-nil es)

collect_dependents_lem :
    (es : List Edge) (c : String) (d : Dict (List String))
    → get_or [] c (collect_dependents es d) ≡ get_or [] c d ++ targets es c
unfolding collect_dependents
collect_dependents_lem [] c d = sym (append-nil _)
collect_dependents_lem (e ∷ es) c d =
    collect_dependents_lem es c (put e.source (get_or [] e.source d ++ e.target ∷ []) d) ∙ put_end
  where
    put_end :
        get_or [] c (put e.source (get_or [] e.source d ++ e.target ∷ []) d) ++ targets es c
        ≡ get_or [] c d ++ targets (e ∷ es) c
    put_end = ground (
      arith,
      get-put e.source c (get_or [] e.source d ++ e.target ∷ []) d,
      eq_iff e.source c,
      append_assoc (get_or [] e.source d) (e.target ∷ []) (targets es c),
    )

pub dependents-targets :
    (g : TaskGraph) (c : String) → get_or [] c (dependents g) ≡ targets g.edges c
unfolding dependents get
dependents-targets g c = collect_dependents_lem g.edges c []

zero_degrees_lem :
    (nodes : Dict Subtask) (x : String) (d : Dict ℕ)
    → get_or 0 x d ≡ 0
    → get_or 0 x (zero_degrees nodes d) ≡ 0
unfolding zero_degrees
zero_degrees_lem [] x d h = h
zero_degrees_lem ((id, node) ∷ nodes) x d h =
    zero_degrees_lem nodes x (put id 0 d) (ground (arith, h, get-put id x 0 d))

count_edges_lem :
    (es : List Edge) (x : String) (d : Dict ℕ)
    → get_or 0 x (count_edges es d) ≡ get_or 0 x d + pending es [] x
unfolding count_edges
count_edges_lem [] x d = omega arith
count_edges_lem (e ∷ es) x d =
    let n = get_or 0 e.target d + 1 in
    ground
      (arith, count_edges_lem es x (put e.target n d), get-put e.target x n d, eq_iff e.target x)

pub degrees-pending : (g : TaskGraph) (x : String) → get_or 0 x (degrees g) ≡ pending g.edges [] x
unfolding degrees get
degrees-pending g x =
    omega (
      arith,
      count_edges_lem g.edges x (zero_degrees g.nodes []),
      zero_degrees_lem g.nodes x [] refl,
    )

-- Which ids the table of degrees has.
zero_degrees-AtMostOnce :
    (nodes : Dict Subtask) (d : Dict ℕ) → AtMostOnce d → AtMostOnce (zero_degrees nodes d)
unfolding zero_degrees
zero_degrees-AtMostOnce [] d h = h
zero_degrees-AtMostOnce ((id, node) ∷ nodes) d h =
    zero_degrees-AtMostOnce nodes (put id 0 d) (put-AtMostOnce id 0 d h)

count_edges-AtMostOnce :
    (es : List Edge) (d : Dict ℕ) → AtMostOnce d → AtMostOnce (count_edges es d)
unfolding count_edges
count_edges-AtMostOnce [] d h = h
count_edges-AtMostOnce (e ∷ es) d h =
    count_edges-AtMostOnce es (put e.target (get_or 0 e.target d + 1) d)
      (put-AtMostOnce e.target (get_or 0 e.target d + 1) d h)

zero_degrees-has :
    (nodes : Dict Subtask) (x : String) (d : Dict ℕ)
    → has x (zero_degrees nodes d) ≡ (has x nodes || has x d)
unfolding zero_degrees get
zero_degrees-has [] x d = refl
zero_degrees-has ((id, node) ∷ nodes) x d =
    ground (arith, zero_degrees-has nodes x (put id 0 d), get-put id x 0 d)

-- The targets of the edges are nodes.
abbrev pub Targeted : Dict Subtask → List Edge → Type 0
Targeted nodes es = All (λ e. has e.target nodes ≡ true) es

count_edges-has :
    (nodes : Dict Subtask) (es : List Edge) (x : String) (d : Dict ℕ)
    → Targeted nodes es
    → ((y : String) → has y d ≡ has y nodes)
    → has x (count_edges es d) ≡ has x nodes
unfolding count_edges
count_edges-has nodes [] x d t h = h x
count_edges-has nodes (e ∷ es) x d (te, t) h =
    count_edges-has nodes es x (put e.target (get_or 0 e.target d + 1) d) t (λ y.
      ground (arith, te, h y, get-put e.target y (get_or 0 e.target d + 1) d, eq_iff e.target y))

degrees-has :
    (g : TaskGraph) (x : String) → Targeted g.nodes g.edges → has x (degrees g) ≡ has x g.nodes
unfolding degrees get
degrees-has g x t =
    count_edges-has g.nodes g.edges x (zero_degrees g.nodes []) t
      (λ y. ground (arith, zero_degrees-has g.nodes y []))

occ-without_degree-le : (d : Dict ℕ) (x : String) → occ x (without_degree d) ≤ occ x (keys d)
unfolding without_degree
occ-without_degree-le [] x = omega arith
occ-without_degree-le ((id, n) ∷ d) x = ground (arith, occ-without_degree-le d x)

occ-without_degree :
    (d : Dict ℕ) (x : String)
    → occ x (keys d) ≤ 1
    → occ x (without_degree d) ≡ (if has x d && (get_or 0 x d == 0) then 1 else 0)
unfolding without_degree get
occ-without_degree [] x h = refl
occ-without_degree ((id, n) ∷ d) x h =
    ground (arith, h, occ-without_degree d x, occ-without_degree-le d x, has-occ x d)

-- The first queue has each node to which no edge leads, once, and nothing else.
pub occ-first_queue :
    (g : TaskGraph) (x : String)
    → Targeted g.nodes g.edges
    → occ x (without_degree (degrees g))
      ≡ (if has x g.nodes && (pending g.edges [] x == 0) then 1 else 0)
unfolding degrees
occ-first_queue g x t = ground (
  arith,
  occ-without_degree (degrees g) x (
      count_edges-AtMostOnce g.edges (zero_degrees g.nodes [])
        (zero_degrees-AtMostOnce g.nodes [] (λ y. omega arith)) x),
  degrees-has g x t,
  degrees-pending g x,
)
