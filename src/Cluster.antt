-- ===== src/Cluster.antt =====
-- internal/cluster/registry.go: the table of known nodes, and the snapshot of it that is kept until
-- the table changes.
pub mod Marks
pub mod Ranks
pub mod Leadership
pub mod Cached
use m_aistr.Prelude.{
  ℕ, suc, ◌==◌, ltb, String, str_eq, is_empty, concat, Bool, true, false, ◌&&◌, ◌||◌, Option, none,
  some, List, [], ◌∷◌, map, find, select, count, sort_by, if◌then◌else◌,
}
use m_aistr.Prelude.Integers.{ℤ, pos, negsuc, ◌+ℤ◌}
use m_aistr.Prelude.Text.{str_lt}
use m_aistr.Prelude.Dict.{Dict, get, put, delete, has}

-- What a node reports. D is what its hardware's devices are, and R what the registry only copies.
pub record NodeStatus (D R : Type 0) : Type 0 where
  pub id : String
  pub version : String
  pub address : String
  pub devices : D
  pub rest : R
  pub active_tasks : ℤ
  pub queued_tasks : ℕ
  pub last_seen : ℕ
  pub healthy : Bool
  pub leader : Bool
  pub version_error : String

pub record Registry (D R : Type 0) : Type 0 where
  pub nodes : Dict (NodeStatus D R)
  pub all_cache : List (NodeStatus D R)
  pub all_cache_valid : Bool

version_message : String → String → String
version_message old new =
    concat ("node version " ∷ old ∷ " is older than cluster version " ∷ new ∷ [])

is_zero : ℤ → Bool
is_zero (pos n) = n == 0
is_zero (negsuc n) = false

at_least_zero : ℤ → ℤ
at_least_zero (pos n) = pos n
at_least_zero (negsuc n) = pos 0

module _ {D R : Type 0} where
  unfoldable pub new_registry : Registry D R
  new_registry = record { nodes = []; all_cache = []; all_cache_valid = false }

  unfoldable pub invalidate_snapshot : Registry D R → Registry D R
  invalidate_snapshot r = record r { all_cache = []; all_cache_valid = false }

  -- The nodes after a comparison with the version of a new one, and that one's error.
  -- `older left right` says that version.Compare(left, right) is negative.
  unfoldable pub compare_versions :
      (String → String → Bool) → String → Dict (NodeStatus D R) → Dict (NodeStatus D R) × String
  unfolding version_message
  compare_versions older version [] = ([], "")
  compare_versions older version ((id, existing) ∷ nodes) =
      let rest = compare_versions older version nodes in
      if is_empty existing.version || is_empty version || str_eq existing.version version
      then ((id, existing) ∷ rest.0, rest.1)
      else if older version existing.version
      then ((id, existing) ∷ nodes, version_message version existing.version)
      else if older existing.version version
      then (
        (id, record existing { version_error = version_message existing.version version }) ∷ rest.0,
        rest.1,
      )
      else ((id, existing) ∷ rest.0, rest.1)

  unfoldable pub upsert :
      (String → String → Bool) → NodeStatus D R → ℕ → Registry D R → Registry D R
  upsert older status now r =
      let (nodes, error) = compare_versions older status.version r.nodes in
      invalidate_snapshot (record r {
        nodes =
            put status.id
              (record status {
                last_seen = now;
                healthy = true;
                queued_tasks = 0;
                version_error = error;
              })
              nodes;
      })

  unfoldable pub update_devices : String → String → D → Registry D R → Registry D R × Bool
  update_devices id address devices r = elim (get id r.nodes) [
    | none ↦ (r, false)
    | some n ↦
        if str_eq n.address address
        then (
          invalidate_snapshot
              (record r { nodes = put id (record n { devices = devices }) r.nodes }),
          true,
        )
        else (r, false)
  ]

  unfoldable pub mark_unhealthy : String → Registry D R → Registry D R
  mark_unhealthy id r = elim (get id r.nodes) [
    | none ↦ r
    | some n ↦
        invalidate_snapshot (record r { nodes = put id (record n { healthy = false }) r.nodes })
  ]

  unfoldable pub remove : String → Registry D R → Registry D R
  remove id r =
      if has id r.nodes then invalidate_snapshot (record r { nodes = delete id r.nodes }) else r

  unfoldable pub increment_load : String → ℤ → Registry D R → Registry D R
  unfolding is_zero at_least_zero
  increment_load id delta r = elim (get id r.nodes) [
    | none ↦ r
    | some n ↦
        let changed = record r {
          nodes =
              put id (record n { active_tasks = at_least_zero (n.active_tasks +ℤ delta) }) r.nodes;
        } in
        if is_zero delta then changed else invalidate_snapshot changed
  ]

  values : Dict (NodeStatus D R) → List (NodeStatus D R)
  values [] = []
  values ((id, n) ∷ nodes) = n ∷ values nodes

  abbrev pub is_healthy : NodeStatus D R → Bool
  is_healthy n = n.healthy

  abbrev pub is_leader : NodeStatus D R → Bool
  is_leader n = n.leader

  abbrev pub follower : NodeStatus D R → NodeStatus D R
  follower n = record n { leader = false }

  -- `out[leader].Leader = true`, for the elements from index i on.
  unfoldable pub crown : ℕ → ℕ → List (NodeStatus D R) → List (NodeStatus D R)
  crown i leader [] = []
  crown i leader (n ∷ ns) =
      (if i == leader then record n { leader = true } else n) ∷ crown (suc i) leader ns

-- `score` gives the place of CapabilityScore among float64 values, from what it reads of a node.
module _ {D R : Type 0} (score : D → R → ℕ) where
  unfoldable pub stands_above : NodeStatus D R → NodeStatus D R → Bool
  stands_above n m =
      ltb (score m.devices m.rest) (score n.devices n.rest)
      || ((score n.devices n.rest == score m.devices m.rest) && str_lt n.id m.id)

  better : ℕ → NodeStatus D R → Option (ℕ × NodeStatus D R) → Option (ℕ × NodeStatus D R)
  better i n none = some (i, n)
  better i n (some (j, m)) = if stands_above n m then some (i, n) else some (j, m)

  -- The index of the leader, and the node there.
  find_leader :
      ℕ → Option (ℕ × NodeStatus D R) → List (NodeStatus D R) → Option (ℕ × NodeStatus D R)
  unfolding better
  find_leader i best [] = best
  find_leader i best (n ∷ ns) = find_leader (suc i) (if n.healthy then better i n best else best) ns

  unfoldable pub build_snapshot : Dict (NodeStatus D R) → List (NodeStatus D R)
  unfolding values find_leader
  build_snapshot nodes =
      let out = map follower (sort_by (λ n m. str_lt n.id m.id) (values nodes)) in
      if ltb (count is_healthy out) 2
      then out
      else elim (find_leader 0 none out) [ none ↦ out | some (leader, n) ↦ crown 0 leader out ]

  unfoldable pub all_nodes : Registry D R → Registry D R × List (NodeStatus D R)
  all_nodes r = if r.all_cache_valid then (r, r.all_cache) else (
    record r { all_cache = build_snapshot r.nodes; all_cache_valid = true },
    build_snapshot r.nodes,
  )

  unfoldable pub active : Registry D R → Registry D R × List (NodeStatus D R)
  active r = let (r', out) = all_nodes r in (r', select is_healthy out)

  unfoldable pub leader_of : Registry D R → Registry D R × Option (NodeStatus D R)
  leader_of r = let (r', out) = all_nodes r in (r', find is_leader out)
