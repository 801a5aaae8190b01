-- ===== src/Examples/Nodes.antt =====
-- internal/cluster/registry.go: a registry of two nodes.
use m_aistr.Prelude.{ℕ, ◌≡◌, ◌≤◌, String, Bool, true, false, List, [], ◌∷◌, find, count}
use m_aistr.Prelude.Integers.{pos, negsuc}
use m_aistr.Cluster.{NodeStatus, is_leader, new_registry, build_snapshot, all_nodes}
use m_aistr.Cluster.Cached.{
  Call, upserted, marked_unhealthy, load_incremented, all_read, run, all_nodes-build_snapshot,
}
use m_aistr.Cluster.Leadership.{IsElected, build_snapshot-IsElected}

abbrev node_1 : NodeStatus ℕ ℕ
node_1 = record {
  id = "n1";
  version = "0.1.1";
  address = "http://n1";
  devices = 0;
  rest = 4;
  active_tasks = pos 0;
  queued_tasks = 0;
  last_seen = 0;
  healthy = true;
  leader = false;
  version_error = "";
}

abbrev node_2 : NodeStatus ℕ ℕ
node_2 = record node_1 { id = "n2"; address = "http://n2"; rest = 9 }

abbrev score_of : ℕ → ℕ → ℕ
score_of devices rest = rest

abbrev none_older : String → String → Bool
none_older left right = false

abbrev calls : List (Call ℕ ℕ)
calls =
    upserted node_1 10
    ∷ upserted node_2 20
    ∷ all_read
    ∷ load_incremented "n1" (pos 0)
    ∷ load_incremented "n2" (negsuc 0)
    ∷ all_read
    ∷ marked_unhealthy "n2"
    ∷ []

all_nodes-build_snapshot_example :
    (all_nodes score_of (run score_of none_older calls new_registry)).1
    ≡ build_snapshot score_of (run score_of none_older calls new_registry).nodes
all_nodes-build_snapshot_example = all_nodes-build_snapshot score_of none_older calls (tt, (tt, tt))

build_snapshot-IsElected_example :
    (count is_leader (build_snapshot score_of (("n1", node_1) ∷ ("n2", node_2) ∷ [])) ≤ 1)
    × IsElected score_of
        (build_snapshot score_of (("n1", node_1) ∷ ("n2", node_2) ∷ []))
        (find is_leader (build_snapshot score_of (("n1", node_1) ∷ ("n2", node_2) ∷ [])))
build_snapshot-IsElected_example =
    build_snapshot-IsElected score_of (("n1", node_1) ∷ ("n2", node_2) ∷ [])
