-- ===== src/Router/Capacity.antt =====
-- internal/orchestrator/capacity_gate.go: a reservation is a place at a node and one of the slots
-- that all nodes share. Callers of Reserve interleave as steps of a relation.
pub mod Changes
pub mod Places
use m_aistr.Prelude.{
  ℕ, suc, ◌+◌, ◌-◌, ◌<◌, ◌==◌, ◌≡◌, String, Bool, true, false, Option, none, some, List, [], ◌∷◌,
  ◌++◌, if◌then◌else◌,
}
use m_aistr.Prelude.Dict.{Dict, get, put, has, get_or}
use m_aistr.Router.Gate.{
  Gate, new_node_dispatch_gate, begin_refresh, end_refresh, set_capacity, admit, release,
}

pub record CapacityGate : Type 0 where
  pub fallback_limit : ℕ
  pub slots : ℕ
  pub slot_count : ℕ
  pub node_gates : Dict Gate

unfoldable pub new_dispatch_capacity_gate : ℕ → CapacityGate
new_dispatch_capacity_gate limit = record {
  fallback_limit = limit;
  slots = 0;
  slot_count = limit;
  node_gates = [];
}

-- The limit and the free places that count for a node that reports these; 0 stands for none.
abbrev pub effective_capacity : ℕ → ℕ → ℕ → ℕ × ℕ
effective_capacity fallback limit available =
    if limit == 0 then (fallback, fallback) else (limit, available)

unfoldable pub node_dispatch_gate : String → ℕ → CapacityGate → CapacityGate × Gate
node_dispatch_gate id limit g = elim (get id g.node_gates) [
  | some node_gate ↦ (g, node_gate)
  | none ↦ (
    record g { node_gates = put id (new_node_dispatch_gate limit) g.node_gates },
    new_node_dispatch_gate limit,
  )
]

abbrev pub with_gate : String → Gate → CapacityGate → CapacityGate
with_gate id node_gate g = record g { node_gates = put id node_gate g.node_gates }

unfoldable pub snapshot_node_capacity :
    String → ℕ → ℕ → ℕ → ℕ → CapacityGate → CapacityGate × Option Gate
snapshot_node_capacity id fallback limit available reported g = elim (get id g.node_gates) [
  | none ↦ (g, none)
  | some node_gate ↦
      let (limit', available') = effective_capacity fallback limit available in
      let node_gate' = set_capacity limit' available' reported node_gate in
      (with_gate id node_gate' g, some node_gate')
]

-- The gate of a node, and the place that is given back there.
abbrev pub gate_of : String → CapacityGate → Gate
gate_of id g = get_or (new_node_dispatch_gate 0) id g.node_gates

-- setCapacity with what dispatchCapacity makes of a node's status.
unfoldable pub measure : String → ℕ → ℕ → ℕ → CapacityGate → CapacityGate
measure id limit available reported g =
    let (limit', available') = effective_capacity g.fallback_limit limit available in
    with_gate id (set_capacity limit' available' reported (gate_of id g)) g

unfoldable pub release_place : String → CapacityGate → CapacityGate
release_place id g = with_gate id (release (gate_of id g)) g

-- Where a call of Reserve is with a candidate: it has the node's gate and asks for the capacity, has
-- passed this on to setCapacity, has a place and waits for a slot, or has both. A release gives back
-- the place first.
pub data Caller : Type 0 where
  asking measured waiting reserved leaving : String → Caller

pub record Office : Type 0 where
  pub gate : CapacityGate
  pub callers : List Caller

-- One step of one goroutine.
pub data Step : Office → Office → Type 0 where
  -- The registry has the node as healthy at its address, with this limit.
  looked_up :
      (s : Office) (id : String) (limit : ℕ)
      → Step s (record s {
        gate =
            (node_dispatch_gate id (effective_capacity s.gate.fallback_limit limit 0).0 s.gate).0;
        callers = asking id ∷ s.callers;
      })
  -- dispatchCapacity says that the node is not there, or gives its capacity.
  unavailable :
      (s : Office) (others rest : List Caller) (id : String)
      → s.callers ≡ others ++ asking id ∷ rest
      → Step s (record s { callers = others ++ rest })
  measured_up :
      (s : Office) (others rest : List Caller) (id : String) (limit available reported : ℕ)
      → s.callers ≡ others ++ asking id ∷ rest
      → Step s (record s {
        gate = measure id limit available reported s.gate;
        callers = others ++ measured id ∷ rest;
      })
  refused :
      (s : Office) (others rest : List Caller) (id : String)
      → s.callers ≡ others ++ measured id ∷ rest
      → (admit (gate_of id s.gate)).1 ≡ false
      → Step s (record s {
        gate = with_gate id (admit (gate_of id s.gate)).0 s.gate;
        callers = others ++ rest;
      })
  took :
      (s : Office) (others rest : List Caller) (id : String)
      → s.callers ≡ others ++ measured id ∷ rest
      → (admit (gate_of id s.gate)).1 ≡ true
      → Step s (record s {
        gate = with_gate id (admit (gate_of id s.gate)).0 s.gate;
        callers = others ++ waiting id ∷ rest;
      })
  -- The select behind it: a slot, or the end of the caller's context. A caller whose context ends
  -- after it got a slot releases both.
  got_slot :
      (s : Office) (others rest : List Caller) (id : String)
      → s.callers ≡ others ++ waiting id ∷ rest
      → s.gate.slots < s.gate.slot_count
      → Step s (record s {
        gate = record s.gate { slots = suc s.gate.slots };
        callers = others ++ reserved id ∷ rest;
      })
  cancelled :
      (s : Office) (others rest : List Caller) (id : String)
      → s.callers ≡ others ++ waiting id ∷ rest
      → Step s (record s { gate = release_place id s.gate; callers = others ++ rest })
  place_released :
      (s : Office) (others rest : List Caller) (id : String)
      → s.callers ≡ others ++ reserved id ∷ rest
      → Step s (record s { gate = release_place id s.gate; callers = others ++ leaving id ∷ rest })
  slot_released :
      (s : Office) (others rest : List Caller) (id : String)
      → s.callers ≡ others ++ leaving id ∷ rest
      → Step s
          (record s { gate = record s.gate { slots = s.gate.slots - 1 }; callers = others ++ rest })
  observed :
      (s : Office) (id : String) (fallback limit available reported : ℕ)
      → Step s (record s {
        gate = (snapshot_node_capacity id fallback limit available reported s.gate).0;
      })
  refresh_begun :
      (s : Office) (id : String) (node_gate : Gate)
      → get id s.gate.node_gates ≡ some node_gate
      → Step s (record s { gate = with_gate id (begin_refresh node_gate).0 s.gate })
  refresh_ended :
      (s : Office) (id : String) (node_gate : Gate)
      → get id s.gate.node_gates ≡ some node_gate
      → Step s (record s { gate = with_gate id (end_refresh node_gate) s.gate })

pub data Run (limit : ℕ) : Office → Type 0 where
  opened : Run limit (record { gate = new_dispatch_capacity_gate limit; callers = [] })
  then_step : (s t : Office) → Run limit s → Step s t → Run limit t
