-- ===== src/Examples/Reservations.antt =====
-- internal/orchestrator/capacity_gate.go: a caller takes a place at a node and a slot.
use m_aistr.Prelude.{◌≡◌, refl, arith, true, [], ◌∷◌}
use m_aistr.Prelude.Dict.{get, put}
use m_aistr.Router.Gate.{admit, set_capacity}
use m_aistr.Router.Capacity.{
  new_dispatch_capacity_gate, node_dispatch_gate, effective_capacity, measure, with_gate, gate_of,
  asking, measured, waiting, reserved, Office, Run,
}
use m_aistr.Router.Capacity
use m_aistr.Router.Capacity.Places.{IsCounted, run-IsCounted}

abbrev idle : Office
idle = record { gate = new_dispatch_capacity_gate 3; callers = [] }

abbrev looked : Office
looked = record {
  gate = (node_dispatch_gate "n" (effective_capacity 3 2 0).0 idle.gate).0;
  callers = asking "n" ∷ [];
}

abbrev probed : Office
probed = record { gate = measure "n" 2 2 0 looked.gate; callers = measured "n" ∷ [] }

abbrev placed : Office
placed = record {
  gate = with_gate "n" (admit (gate_of "n" probed.gate)).0 probed.gate;
  callers = waiting "n" ∷ [];
}

abbrev held : Office
held = record placed { gate = record placed.gate { slots = 1 }; callers = reserved "n" ∷ [] }

has_place : (admit (gate_of "n" probed.gate)).1 ≡ true
unfolding measure admit set_capacity node_dispatch_gate new_dispatch_capacity_gate get put
has_place = refl

run_held : Run 3 held
unfolding measure node_dispatch_gate new_dispatch_capacity_gate get
run_held =
    Capacity.then_step placed held
      (Capacity.then_step probed placed
        (Capacity.then_step looked probed
          (Capacity.then_step idle looked Capacity.opened (Capacity.looked_up idle "n" 2))
          (Capacity.measured_up looked [] [] "n" 2 2 0 refl))
        (Capacity.took probed [] [] "n" refl has_place))
      (Capacity.got_slot placed [] [] "n" refl (omega arith))

run-IsCounted_example : IsCounted held
run-IsCounted_example = run-IsCounted 3 held run_held
