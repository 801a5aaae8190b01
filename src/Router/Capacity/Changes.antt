-- ===== src/Router/Capacity/Changes.antt =====
-- internal/orchestrator/capacity_gate.go: what each operation changes of the gates.
use m_aistr.Prelude.{
  ℕ, suc, ◌≡◌, refl, ap, ◌∙◌, subst, arith, String, str_eq, eq_iff, true, false, Option, none, some,
  if◌then◌else◌, Option-cases, inl, inr,
}
use m_aistr.Prelude.Integers.{ℤ, pos}
use m_aistr.Prelude.Dict.{get, get-put}
use m_aistr.Router.Gate.{Gate, new_node_dispatch_gate, decrement, set_capacity, admit, release}
use m_aistr.Router.Gate.Admission.{taken-active, refused-active, observed-active}
use m_aistr.Router.Capacity.{
  CapacityGate, effective_capacity, node_dispatch_gate, with_gate, measure, snapshot_node_capacity,
  gate_of, release_place,
}

-- A change of one gate, as the others see it.
gate_of-with_gate :
    (id other : String) (node_gate : Gate) (g : CapacityGate)
    → gate_of other (with_gate id node_gate g)
      ≡ (if str_eq id other then node_gate else gate_of other g)
gate_of-with_gate id other node_gate g = ground (arith, get-put id other node_gate g.node_gates)

-- A change of the gate of one node, which then counts k.
abbrev pub Changed : String → ℤ → CapacityGate → CapacityGate → Type 0
Changed id k g g' =
    ((gate_of id g').active ≡ k)
    × ((other : String)
        → str_eq id other ≡ false
        → (gate_of other g').active ≡ (gate_of other g).active)
    × (g'.slots ≡ g.slots)
    × (g'.slot_count ≡ g.slot_count)

pub with_gate-Changed :
    (id : String) (node_gate : Gate) (g : CapacityGate)
    → Changed id node_gate.active g (with_gate id node_gate g)
with_gate-Changed id node_gate g = (
  ap (λ z. z.active) here,
  (λ other differs. ap (λ z. z.active) (there other differs)),
  refl,
  refl,
)
  where
    here : gate_of id (with_gate id node_gate g) ≡ node_gate
    here = ground (arith, gate_of-with_gate id id node_gate g, eq_iff id id)

    there :
        (other : String)
        → str_eq id other ≡ false
        → gate_of other (with_gate id node_gate g) ≡ gate_of other g
    there other differs = ground (arith, gate_of-with_gate id other node_gate g, differs)

-- The gate that the lookup makes where there was none counts nothing.
pub node_dispatch_gate-Changed :
    (id : String) (limit : ℕ) (g : CapacityGate)
    → Changed id (gate_of id g).active g (node_dispatch_gate id limit g).0
unfolding node_dispatch_gate
node_dispatch_gate-Changed id limit g = elim (Option-cases (get id g.node_gates)) [
  | inl e ↦ (
    ground (arith, e, eq_iff id id, get-put id id (new_node_dispatch_gate limit) g.node_gates),
    (λ other differs.
        ground (arith, e, differs, get-put id other (new_node_dispatch_gate limit) g.node_gates)),
    ground (arith, e),
    ground (arith, e),
  )
  | inr (node_gate, e) ↦ (
    ground (arith, e),
    (λ other differs. ground (arith, e)),
    ground (arith, e),
    ground (arith, e),
  )
]

pub measure-Changed :
    (id : String) (limit available reported : ℕ) (g : CapacityGate)
    → Changed id (gate_of id g).active g (measure id limit available reported g)
unfolding measure
measure-Changed id limit available reported g =
    let capacity = effective_capacity g.fallback_limit limit available in
    let node_gate = set_capacity capacity.0 capacity.1 reported (gate_of id g) in
    subst (λ z. Changed id z g (with_gate id node_gate g))
      (observed-active capacity.0 capacity.1 reported (gate_of id g))
      (with_gate-Changed id node_gate g)

pub taken-Changed :
    (id : String) (n : ℕ) (g : CapacityGate)
    → (gate_of id g).active ≡ pos n
    → (admit (gate_of id g)).1 ≡ true
    → Changed id (pos (suc n)) g (with_gate id (admit (gate_of id g)).0 g)
taken-Changed id n g h k =
    subst (λ z. Changed id z g (with_gate id (admit (gate_of id g)).0 g))
      (taken-active (gate_of id g) n h k) (with_gate-Changed id (admit (gate_of id g)).0 g)

pub refused-Changed :
    (id : String) (g : CapacityGate)
    → (admit (gate_of id g)).1 ≡ false
    → Changed id (gate_of id g).active g (with_gate id (admit (gate_of id g)).0 g)
refused-Changed id g k =
    subst (λ z. Changed id z g (with_gate id (admit (gate_of id g)).0 g))
      (refused-active (gate_of id g) k) (with_gate-Changed id (admit (gate_of id g)).0 g)

pub release_place-Changed :
    (id : String) (n : ℕ) (g : CapacityGate)
    → (gate_of id g).active ≡ pos (suc n)
    → Changed id (pos n) g (release_place id g)
unfolding release_place release
release_place-Changed id n g h =
    subst (λ z. Changed id z g (release_place id g)) (ap decrement h)
      (with_gate-Changed id (release (gate_of id g)) g)

pub snapshot-Changed :
    (id : String) (fallback limit available reported : ℕ) (g : CapacityGate)
    → Changed id
        (gate_of id g).active
        g
        (snapshot_node_capacity id fallback limit available reported g).0
unfolding snapshot_node_capacity
snapshot-Changed id fallback limit available reported g = go (get id g.node_gates) refl
  where
    go :
        (o : Option Gate)
        → get id g.node_gates ≡ o
        → Changed id
            (gate_of id g).active
            g
            (elim o as (λ _. CapacityGate × Option Gate) [
              | none ↦ (g, none)
              | some node_gate ↦
                  let capacity = effective_capacity fallback limit available in
                  let node_gate' = set_capacity capacity.0 capacity.1 reported node_gate in
                  (with_gate id node_gate' g, some node_gate')
            ]).0
    go none e = (refl, (λ other differs. refl), refl, refl)
    go (some node_gate) e =
        let capacity = effective_capacity fallback limit available in
        let same : node_gate.active ≡ (gate_of id g).active = ground (arith, e) in
        subst
          (λ z.
            Changed id z g (with_gate id (set_capacity capacity.0 capacity.1 reported node_gate) g))
          (observed-active capacity.0 capacity.1 reported node_gate ∙ same)
          (with_gate-Changed id (set_capacity capacity.0 capacity.1 reported node_gate) g)
