-- ===== src/Router/Capacity/Places.antt =====
-- internal/orchestrator/capacity_gate.go: the places and slots that are counted are those that
-- callers hold.
use m_aistr.Prelude.{
  ℕ, suc, ◌+◌, ◌-◌, ◌≤◌, ◌≡◌, refl, sym, ap, ◌∙◌, subst, arith, String, str_eq, eq_iff, Bool, true,
  false, List, [], ◌∷◌, ◌++◌, count, if◌then◌else◌, Bool-cases, inl, inr,
}
use m_aistr.Prelude.Integers.{pos}
use m_aistr.Prelude.Dict.{get}
use m_aistr.Router.Gate.{begin_refresh, end_refresh, admit}
use m_aistr.Router.Capacity.{
  CapacityGate, new_dispatch_capacity_gate, effective_capacity, node_dispatch_gate, with_gate,
  measure, snapshot_node_capacity, gate_of, release_place, Caller, asking, measured, waiting,
  reserved, leaving, Office, Step, Run,
}
use m_aistr.Router.Capacity
use m_aistr.Router.Capacity.Changes.{
  Changed, with_gate-Changed, node_dispatch_gate-Changed, measure-Changed, taken-Changed,
  refused-Changed, release_place-Changed, snapshot-Changed,
}

-- Whether a caller has a place at the node, and whether it has a slot.
abbrev pub is_at : String → Caller → Bool
is_at id (asking k) = false
is_at id (measured k) = false
is_at id (waiting k) = str_eq k id
is_at id (reserved k) = str_eq k id
is_at id (leaving k) = false

abbrev pub is_reserved : Caller → Bool
is_reserved (asking k) = false
is_reserved (measured k) = false
is_reserved (waiting k) = false
is_reserved (reserved k) = true
is_reserved (leaving k) = true

count-append :
    (p : Caller → Bool) (xs ys : List Caller) → count p (xs ++ ys) ≡ count p xs + count p ys
count-append p [] ys = omega arith
count-append p (x ∷ xs) ys = ground (arith, count-append p xs ys)

-- The active count of every node's gate is the number of callers with a place there, and the slots
-- in use are those of the callers that have one, within the limit.
abbrev pub IsCounted : Office → Type 0
IsCounted s =
    ((id : String) → (gate_of id s.gate).active ≡ pos (count (is_at id) s.callers))
    × (s.gate.slots ≡ count is_reserved s.callers)
    × (s.gate.slots ≤ s.gate.slot_count)

abbrev Places : CapacityGate → List Caller → Type 0
Places g cs = (id : String) → (gate_of id g).active ≡ pos (count (is_at id) cs)

Changed-Places :
    (id : String) (g g' : CapacityGate) (cs cs' : List Caller)
    → Changed id (pos (count (is_at id) cs')) g g'
    → ((other : String)
        → str_eq id other ≡ false
        → count (is_at other) cs' ≡ count (is_at other) cs)
    → Places g cs
    → Places g' cs'
Changed-Places id g g' cs cs' (here, there, slots, slot_count) same h x =
    elim (Bool-cases (str_eq id x)) [
      | inl e ↦
          subst (λ z. (gate_of z g').active ≡ pos (count (is_at z) cs')) ((eq_iff id x).0 e) here
      | inr e ↦ there x e ∙ h x ∙ ap pos (sym (same x e))
    ]

-- A caller among others.
count-among :
    (p : Caller → Bool) (others rest : List Caller) (c : Caller)
    → count p (others ++ c ∷ rest)
      ≡ (if p c then suc (count p (others ++ rest)) else count p (others ++ rest))
count-among p others rest c =
    ground (arith, count-append p others (c ∷ rest), count-append p others rest)

count-swap :
    (p : Caller → Bool) (cs others rest : List Caller) (c c' : Caller)
    → cs ≡ others ++ c ∷ rest
    → p c' ≡ p c
    → count p (others ++ c' ∷ rest) ≡ count p cs
count-swap p cs others rest c c' e same =
    ground (arith, same, count-among p others rest c, count-among p others rest c')
    ∙ sym (ap (count p) e)

count-leave :
    (p : Caller → Bool) (cs others rest : List Caller) (c : Caller)
    → cs ≡ others ++ c ∷ rest
    → p c ≡ false
    → count p (others ++ rest) ≡ count p cs
count-leave p cs others rest c e none_of =
    ground (arith, none_of, count-among p others rest c) ∙ sym (ap (count p) e)

-- A change that leaves the counts as they are.
unmoved :
    (id : String) (g' : CapacityGate) (cs' : List Caller) (s : Office)
    → IsCounted s
    → Changed id (gate_of id s.gate).active s.gate g'
    → ((x : String) → count (is_at x) cs' ≡ count (is_at x) s.callers)
    → count is_reserved cs' ≡ count is_reserved s.callers
    → IsCounted (record s { gate = g'; callers = cs' })
unmoved id g' cs' s (places, slots, within) changed at reserved_too = (
  Changed-Places id s.gate g' s.callers cs'
      (subst (λ z. Changed id z s.gate g') (places id ∙ ap pos (sym (at id))) changed)
      (λ other differs. at other) places,
  changed.2 ∙ slots ∙ sym reserved_too,
  omega (arith, changed.2, changed.3, within),
)

-- A caller that takes a place or gives it back.
replaced :
    (id : String) (g' : CapacityGate) (cs' : List Caller) (s : Office)
    → IsCounted s
    → Changed id (pos (count (is_at id) cs')) s.gate g'
    → ((x : String) → str_eq id x ≡ false → count (is_at x) cs' ≡ count (is_at x) s.callers)
    → count is_reserved cs' ≡ count is_reserved s.callers
    → IsCounted (record s { gate = g'; callers = cs' })
replaced id g' cs' s (places, slots, within) changed at reserved_too = (
  Changed-Places id s.gate g' s.callers cs' changed at places,
  changed.2 ∙ slots ∙ sym reserved_too,
  omega (arith, changed.2, changed.3, within),
)

unchanged : (id : String) (g : CapacityGate) → Changed id (gate_of id g).active g g
unchanged id g = (refl, (λ other differs. refl), refl, refl)

at_home :
    (id : String) (cs : List Caller)
    → (if str_eq id id then suc (count (is_at id) cs) else count (is_at id) cs)
      ≡ suc (count (is_at id) cs)
at_home id cs = ground (arith, eq_iff id id)

-- The place of a caller that is about to give it back.
place_counted :
    (id : String) (s : Office) (others rest : List Caller) (c : Caller)
    → IsCounted s
    → s.callers ≡ others ++ c ∷ rest
    → is_at id c ≡ str_eq id id
    → (gate_of id s.gate).active ≡ pos (suc (count (is_at id) (others ++ rest)))
place_counted id s others rest c (places, slots, within) e here =
    places id
    ∙ ap pos (
        ap (count (is_at id)) e
        ∙ ground (arith, here, eq_iff id id, count-among (is_at id) others rest c))

Step-IsCounted : (s t : Office) → Step s t → IsCounted s → IsCounted t
unfolding begin_refresh end_refresh
Step-IsCounted s _ (Capacity.looked_up s' id limit) h =
    let limit' = (effective_capacity s.gate.fallback_limit limit 0).0 in
    unmoved id (node_dispatch_gate id limit' s.gate).0 (asking id ∷ s.callers) s h
      (node_dispatch_gate-Changed id limit' s.gate) (λ x. refl) refl
Step-IsCounted s _ (Capacity.unavailable s' others rest id e) h =
    unmoved id s.gate (others ++ rest) s h (unchanged id s.gate)
      (λ x. count-leave (is_at x) s.callers others rest (asking id) e refl)
      (count-leave is_reserved s.callers others rest (asking id) e refl)
Step-IsCounted s _ (Capacity.measured_up s' others rest id limit available reported e) h =
    unmoved id (measure id limit available reported s.gate) (others ++ measured id ∷ rest) s h
      (measure-Changed id limit available reported s.gate)
      (λ x. count-swap (is_at x) s.callers others rest (asking id) (measured id) e refl)
      (count-swap is_reserved s.callers others rest (asking id) (measured id) e refl)
Step-IsCounted s _ (Capacity.refused s' others rest id e turned_away) h =
    unmoved id (with_gate id (admit (gate_of id s.gate)).0 s.gate) (others ++ rest) s h
      (refused-Changed id s.gate turned_away)
      (λ x. count-leave (is_at x) s.callers others rest (measured id) e refl)
      (count-leave is_reserved s.callers others rest (measured id) e refl)
Step-IsCounted s _ (Capacity.took s' others rest id e taken) h =
    let more : count (is_at id) (others ++ waiting id ∷ rest) ≡ suc (count (is_at id) s.callers) =
      count-among (is_at id) others rest (waiting id)
      ∙ at_home id (others ++ rest)
      ∙ ap suc (count-leave (is_at id) s.callers others rest (measured id) e refl) in
    let g' = with_gate id (admit (gate_of id s.gate)).0 s.gate in
    replaced id g' (others ++ waiting id ∷ rest) s h
      (subst (λ n. Changed id (pos n) s.gate g') (sym more)
        (taken-Changed id (count (is_at id) s.callers) s.gate (h.0 id) taken))
      (λ x differs. count-swap (is_at x) s.callers others rest (measured id) (waiting id) e differs)
      (count-swap is_reserved s.callers others rest (measured id) (waiting id) e refl)
Step-IsCounted s _ (Capacity.got_slot s' others rest id e free) (places, slots, within) = (
  (λ x.
      places x
      ∙ ap pos
          (sym (count-swap (is_at x) s.callers others rest (waiting id) (reserved id) e refl))),
  ap suc (slots ∙ ap (count is_reserved) e ∙ count-among is_reserved others rest (waiting id))
      ∙ sym (count-among is_reserved others rest (reserved id)),
  omega arith,
)
Step-IsCounted s _ (Capacity.cancelled s' others rest id e) h =
    replaced id (release_place id s.gate) (others ++ rest) s h
      (release_place-Changed id (count (is_at id) (others ++ rest)) s.gate
        (place_counted id s others rest (waiting id) h e refl))
      (λ x differs. count-leave (is_at x) s.callers others rest (waiting id) e differs)
      (count-leave is_reserved s.callers others rest (waiting id) e refl)
Step-IsCounted s _ (Capacity.place_released s' others rest id e) h =
    let gone : count (is_at id) (others ++ leaving id ∷ rest) ≡ count (is_at id) (others ++ rest) =
      count-among (is_at id) others rest (leaving id) in
    replaced id (release_place id s.gate) (others ++ leaving id ∷ rest) s h
      (subst (λ n. Changed id (pos n) s.gate (release_place id s.gate)) (sym gone)
        (release_place-Changed id (count (is_at id) (others ++ rest)) s.gate
          (place_counted id s others rest (reserved id) h e refl)))
      (λ x differs.
        count-swap (is_at x) s.callers others rest (reserved id) (leaving id) e (sym differs))
      (count-swap is_reserved s.callers others rest (reserved id) (leaving id) e refl)
Step-IsCounted s _ (Capacity.slot_released s' others rest id e) (places, slots, within) = (
  (λ x. places x ∙ ap pos (sym (count-leave (is_at x) s.callers others rest (leaving id) e refl))),
  ap (λ n. n - 1)
        (slots ∙ ap (count is_reserved) e ∙ count-among is_reserved others rest (leaving id))
      ∙ omega arith,
  omega (arith, within),
)
Step-IsCounted s _ (Capacity.observed s' id fallback limit available reported) h =
    unmoved id (snapshot_node_capacity id fallback limit available reported s.gate).0 s.callers s h
      (snapshot-Changed id fallback limit available reported s.gate) (λ x. refl) refl
Step-IsCounted s _ (Capacity.refresh_begun s' id node_gate e) h =
    let same : node_gate.active ≡ (gate_of id s.gate).active = ground (arith, e) in
    unmoved id (with_gate id (begin_refresh node_gate).0 s.gate) s.callers s h
      (subst (λ z. Changed id z s.gate (with_gate id (begin_refresh node_gate).0 s.gate)) same
        (with_gate-Changed id (begin_refresh node_gate).0 s.gate))
      (λ x. refl) refl
Step-IsCounted s _ (Capacity.refresh_ended s' id node_gate e) h =
    let same : node_gate.active ≡ (gate_of id s.gate).active = ground (arith, e) in
    unmoved id (with_gate id (end_refresh node_gate) s.gate) s.callers s h
      (subst (λ z. Changed id z s.gate (with_gate id (end_refresh node_gate) s.gate)) same
        (with_gate-Changed id (end_refresh node_gate) s.gate))
      (λ x. refl) refl

-- In every run of callers that reserve and release, the active count of each node is the number of
-- callers with a place there, and the slots in use are those of the callers that have one, no more
-- than the global limit.
pub run-IsCounted : (limit : ℕ) (s : Office) → Run limit s → IsCounted s
unfolding new_dispatch_capacity_gate get
run-IsCounted limit _ Capacity.opened = ((λ id. refl), refl, omega arith)
run-IsCounted limit _ (Capacity.then_step s t r step) =
    Step-IsCounted s t step (run-IsCounted limit s r)
