-- ===== src/Router/Gate.antt =====
-- internal/orchestrator/node_dispatch_gate.go: the admission of work to one node. The numbers of a
-- node's status are not negative; `active` is an int that `release` lowers without a test.
pub mod Admission
use m_aistr.Prelude.{
  ℕ, zero, suc, ◌+◌, ◌-◌, ◌==◌, ltb, Bool, true, false, not, ◌&&◌, ◌||◌, max, if◌then◌else◌,
}
use m_aistr.Prelude.Integers.{ℤ, pos, negsuc}

-- `changed` counts the channels that the field has held, so a waiter on an older one is awake.
pub record Gate : Type 0 where
  pub refreshing : Bool
  pub limit : ℕ
  pub active : ℤ
  pub external : ℕ
  pub changed : ℕ

abbrev pub new_node_dispatch_gate : ℕ → Gate
new_node_dispatch_gate limit = record {
  refreshing = false;
  limit = limit;
  active = pos 0;
  external = 0;
  changed = 0;
}

-- Whether the caller is the one that probes the node.
unfoldable pub begin_refresh : Gate → Gate × Bool
begin_refresh g = (record g { refreshing = true }, not g.refreshing)

unfoldable pub end_refresh : Gate → Gate
end_refresh g = record g { refreshing = false }

abbrev pub increment : ℤ → ℤ
increment (pos n) = pos (suc n)
increment (negsuc zero) = pos 0
increment (negsuc (suc n)) = negsuc n

abbrev pub decrement : ℤ → ℤ
decrement (pos zero) = negsuc 0
decrement (pos (suc n)) = pos n
decrement (negsuc n) = negsuc (suc n)

-- `max(0, occupied-active)`
abbrev pub excess : ℕ → ℤ → ℕ
excess occupied (pos n) = occupied - n
excess occupied (negsuc n) = occupied + suc n

-- `active+external < limit`
abbrev pub has_room : ℤ → ℕ → ℕ → Bool
has_room (pos n) external limit = ltb (n + external) limit
has_room (negsuc n) external limit = ltb external (limit + suc n)

unfoldable pub set_capacity : ℕ → ℕ → ℕ → Gate → Gate
set_capacity limit available reported g =
    let external = excess (max (limit - available) reported) g.active in
    if not (limit == g.limit) || not (external == g.external)
    then record g { limit = limit; external = external; changed = suc g.changed }
    else g

-- The part of tryAcquire behind setCapacity, which has given the lock back in between: whether a
-- place was taken. A refused caller waits for the next channel after the number in `changed`.
unfoldable pub admit : Gate → Gate × Bool
admit g =
    if has_room g.active g.external g.limit
    then (record g { active = increment g.active }, true)
    else (g, false)

unfoldable pub release : Gate → Gate
release g = record g { active = decrement g.active; changed = suc g.changed }
