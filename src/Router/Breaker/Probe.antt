-- ===== src/Router/Breaker/Probe.antt =====
-- internal/orchestrator/router_breaker.go: what `acquire` lets through.
use m_aistr.Prelude.{
  subst, ℕ, String, ◌≡◌, arith, if◌then◌else◌, some, Bool, true, false, not, sym, ◌∙◌, ap,
}
use m_aistr.Prelude.Dict.{get, put, get-put}
use text.Mathlib.TextPositions.{eq_refl}
use m_aistr.Router.Breaker.{
  Breaker, Breakers, is_closed, is_open, is_half_open, transition_expired, eligible, acquire,
}

-- `eligible` foretells what `acquire` answers at the same time.
pub eligible-acquire :
    (key : String) (now : ℕ) (d : Breakers) → (eligible key now d).1 ≡ (acquire key now d).1
unfolding eligible acquire
eligible-acquire key now d = ground arith

abbrev entry_acquire : ℕ → Breaker → Breaker × Bool
entry_acquire now e =
    let e' = transition_expired now e in
    if not (is_half_open e'.state)
    then (e', not (is_open e'.state))
    else if e'.probe_in_flight
    then (e', false)
    else (record e' { probe_in_flight = true }, true)

acquire-entry :
    (key : String) (now : ℕ) (d : Breakers) (e : Breaker)
    → get key d ≡ some e
    → acquire key now d ≡ (put key (entry_acquire now e).0 d, (entry_acquire now e).1)
unfolding acquire transition_expired
acquire-entry key now d e h = ground arith

probe_marked :
    (now : ℕ) (e : Breaker)
    → is_closed e.state ≡ false
    → (entry_acquire now e).1 ≡ true
    → (is_half_open (entry_acquire now e).0.state ≡ true)
      × ((entry_acquire now e).0.probe_in_flight ≡ true)
unfolding transition_expired
probe_marked now e c h = ground (arith, h, c)

idle :
    (now : ℕ) (e : Breaker)
    → is_half_open e.state ≡ true
    → e.probe_in_flight ≡ true
    → entry_acquire now e ≡ (e, false)
unfolding transition_expired
idle now e half probe = ground (arith, half, probe)

-- The breaker of the pair has a probe in flight.
abbrev pub Probing : String → Breakers → Type 0
Probing key d =
    (e : Breaker) × (get key d ≡ some e)
    × (is_half_open e.state ≡ true)
    × (e.probe_in_flight ≡ true)

-- Letting a call through a breaker that is not closed marks the probe.
pub acquire-Probing :
    (key : String) (now : ℕ) (d : Breakers) (e : Breaker)
    → get key d ≡ some e
    → is_closed e.state ≡ false
    → (acquire key now d).1 ≡ true
    → Probing key (acquire key now d).0
acquire-Probing key now d e q c h =
    let first = acquire-entry key now d e q in
    let let_through : (entry_acquire now e).1 ≡ true = sym (ap (λ r. r.1) first) ∙ h in
    subst (λ r. Probing key r.0) (sym first)
      (
        (entry_acquire now e).0,
        simp (get-put, eq_refl),
        (marked let_through).0,
        (marked let_through).1,
      )
  where
    marked :
        (entry_acquire now e).1 ≡ true
        → (is_half_open (entry_acquire now e).0.state ≡ true)
          × ((entry_acquire now e).0.probe_in_flight ≡ true)
    marked h' = probe_marked now e c h'

-- A breaker with a probe in flight is left alone, and the call refused.
pub Probing-acquire :
    (key : String) (now : ℕ) (d : Breakers)
    → Probing key d
    → ((acquire key now d).1 ≡ false) × Probing key (acquire key now d).0
Probing-acquire key now d (e, q, half, probe) =
    let same : entry_acquire now e ≡ (e, false) = idle now e half probe in
    let r : acquire key now d ≡ (put key e d, false) =
      acquire-entry key now d e q ∙ ap (λ z. (put key z.0 d, z.1)) same in
    (
      ap (λ z. z.1) r,
      subst (λ z. Probing key z.0) (sym r) (e, simp (get-put, eq_refl), half, probe),
    )
