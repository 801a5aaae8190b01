-- ===== src/Router/Breaker/Calls.antt =====
-- internal/orchestrator/router_breaker.go: the calls of the router in any order.
use m_aistr.Prelude.{
  ℕ, ◌≤◌, ◌<◌, String, ◌≡◌, refl, arith, if_elim, Option, none, some, Bool, true, false, not, [],
  ◌∷◌, length, leb,
}
use m_aistr.Prelude.Dict.{
  get, put, Entries, get-Entries, put-Entries, delete-Entries, length-put, length-delete, get-put,
}
use native.Mathlib.Nat.{le_trans}
use text.Mathlib.TextPositions.{eq_refl}
use m_aistr.Router.Breaker.{
  Breaker, Breakers, new_breaker, is_half_open, transition_expired, fail, sweep, entry_for,
  entry_for_update, update_entry, record_failure, record_success, record_healthy_response,
  healthy_entry, release_entry, eligible, eligible_entry, acquire, acquire_entry, release_probe,
  max_entries,
}
use m_aistr.Router.Breaker.Sound.{
  IsSound, transition-IsSound, record_failure-IsSound, record_healthy_response-IsSound,
  release_probe-IsSound,
}

pub data Call : Type 0 where
  failure success healthy ask take release : String → Call

-- The breakers after a call at a time.
unfoldable pub answer : Option (ℕ → ℕ) → Call → ℕ → Breakers → Breakers
answer jitter (failure key) now d = record_failure jitter key now d
answer jitter (success key) now d = record_success key d
answer jitter (healthy key) now d = record_healthy_response key d
answer jitter (ask key) now d = (eligible key now d).0
answer jitter (take key) now d = (acquire key now d).0
answer jitter (release key) now d = release_probe key d

eligible-IsSound :
    (key : String) (now : ℕ) (d : Breakers) (o : Option Breaker)
    → ((e : Breaker) → o ≡ some e → IsSound e)
    → Entries IsSound d
    → Entries IsSound (eligible_entry key now d o).0
unfolding eligible_entry
eligible-IsSound key now d none k h = h
eligible-IsSound key now d (some e) k h =
    put-Entries IsSound key (transition_expired now e) d (transition-IsSound now e (k e refl)) h

probing-IsSound :
    (e : Breaker)
    → not (is_half_open e.state) ≡ false
    → IsSound e
    → IsSound (record e { probe_in_flight = true })
probing-IsSound e b h = ground arith

acquire-IsSound :
    (key : String) (now : ℕ) (d : Breakers) (o : Option Breaker)
    → ((e : Breaker) → o ≡ some e → IsSound e)
    → Entries IsSound d
    → Entries IsSound (acquire_entry key now d o).0
unfolding acquire_entry
acquire-IsSound key now d none k h = h
acquire-IsSound key now d (some e) k h =
    let e' = transition_expired now e in
    let s = transition-IsSound now e (k e refl) in
    if_elim {A = Breakers × Bool} (λ r. Entries IsSound r.0) (not (is_half_open e'.state))
      (λ _. put-Entries IsSound key e' d s h)
      (λ b.
        if_elim {A = Breakers × Bool} (λ r. Entries IsSound r.0) e'.probe_in_flight
          (λ _. put-Entries IsSound key e' d s h)
          (λ _. put-Entries IsSound key _ d (probing-IsSound e' b s) h))

-- Every call keeps the breakers sound, if they all were: the list of recent failures of a closed one is shorter than
-- three, only a half-open one has a probe in flight, and the count of openings of one that is not
-- closed is 2 at least.
pub answer-IsSound :
    (jitter : Option (ℕ → ℕ)) (call : Call) (now : ℕ) (d : Breakers)
    → Entries IsSound d
    → Entries IsSound (answer jitter call now d)
unfolding answer record_success eligible acquire
answer-IsSound jitter (failure key) now d h = record_failure-IsSound jitter key now d h
answer-IsSound jitter (success key) now d h = delete-Entries IsSound key d h
answer-IsSound jitter (healthy key) now d h = record_healthy_response-IsSound key d h
answer-IsSound jitter (ask key) now d h =
    eligible-IsSound key now d (get key d) (λ e. get-Entries IsSound key d {v = e} h) h
answer-IsSound jitter (take key) now d h =
    acquire-IsSound key now d (get key d) (λ e. get-Entries IsSound key d {v = e} h) h
answer-IsSound jitter (release key) now d h = release_probe-IsSound key d h

length-sweep : (now : ℕ) (d : Breakers) → length (sweep now d) ≤ length d
unfolding sweep
length-sweep now [] = omega arith
length-sweep now ((k, e) ∷ d) = ground (arith, length-sweep now d)

length-put_present :
    (key : String) (v : Breaker) (d : Breakers) {e : Breaker}
    → get key d ≡ some e
    → length (put key v d) ≡ length d
unfolding get put
length-put_present key v [] h = absurd (cc)
length-put_present key v ((j, w) ∷ d) {e = e} h = ground (arith, length-put_present key v d {e = e})

length-failure :
    (jitter : Option (ℕ → ℕ)) (key : String) (now : ℕ) (d : Breakers) (o : Option Breaker)
    → get key d ≡ o
    → length d ≤ max_entries
    → length (update_entry key (fail jitter now) (entry_for key now d o)) ≤ max_entries
unfolding update_entry entry_for
length-failure jitter key now d (some e) q h =
    omega (arith, length-put_present key (fail jitter now e) d {e = e} q)
length-failure jitter key now d none q h =
    if_elim {A = Breakers × Option Breaker}
      (λ r. length (update_entry key (fail jitter now) r) ≤ max_entries)
      (leb max_entries (length (sweep now d))) (λ _. le_trans (length-sweep now d) h)
      (λ b. admitted (ground arith))
  where
    fresh : get key (put key new_breaker (sweep now d)) ≡ some new_breaker
    fresh = simp (get-put, eq_refl)

    admitted :
        length (sweep now d) < max_entries
        → length (put key (fail jitter now new_breaker) (put key new_breaker (sweep now d)))
          ≤ max_entries
    admitted k = omega (
      arith,
      length-put key new_breaker (sweep now d),
      length-put_present key (fail jitter now new_breaker) (put key new_breaker (sweep now d))
          {e = new_breaker} fresh,
    )

length-healthy :
    (key : String) (d : Breakers) (o : Option Breaker) → length (healthy_entry key d o) ≤ length d
unfolding healthy_entry
length-healthy key d none = omega arith
length-healthy key d (some e) = ground (arith, length-delete key d)

length-release :
    (key : String) (d : Breakers) (o : Option Breaker)
    → get key d ≡ o
    → length (release_entry key d o) ≡ length d
unfolding release_entry
length-release key d none q = refl
length-release key d (some e) q =
    ground (arith, length-put_present key (record e { probe_in_flight = false }) d {e = e} q)

length-eligible :
    (key : String) (now : ℕ) (d : Breakers) (o : Option Breaker)
    → get key d ≡ o
    → length (eligible_entry key now d o).0 ≡ length d
unfolding eligible_entry
length-eligible key now d none q = refl
length-eligible key now d (some e) q = length-put_present key (transition_expired now e) d {e = e} q

length-acquire :
    (key : String) (now : ℕ) (d : Breakers) (o : Option Breaker)
    → get key d ≡ o
    → length (acquire_entry key now d o).0 ≡ length d
unfolding acquire_entry
length-acquire key now d none q = refl
length-acquire key now d (some e) q =
    let e' = transition_expired now e in
    let kept = length-put_present key e' d {e = e} q in
    if_elim {A = Breakers × Bool} (λ r. length r.0 ≡ length d) (not (is_half_open e'.state))
      (λ _. kept)
      (λ _.
        if_elim {A = Breakers × Bool} (λ r. length r.0 ≡ length d) e'.probe_in_flight (λ _. kept)
          (λ _. length-put_present key (record e' { probe_in_flight = true }) d {e = e} q))

-- No call makes the map of breakers larger than 4096 entries.
pub length-answer :
    (jitter : Option (ℕ → ℕ)) (call : Call) (now : ℕ) (d : Breakers)
    → length d ≤ max_entries
    → length (answer jitter call now d) ≤ max_entries
unfolding answer record_failure entry_for_update record_success record_healthy_response eligible
    acquire release_probe
length-answer jitter (failure key) now d h = length-failure jitter key now d (get key d) refl h
length-answer jitter (success key) now d h = omega (arith, length-delete key d)
length-answer jitter (healthy key) now d h = omega (arith, length-healthy key d (get key d))
length-answer jitter (ask key) now d h = omega (arith, length-eligible key now d (get key d) refl)
length-answer jitter (take key) now d h = omega (arith, length-acquire key now d (get key d) refl)
length-answer jitter (release key) now d h = omega (arith, length-release key d (get key d) refl)
