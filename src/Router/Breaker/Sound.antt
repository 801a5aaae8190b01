-- ===== src/Router/Breaker/Sound.antt =====
-- internal/orchestrator/router_breaker.go: what holds of every breaker between two calls.
use m_aistr.Prelude.{
  ℕ, ◌≤◌, ◌<◌, String, ◌≡◌, refl, subst, arith, if_elim, Option, none, some, true, false, ◌&&◌,
  List, [], ◌∷◌, length, length-append, leb, ◌==◌,
}
use m_aistr.Prelude.Dict.{get, put, Entries, get-Entries, put-Entries, delete-Entries}
use m_aistr.Router.Breaker.{
  Breaker, Breakers, new_breaker, is_closed, is_half_open, recent, prune_failures, open_breaker,
  transition_expired, fail, sweep, entry_for, entry_for_update, update_entry, healthy_entry,
  release_entry, record_failure, record_healthy_response, release_probe, failure_threshold,
  max_entries,
}

-- A closed breaker has seen fewer failures than the threshold, only a half-open one has a probe in
-- flight, and one that is not closed has been opened.
pub record IsSound (e : Breaker) : Type 0 where
  pub closed_few : is_closed e.state ≡ true → length e.recent_failures < failure_threshold
  pub probe_half : e.probe_in_flight ≡ true → is_half_open e.state ≡ true
  pub opened : is_closed e.state ≡ false → 2 ≤ e.open_count

length-recent : (now : ℕ) (fs : List ℕ) → length (recent now fs) ≤ length fs
unfolding recent
length-recent now [] = omega arith
length-recent now (f ∷ fs) = ground (arith, length-recent now fs)

prune-IsSound : (now : ℕ) (e : Breaker) → IsSound e → IsSound (prune_failures now e)
unfolding prune_failures
prune-IsSound now e h = ground (arith, length-recent now e.recent_failures)

pub transition-IsSound : (now : ℕ) (e : Breaker) → IsSound e → IsSound (transition_expired now e)
unfolding transition_expired
transition-IsSound now e h = ground arith

-- One failure more, with the breaker opened at the threshold.
pub fail-IsSound :
    (jitter : Option (ℕ → ℕ)) (now : ℕ) (e : Breaker) → IsSound e → IsSound (fail jitter now e)
unfolding fail open_breaker
fail-IsSound jitter now e h = ground (
  arith,
  length-recent now e.recent_failures,
  length-append (recent now e.recent_failures) (now ∷ []),
)

pub new-IsSound : IsSound new_breaker
new-IsSound = ground arith

pub sweep-IsSound : (now : ℕ) (d : Breakers) → Entries IsSound d → Entries IsSound (sweep now d)
unfolding sweep
sweep-IsSound now [] h = h
sweep-IsSound now ((k, e) ∷ d) h =
    if_elim (λ (x : Breakers). Entries IsSound x)
      (is_closed (prune_failures now e).state
        && (length (prune_failures now e).recent_failures == 0))
      (λ _. sweep-IsSound now d h.1) (λ _. (prune-IsSound now e h.0, sweep-IsSound now d h.1))

update-IsSound :
    (jitter : Option (ℕ → ℕ)) (key : String) (now : ℕ) (d : Breakers) (o : Option Breaker)
    → Entries IsSound d
    → ((e : Breaker) → o ≡ some e → IsSound e)
    → Entries IsSound (update_entry key (fail jitter now) (d, o))
unfolding update_entry
update-IsSound jitter key now d none h k = h
update-IsSound jitter key now d (some e) h k =
    put-Entries IsSound key (fail jitter now e) d (fail-IsSound jitter now e (k e refl)) h

failed-IsSound :
    (jitter : Option (ℕ → ℕ)) (key : String) (now : ℕ) (d : Breakers) (o : Option Breaker)
    → Entries IsSound d
    → ((e : Breaker) → o ≡ some e → IsSound e)
    → Entries IsSound (update_entry key (fail jitter now) (entry_for key now d o))
unfolding entry_for
failed-IsSound jitter key now d (some e) h k = update-IsSound jitter key now d (some e) h k
failed-IsSound jitter key now d none h k =
    if_elim {A = Breakers × Option Breaker}
      (λ r. Entries IsSound (update_entry key (fail jitter now) r))
      (leb max_entries (length (sweep now d)))
      (λ _.
        update-IsSound jitter key now (sweep now d) none (sweep-IsSound now d h)
          (λ e q. absurd (cc)))
      (λ _.
        update-IsSound jitter key now (put key new_breaker (sweep now d)) (some new_breaker)
          (put-Entries IsSound key new_breaker (sweep now d) new-IsSound (sweep-IsSound now d h))
          (λ e q. let same : new_breaker ≡ e = cc in subst IsSound same new-IsSound))

pub record_failure-IsSound :
    (jitter : Option (ℕ → ℕ)) (key : String) (now : ℕ) (d : Breakers)
    → Entries IsSound d
    → Entries IsSound (record_failure jitter key now d)
unfolding record_failure entry_for_update
record_failure-IsSound jitter key now d h =
    failed-IsSound jitter key now d (get key d) h (λ e. get-Entries IsSound key d {v = e} h)

healthy-IsSound :
    (key : String) (d : Breakers) (o : Option Breaker)
    → Entries IsSound d
    → Entries IsSound (healthy_entry key d o)
unfolding healthy_entry
healthy-IsSound key d none h = h
healthy-IsSound key d (some e) h =
    if_elim (λ (x : Breakers). Entries IsSound x) (is_half_open e.state)
      (λ _. delete-Entries IsSound key d h) (λ _. h)

pub record_healthy_response-IsSound :
    (key : String) (d : Breakers)
    → Entries IsSound d
    → Entries IsSound (record_healthy_response key d)
unfolding record_healthy_response
record_healthy_response-IsSound key d h = healthy-IsSound key d (get key d) h

release-IsSound : (e : Breaker) → IsSound e → IsSound (record e { probe_in_flight = false })
release-IsSound e h = ground arith

release_entry-IsSound :
    (key : String) (d : Breakers) (o : Option Breaker)
    → ((e : Breaker) → o ≡ some e → IsSound e)
    → Entries IsSound d
    → Entries IsSound (release_entry key d o)
unfolding release_entry
release_entry-IsSound key d none k h = h
release_entry-IsSound key d (some e) k h =
    if_elim (λ (x : Breakers). Entries IsSound x) (is_half_open e.state)
      (λ _. put-Entries IsSound key _ d (release-IsSound e (k e refl)) h) (λ _. h)

pub release_probe-IsSound :
    (key : String) (d : Breakers) → Entries IsSound d → Entries IsSound (release_probe key d)
unfolding release_probe
release_probe-IsSound key d h =
    release_entry-IsSound key d (get key d) (λ e. get-Entries IsSound key d {v = e} h) h
