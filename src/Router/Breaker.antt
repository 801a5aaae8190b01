-- ===== src/Router/Breaker.antt =====
-- internal/orchestrator/router_breaker.go: one circuit breaker for each pair of a node and a model.
-- A time or a duration is a number of nanoseconds. The operations take the pair's key; the code
-- makes it from the node's id and the trimmed, lower-case name of the model.
pub mod Sound
pub mod Probe
pub mod Calls
pub mod Single
pub mod Backoff
use m_aistr.Prelude.{
  ℕ, zero, suc, ◌+◌, ◌-◌, ◌*◌, String, Bool, true, false, not, ◌&&◌, ◌||◌, ltb, leb, ◌==◌, Option,
  none, some, List, [], ◌∷◌, ◌++◌, length, if◌then◌else◌, min, max,
}
use m_aistr.Prelude.Dict.{Dict, get, put, delete}

abbrev pub second : ℕ
second = 1_000_000_000

abbrev pub failure_threshold : ℕ
failure_threshold = 3

abbrev pub failure_window : ℕ
failure_window = 30 * second

abbrev pub base_backoff : ℕ
base_backoff = second

abbrev pub max_backoff : ℕ
max_backoff = 60 * second

abbrev pub max_entries : ℕ
max_entries = 4096

pub data State : Type 0 where
  closed open_ half_open : State

abbrev pub is_closed : State → Bool
is_closed closed = true
is_closed _ = false

abbrev pub is_open : State → Bool
is_open open_ = true
is_open _ = false

abbrev pub is_half_open : State → Bool
is_half_open half_open = true
is_half_open _ = false

pub record Breaker : Type 0 where
  pub state : State
  pub recent_failures : List ℕ
  pub open_count : ℕ
  pub open_until : ℕ
  pub probe_in_flight : Bool
  pub last_failure : ℕ

-- The map `entries`; a nil receiver is not modelled, it lets everything pass.
abbrev pub Breakers : Type 0
Breakers = Dict Breaker

abbrev pub new_breaker : Breaker
new_breaker = record {
  state = closed;
  recent_failures = [];
  open_count = 0;
  open_until = 0;
  probe_in_flight = false;
  last_failure = 0;
}

-- transitionExpired
unfoldable pub transition_expired : ℕ → Breaker → Breaker
transition_expired now e =
    if is_open e.state && not (ltb now e.open_until)
    then record e { state = half_open; probe_in_flight = false }
    else e

-- The loop of pruneFailures: the failures from the first that is inside the window.
unfoldable pub recent : ℕ → List ℕ → List ℕ
recent now [] = []
recent now (f ∷ fs) =
    let rest = recent now fs in if ltb failure_window (now - f) then rest else f ∷ fs

unfoldable pub prune_failures : ℕ → Breaker → Breaker
prune_failures now e =
    let fs = recent now e.recent_failures in
    record e {
      recent_failures = fs;
      open_count =
          if is_closed e.state && ltb (length fs) failure_threshold then 0 else e.open_count;
    }

-- The loop of `open`, which doubles the delay up to its maximum.
unfoldable pub backoff : ℕ → ℕ → ℕ
backoff zero delay = delay
backoff (suc rounds) delay =
    let longer = backoff rounds (min (delay * 2) max_backoff) in
    if ltb delay max_backoff then longer else delay

abbrev pub jittered : Option (ℕ → ℕ) → ℕ → ℕ
jittered none delay = delay
jittered (some jitter) delay = jitter delay

-- `open`. The random `jitter` is an argument, and so is its absence.
unfoldable pub open_breaker : Option (ℕ → ℕ) → ℕ → Breaker → Breaker
open_breaker jitter now e =
    let count = max e.open_count 1 in
    record e {
      state = open_;
      probe_in_flight = false;
      open_until = now + min (jittered jitter (backoff (count - 1) base_backoff)) max_backoff;
      open_count = count + 1;
    }

-- entryForUpdate, for a key without an entry: pruned entries that are closed and empty are dropped.
unfoldable pub sweep : ℕ → Breakers → Breakers
sweep now [] = []
sweep now ((k, e) ∷ d) =
    let e' = prune_failures now e in
    let rest = sweep now d in
    if is_closed e'.state && (length e'.recent_failures == 0) then rest else (k, e') ∷ rest

-- The entry to update and the entries; none where the map is full.
entry_for : String → ℕ → Breakers → Option Breaker → Breakers × Option Breaker
entry_for key now d (some e) = (d, some e)
entry_for key now d none =
    let d' = sweep now d in
    if leb max_entries (length d') then (d', none) else (put key new_breaker d', some new_breaker)

unfoldable pub entry_for_update : String → ℕ → Breakers → Breakers × Option Breaker
unfolding entry_for
entry_for_update key now d = entry_for key now d (get key d)

-- recordFailure, on the entry.
unfoldable pub fail : Option (ℕ → ℕ) → ℕ → Breaker → Breaker
unfolding prune_failures
fail jitter now e =
    let e' = prune_failures now e in
    let e'' = record e' { last_failure = now; recent_failures = e'.recent_failures ++ now ∷ [] } in
    if is_half_open e''.state
    then open_breaker jitter now e''
    else if not (is_open e''.state) && leb failure_threshold (length e''.recent_failures)
    then open_breaker jitter now (record e'' { open_count = 1 })
    else e''

update_entry : String → (Breaker → Breaker) → Breakers × Option Breaker → Breakers
update_entry key f (d, none) = d
update_entry key f (d, some e) = put key (f e) d

unfoldable pub record_failure : Option (ℕ → ℕ) → String → ℕ → Breakers → Breakers
unfolding update_entry
record_failure jitter key now d = update_entry key (fail jitter now) (entry_for_update key now d)

unfoldable pub record_success : String → Breakers → Breakers
record_success key d = delete key d

healthy_entry : String → Breakers → Option Breaker → Breakers
healthy_entry key d none = d
healthy_entry key d (some e) = if is_half_open e.state then delete key d else d

unfoldable pub record_healthy_response : String → Breakers → Breakers
unfolding healthy_entry
record_healthy_response key d = healthy_entry key d (get key d)

eligible_entry : String → ℕ → Breakers → Option Breaker → Breakers × Bool
eligible_entry key now d none = (d, true)
eligible_entry key now d (some e) =
    let e' = transition_expired now e in
    (
      put key e' d,
      not (is_open e'.state) && (not (is_half_open e'.state) || not e'.probe_in_flight),
    )

unfoldable pub eligible : String → ℕ → Breakers → Breakers × Bool
unfolding eligible_entry
eligible key now d = eligible_entry key now d (get key d)

acquire_entry : String → ℕ → Breakers → Option Breaker → Breakers × Bool
acquire_entry key now d none = (d, true)
acquire_entry key now d (some e) =
    let e' = transition_expired now e in
    if not (is_half_open e'.state)
    then (put key e' d, not (is_open e'.state))
    else if e'.probe_in_flight
    then (put key e' d, false)
    else (put key (record e' { probe_in_flight = true }) d, true)

unfoldable pub acquire : String → ℕ → Breakers → Breakers × Bool
unfolding acquire_entry
acquire key now d = acquire_entry key now d (get key d)

release_entry : String → Breakers → Option Breaker → Breakers
release_entry key d none = d
release_entry key d (some e) =
    if is_half_open e.state then put key (record e { probe_in_flight = false }) d else d

unfoldable pub release_probe : String → Breakers → Breakers
unfolding release_entry
release_probe key d = release_entry key d (get key d)
