-- ===== src/Router/ClientLimits.antt =====
-- internal/orchestrator/router_client_limits.go: the requests that one client may make and have
-- open. The operations take the key that the code makes of a request's credential or address,
-- which is never empty.
pub mod Bounds
pub mod Capacity
use m_aistr.Prelude.{
  ℕ, zero, suc, ◌+◌, ◌-◌, ◌*◌, ◌/◌, ◌==◌, ltb, leb, String, Bool, true, false, not, ◌&&◌, ◌||◌,
  Option, none, some, List, [], ◌∷◌, length, max, if◌then◌else◌,
}
use m_aistr.Prelude.Dict.{Dict, get, put, delete}
use m_aistr.Router.Breaker.{second}

abbrev pub client_window : ℕ
client_window = 60 * second

abbrev pub client_idle_ttl : ℕ
client_idle_ttl = 120 * second

abbrev pub client_max_keys : ℕ
client_max_keys = 10000

pub record Client : Type 0 where
  pub window_start : ℕ
  pub requests : ℕ
  pub active : ℕ
  pub last_seen : ℕ

abbrev pub Clients : Type 0
Clients = Dict Client

pub record Limits : Type 0 where
  pub requests_per_minute : ℕ
  pub max_concurrent : ℕ

-- `granted` carries the right to one release; `open_` is the answer of a limiter without limits,
-- whose release does nothing.
pub data LimitResult : Type 0 where
  open_ granted capacity concurrency : LimitResult
  rate : ℕ → LimitResult

-- prune
unfoldable pub prune : ℕ → Clients → Clients
prune now [] = []
prune now ((k, c) ∷ d) =
    let rest = prune now d in
    if (c.active == 0) && leb client_idle_ttl (now - c.last_seen) then rest else (k, c) ∷ rest

-- The loop of evictOldestIdle. Of clients with one time the code may take another one, as Go
-- leaves the order of a map open.
older : String → Client → Option (String × ℕ) → Option (String × ℕ)
older k c none = some (k, c.last_seen)
older k c (some (j, seen)) = if ltb c.last_seen seen then some (k, c.last_seen) else some (j, seen)

oldest_idle : Option (String × ℕ) → Clients → Option (String × ℕ)
unfolding older
oldest_idle best [] = best
oldest_idle best ((k, c) ∷ d) = oldest_idle (if not (c.active == 0) then best else older k c best) d

without : Clients → Option (String × ℕ) → Option Clients
without d none = none
without d (some (k, seen)) = some (delete k d)

-- none where every client has a request open.
unfoldable pub evict_oldest_idle : Clients → Option Clients
unfolding without oldest_idle
evict_oldest_idle d = without d (oldest_idle none d)

abbrev pub new_client : ℕ → Client
new_client now = record { window_start = now; requests = 0; active = 0; last_seen = 0 }

-- The entry after `client.lastSeen = now`.
unfoldable pub touch : ℕ → Client → Client
touch now c =
    let c' =
      if ltb now c.window_start || leb client_window (now - c.window_start)
      then record c { window_start = now; requests = 0 }
      else c in
    record c' { last_seen = now }

-- `int((windowStart + window - now + second - 1) / second)`, and 1 at least.
abbrev pub retry_after : ℕ → Client → ℕ
retry_after now c = max 1 ((c.window_start + client_window + second - 1 - now) / second)

module _ (l : Limits) where
  admit : String → ℕ → Clients → Client → Clients × LimitResult
  unfolding touch
  admit key now d client =
      let c = touch now client in
      if ltb 0 l.max_concurrent && leb l.max_concurrent c.active
      then (put key c d, concurrency)
      else if ltb 0 l.requests_per_minute && leb l.requests_per_minute c.requests
      then (put key c d, rate (retry_after now c))
      else (put key (record c { requests = suc c.requests; active = suc c.active }) d, granted)

  admit_new : String → ℕ → Option Clients → Clients → Clients × LimitResult
  unfolding admit
  admit_new key now none d = (d, capacity)
  admit_new key now (some d') d = admit key now d' (new_client now)

  admit_entry : String → ℕ → Clients → Option Client → Clients × LimitResult
  unfolding admit admit_new
  admit_entry key now d (some c) = admit key now d c
  admit_entry key now d none =
      if leb client_max_keys (length d)
      then admit_new key now (evict_oldest_idle d) d
      else admit key now d (new_client now)

  unfoldable pub acquire : String → ℕ → Clients → Clients × LimitResult
  unfolding admit_entry
  acquire key now d =
      let pruned = prune now d in
      if (l.requests_per_minute == 0) && (l.max_concurrent == 0)
      then (d, open_)
      else admit_entry key now pruned (get key pruned)

release_entry : String → ℕ → Clients → Option Client → Clients
release_entry key now d none = d
release_entry key now d (some c) =
    if ltb 0 c.active then put key (record c { active = c.active - 1; last_seen = now }) d else d

-- The first call of the function that a granted request gets; `once` makes later ones do nothing.
unfoldable pub release : String → ℕ → Clients → Clients
unfolding release_entry
release key now d = release_entry key now d (get key d)
