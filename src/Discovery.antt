-- ===== src/Discovery.antt =====
-- internal/discovery/discovery.go: the announcements that instances on the network hear of each
-- other, and the election of an orchestrator among them. A score, a float64 that is no NaN, stands
-- as its place among those, and a time is a number of nanoseconds.
pub mod Ranks
pub mod Election
pub mod Seen
pub mod Replay
use m_aistr.Prelude.{
  ℕ, ◌+◌, ◌==◌, ltb, leb, String, str_eq, Bool, true, false, not, ◌&&◌, ◌||◌, Option, none, some,
  List, [], ◌∷◌, is_empty, any, select, length, if◌then◌else◌,
}
use m_aistr.Prelude.Text.{str_lt}
use m_aistr.Prelude.Dict.{Dict, get, get_or, has, put, delete}

pub record Announcement : Type 0 where
  pub role : String
  pub id : String
  pub http_addr : String
  pub peer_addr : String
  pub score : ℕ
  pub members : ℕ
  pub elected : Bool
  pub orchestrator_id : String
  pub issued_at : ℕ
  pub hmac : String

pub record Peer : Type 0 where
  pub announcement : Announcement
  pub last_seen : ℕ

unfoldable pub outranks : Announcement → Announcement → Bool
outranks candidate incumbent =
    ltb incumbent.score candidate.score
    || ((candidate.score == incumbent.score) && str_lt candidate.id incumbent.id)

abbrev pub is_orchestrator : Peer → Bool
is_orchestrator p = str_eq p.announcement.role "orchestrator"

abbrev pub may_lead : Peer → Bool
may_lead p = is_orchestrator p || str_eq p.announcement.role "candidate"

-- BestActiveOrchestrator; the best so far is none while none is found.
better_active : Option Peer → Peer → Option Peer
better_active none p = some p
better_active (some best) p =
    if ltb best.announcement.score p.announcement.score
      || ((p.announcement.score == best.announcement.score)
          && str_lt p.announcement.id best.announcement.id)
    then some p
    else some best

best_active_from : Option Peer → List Peer → Option Peer
best_active_from best [] = best
best_active_from best (p ∷ ps) =
    best_active_from (if is_orchestrator p then better_active best p else best) ps

unfoldable pub best_active_orchestrator : List Peer → Option Peer
unfolding better_active best_active_from
best_active_orchestrator peers = best_active_from none peers

-- BestOrchestratorCandidate, whose first best is the instance itself.
unfoldable pub best_orchestrator_candidate : Announcement → List Peer → Announcement
best_orchestrator_candidate best [] = best
best_orchestrator_candidate best (p ∷ ps) =
    best_orchestrator_candidate
      (if may_lead p && outranks p.announcement best then p.announcement else best) ps

unfoldable pub is_best_orchestrator_candidate : Announcement → List Peer → Bool
is_best_orchestrator_candidate self peers =
    str_eq (best_orchestrator_candidate self peers).id self.id

unfoldable pub is_elected_orchestrator : Announcement → List Peer → Bool
is_elected_orchestrator self peers =
    let active = select is_orchestrator peers in
    if ltb 0 (length active)
    then is_best_orchestrator_candidate self active
    else if str_eq self.role "orchestrator"
    then true
    else is_best_orchestrator_candidate self peers

-- The state of a Listener that announcements change. `keyed` says whether it has a key.
pub record Listener : Type 0 where
  pub self_ids : List String
  pub keyed : Bool
  pub last_seen : Dict ℕ
  pub peers : Dict Peer
  pub excluded : List String

-- 15 and 30 seconds.
abbrev pub peer_ttl : ℕ
peer_ttl = 15000000000

abbrev pub max_clock_skew : ℕ
max_clock_skew = 30000000000

-- The entries that are not before the cutoff.
pub prune : ℕ → Dict ℕ → Dict ℕ
prune now [] = []
prune now ((id, timestamp) ∷ seen) =
    let rest = prune now seen in
    if ltb (timestamp + max_clock_skew) now then rest else (id, timestamp) ∷ rest

record_peer : Announcement → ℕ → Listener → Listener
record_peer ann now l =
    if any (λ x. str_eq x ann.id) l.excluded
    then l
    else record l { peers = put ann.id (record { announcement = ann; last_seen = now }) l.peers }

-- `authentic` says whether the code is the HMAC-SHA256 of the announcement without it, under the
-- listener's key.
module _ (authentic : Announcement → Bool) where
  unfoldable pub verify_announcement : Announcement → ℕ → Bool
  verify_announcement ann now =
      not (ann.issued_at == 0)
      && not (ltb (ann.issued_at + max_clock_skew) now)
      && not (ltb (now + max_clock_skew) ann.issued_at)
      && authentic ann

  unfoldable pub accept_announcement : Announcement → ℕ → Listener → Listener × Bool
  unfolding record_peer prune
  accept_announcement ann now l =
      if l.keyed
      then if not (verify_announcement ann now)
        then (l, false)
        else if has ann.id l.last_seen && leb ann.issued_at (get_or 0 ann.id l.last_seen)
        then (l, false)
        else (
          record_peer ann now
              (record l { last_seen = prune now (put ann.id ann.issued_at l.last_seen) }),
          true,
        )
      else (record_peer ann now l, true)

  -- What serve does with an announcement that it has read.
  unfoldable pub hear : Announcement → ℕ → Listener → Listener × Bool
  hear ann now l =
      if is_empty ann.id || any (λ x. str_eq x ann.id) l.self_ids
      then (l, false)
      else accept_announcement ann now l

live_peers : ℕ → List String → Dict Peer → Dict Peer
live_peers now excluded [] = []
live_peers now excluded ((id, p) ∷ peers) =
    let rest = live_peers now excluded peers in
    if any (λ x. str_eq x id) excluded
    then rest
    else if ltb now (p.last_seen + peer_ttl)
    then (id, p) ∷ rest
    else rest

values : Dict Peer → List Peer
values [] = []
values ((id, p) ∷ peers) = p ∷ values peers

-- Snapshot, which also forgets the peers that it does not return.
unfoldable pub snapshot : ℕ → Listener → Listener × List Peer
unfolding live_peers values
snapshot now l =
    let peers = live_peers now l.excluded l.peers in (record l { peers = peers }, values peers)

unfoldable pub exclude_peer : String → Listener → Listener
exclude_peer id l =
    if is_empty id then l else record l { excluded = id ∷ l.excluded; peers = delete id l.peers }

unfoldable pub include_peer : String → Listener → Listener
include_peer id l =
    if is_empty id then l else record l { excluded = select (λ x. not (str_eq x id)) l.excluded }
