-- ===== src/Examples/Elections.antt =====
-- internal/discovery/discovery.go: two orchestrators, and a listener that hears an announcement
-- again.
use m_aistr.Prelude.{◌≡◌, refl, inl, arith, Bool, true, false, [], ◌∷◌}
use m_aistr.Prelude.Dict.{get}
use m_aistr.Discovery.{
  Announcement, Peer, Listener, is_elected_orchestrator, hear, accept_announcement,
  verify_announcement, is_best_orchestrator_candidate, best_orchestrator_candidate, outranks,
}
use m_aistr.Discovery.Election.{elected_at_most_one}
use m_aistr.Discovery.Replay.{heard, looked, excluded, run, replayed_not_taken}

abbrev strong : Announcement
strong = record {
  role = "orchestrator";
  id = "a";
  http_addr = "";
  peer_addr = "";
  score = 7;
  members = 1;
  elected = false;
  orchestrator_id = "";
  issued_at = 50;
  hmac = "";
}

abbrev weak : Announcement
weak = record strong { id = "b"; score = 5 }

abbrev peer_of : Announcement → Peer
peer_of a = record { announcement = a; last_seen = 60 }

strong_elected : is_elected_orchestrator strong (peer_of weak ∷ []) ≡ true
unfolding is_elected_orchestrator is_best_orchestrator_candidate best_orchestrator_candidate
    outranks
strong_elected = refl

elected_at_most_one_example : is_elected_orchestrator weak (peer_of strong ∷ []) ≡ false
elected_at_most_one_example =
    elected_at_most_one strong weak (peer_of weak ∷ []) (peer_of strong ∷ []) (refl, refl)
      ((refl, tt), inl refl) ((refl, tt), inl refl) strong_elected

abbrev listener : Listener
listener = record { self_ids = "me" ∷ []; keyed = true; last_seen = []; peers = []; excluded = [] }

abbrev all_authentic : Announcement → Bool
all_authentic a = true

heard_once : (hear all_authentic strong 60 listener).1 ≡ true
unfolding hear accept_announcement verify_announcement get
heard_once = refl

replayed_not_taken_example :
    (hear all_authentic strong 90 (
      run all_authentic
        (heard weak 70 ∷ excluded "b" ∷ looked 80 ∷ [])
        (hear all_authentic strong 60 listener).0)).1
    ≡ false
replayed_not_taken_example =
    replayed_not_taken all_authentic strong strong 60 90
      (heard weak 70 ∷ excluded "b" ∷ looked 80 ∷ []) listener refl (λ x. omega arith) heard_once
      (omega arith, omega arith) refl (omega arith)
