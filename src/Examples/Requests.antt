-- ===== src/Examples/Requests.antt =====
-- internal/orchestrator: a breaker, a gate and a table of clients on concrete data.
use m_aistr.Prelude.{ℕ, ◌/◌, ◌*◌, ◌≤◌, ◌≡◌, refl, true, false, none, [], ◌∷◌, length, arith}
use m_aistr.Prelude.Dict.{get, Entries}
use m_aistr.Router.Breaker.{Breaker, Breakers, open_, acquire, transition_expired, max_entries}
use m_aistr.Router.Breaker.Sound.{IsSound}
use m_aistr.Router.Breaker.Calls.{failure, take, answer, answer-IsSound, length-answer}
use m_aistr.Router.Breaker.Single.{answers, acquire-answers}
use m_aistr.Router.ClientLimits
use m_aistr.Router.ClientLimits.{Client, Clients, Limits, client_max_keys}
use m_aistr.Router.ClientLimits.Capacity.{length-acquire}

-- An open breaker whose time has come: it was opened once.
abbrev expired : Breaker
expired = record {
  state = open_;
  recent_failures = 1 ∷ 2 ∷ 3 ∷ [];
  open_count = 2;
  open_until = 5;
  probe_in_flight = false;
  last_failure = 3;
}

abbrev breakers : Breakers
breakers = ("node/model", expired) ∷ []

expired-IsSound : IsSound expired
expired-IsSound = record {
  closed_few = λ h. absurd (cc);
  probe_half = λ h. absurd (cc);
  opened = λ h. omega arith;
}

answer-IsSound_example : Entries IsSound (answer none (failure "node/model") 9 breakers)
answer-IsSound_example = answer-IsSound none (failure "node/model") 9 breakers (expired-IsSound, tt)

length-answer_example : length (answer none (failure "node/other") 9 breakers) ≤ max_entries
length-answer_example = length-answer none (failure "node/other") 9 breakers (omega arith)

expired_lets_through : (acquire "node/model" 9 breakers).1 ≡ true
unfolding acquire get transition_expired
expired_lets_through = refl

acquire-answers_example :
    (acquire "node/model" 30 (
      answers none
        ((take "node/model", 10) ∷ (failure "node/other", 20) ∷ [])
        (acquire "node/model" 9 breakers).0)).1
    ≡ false
acquire-answers_example =
    acquire-answers none "node/model" 9 30 breakers expired
      ((take "node/model", 10) ∷ (failure "node/other", 20) ∷ []) (unfold get in refl) refl
      expired_lets_through (tt, (refl, tt))

-- A fifth longer, which 2 seconds become for a breaker that has been opened twice.
abbrev longer : ℕ → ℕ
longer delay = delay * 6 / 5

-- A client at its limit of one request at a time.
abbrev limits : Limits
limits = record { requests_per_minute = 10; max_concurrent = 1 }

abbrev client : Client
client = record { window_start = 0; requests = 1; active = 1; last_seen = 3 }

abbrev clients : Clients
clients = ("key:a", client) ∷ []

length-acquire_example : length (ClientLimits.acquire limits "key:b" 4 clients).0 ≤ client_max_keys
length-acquire_example = length-acquire limits "key:b" 4 clients (omega arith)
