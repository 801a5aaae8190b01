-- ===== src/Router/Breaker/Single.antt =====
-- internal/orchestrator/router_breaker.go: one probe at a time, until its outcome is reported.
use m_aistr.Prelude.{
  ℕ, String, str_eq, ◌≡◌, refl, sym, ◌∙◌, subst, arith, Option, none, some, Bool, true, false, not,
  List, [], ◌∷◌, length, leb, Bool-cases, All, inl, inr, if_elim, eq_iff,
}
use m_aistr.Prelude.Dict.{get, put, delete, get-put, get-delete}
use m_aistr.Router.Breaker.{
  Breaker, Breakers, new_breaker, is_closed, is_half_open, transition_expired, prune_failures, fail,
  sweep, entry_for, entry_for_update, update_entry, record_failure, record_success,
  record_healthy_response, healthy_entry, release_entry, eligible, eligible_entry, acquire,
  acquire_entry, release_probe, max_entries,
}
use m_aistr.Router.Breaker.Probe.{Probing, acquire-Probing, Probing-acquire}
use m_aistr.Router.Breaker.Calls.{Call, failure, success, healthy, ask, take, release, answer}

-- The call reports nothing on the pair of the key.
abbrev pub ReportsOther : String → Call → Type 0
ReportsOther key (failure k) = str_eq k key ≡ false
ReportsOther key (success k) = str_eq k key ≡ false
ReportsOther key (healthy k) = str_eq k key ≡ false
ReportsOther key (release k) = str_eq k key ≡ false
ReportsOther key (ask k) = Unit
ReportsOther key (take k) = Unit

-- The look-up of another key decides nothing.
get-Probing :
    (key : String) (d d' : Breakers) → get key d' ≡ get key d → Probing key d → Probing key d'
get-Probing key d d' same (e, q, half, probe) = (e, same ∙ q, half, probe)

sweep-Probing : (key : String) (now : ℕ) (d : Breakers) → Probing key d → Probing key (sweep now d)
unfolding sweep prune_failures get
sweep-Probing key now d (e, q, half, probe) =
    (prune_failures now e, kept d q, (pruned e half probe).0, (pruned e half probe).1)
  where
    pruned :
        (e : Breaker)
        → is_half_open e.state ≡ true
        → e.probe_in_flight ≡ true
        → (is_half_open (prune_failures now e).state ≡ true)
          × ((prune_failures now e).probe_in_flight ≡ true)
    pruned e half probe = (half, probe)

    kept : (d : Breakers) → get key d ≡ some e → get key (sweep now d) ≡ some (prune_failures now e)
    kept [] h = absurd (cc)
    kept ((k, x) ∷ d) h = ground (arith, h, half, kept d)

get-entry_for :
    (key k : String) (now : ℕ) (d : Breakers) (f : Breaker → Breaker) (o : Option Breaker)
    → str_eq k key ≡ false
    → Probing key d
    → Probing key (update_entry k f (entry_for k now d o))
unfolding update_entry entry_for
get-entry_for key k now d f (some e) n p =
    get-Probing key d (put k (f e) d) (ground (arith, n, get-put k key (f e) d)) p
get-entry_for key k now d f none n p =
    let swept = sweep now d in
    let p' = sweep-Probing key now d p in
    if_elim {A = Breakers × Option Breaker} (λ r. Probing key (update_entry k f r))
      (leb max_entries (length swept)) (λ _. p')
      (λ _.
        get-Probing key swept (put k (f new_breaker) (put k new_breaker swept))
          (ground (
            arith,
            n,
            get-put k key (f new_breaker) (put k new_breaker swept),
            get-put k key new_breaker swept,
          ))
          p')

get-acquire :
    (key k : String) (now : ℕ) (d : Breakers) (o : Option Breaker)
    → str_eq k key ≡ false
    → get key (acquire_entry k now d o).0 ≡ get key d
unfolding acquire_entry
get-acquire key k now d none n = refl
get-acquire key k now d (some e) n =
    let e' = transition_expired now e in
    if_elim {A = Breakers × Bool} (λ r. get key r.0 ≡ get key d) (not (is_half_open e'.state))
      (λ _. ground (arith, n, get-put k key e' d))
      (λ _.
        if_elim {A = Breakers × Bool} (λ r. get key r.0 ≡ get key d) e'.probe_in_flight
          (λ _. ground (arith, n, get-put k key e' d))
          (λ _. ground (arith, n, get-put k key (record e' { probe_in_flight = true }) d)))

get-eligible :
    (key k : String) (now : ℕ) (d : Breakers) (o : Option Breaker)
    → str_eq k key ≡ false
    → get key (eligible_entry k now d o).0 ≡ get key d
unfolding eligible_entry
get-eligible key k now d none n = refl
get-eligible key k now d (some e) n = ground (arith, n, get-put k key (transition_expired now e) d)

get-healthy :
    (key k : String) (d : Breakers) (o : Option Breaker)
    → str_eq k key ≡ false
    → get key (healthy_entry k d o) ≡ get key d
unfolding healthy_entry
get-healthy key k d none n = refl
get-healthy key k d (some e) n = ground (arith, n, get-delete k key d)

get-release :
    (key k : String) (d : Breakers) (o : Option Breaker)
    → str_eq k key ≡ false
    → get key (release_entry k d o) ≡ get key d
unfolding release_entry
get-release key k d none n = refl
get-release key k d (some e) n =
    ground (arith, n, get-put k key (record e { probe_in_flight = false }) d)

eligible-Probing :
    (key : String) (now : ℕ) (d : Breakers) → Probing key d → Probing key (eligible key now d).0
unfolding eligible eligible_entry transition_expired
eligible-Probing key now d (e, q, half, probe) =
    (e, ground (arith, q, half, get-put key key e d, eq_iff key key), half, probe)

answer-Probing :
    (jitter : Option (ℕ → ℕ)) (key : String) (call : Call) (now : ℕ) (d : Breakers)
    → ReportsOther key call
    → Probing key d
    → Probing key (answer jitter call now d)
unfolding answer record_failure entry_for_update record_success record_healthy_response
    release_probe
answer-Probing jitter key (failure k) now d n p =
    get-entry_for key k now d (fail jitter now) (get k d) n p
answer-Probing jitter key (success k) now d n p =
    get-Probing key d (delete k d) (ground (arith, n, get-delete k key d)) p
answer-Probing jitter key (healthy k) now d n p =
    get-Probing key d (healthy_entry k d (get k d)) (get-healthy key k d (get k d) n) p
answer-Probing jitter key (release k) now d n p =
    get-Probing key d (release_entry k d (get k d)) (get-release key k d (get k d) n) p
answer-Probing jitter key (ask k) now d n p = elim (Bool-cases (str_eq k key)) [
  | inl same ↦
      subst (λ z. Probing key (eligible z now d).0) (sym ((eq_iff k key).0 same))
        (eligible-Probing key now d p)
  | inr other ↦
      get-Probing key d (eligible k now d).0
        (unfold eligible in get-eligible key k now d (get k d) other) p
]
answer-Probing jitter key (take k) now d n p = elim (Bool-cases (str_eq k key)) [
  | inl same ↦
      subst (λ z. Probing key (acquire z now d).0) (sym ((eq_iff k key).0 same))
        (Probing-acquire key now d p).1
  | inr other ↦
      get-Probing key d (acquire k now d).0
        (unfold acquire in get-acquire key k now d (get k d) other) p
]

-- Calls, each at a time of its own.
abbrev pub answers : Option (ℕ → ℕ) → List (Call × ℕ) → Breakers → Breakers
answers jitter [] d = d
answers jitter ((call, now) ∷ calls) d = answers jitter calls (answer jitter call now d)

answers-Probing :
    (jitter : Option (ℕ → ℕ)) (key : String) (calls : List (Call × ℕ)) (d : Breakers)
    → All (λ c. ReportsOther key c.0) calls
    → Probing key d
    → Probing key (answers jitter calls d)
answers-Probing jitter key [] d h p = p
answers-Probing jitter key ((call, now) ∷ calls) d (n, h) p =
    answers-Probing jitter key calls (answer jitter call now d) h
      (answer-Probing jitter key call now d n p)

-- Of a breaker that is not closed, `acquire` lets one probe through at a time: once it has let one
-- through, it refuses every call for the same pair, whatever calls come between and at whatever
-- times, as long as none of them reports a failure, a success, a healthy response or a release for
-- the pair.
pub acquire-answers :
    (jitter : Option (ℕ → ℕ)) (key : String) (now later : ℕ) (d : Breakers) (e : Breaker)
    (calls : List (Call × ℕ))
    → get key d ≡ some e
    → is_closed e.state ≡ false
    → (acquire key now d).1 ≡ true
    → All (λ c. ReportsOther key c.0) calls
    → (acquire key later (answers jitter calls (acquire key now d).0)).1 ≡ false
acquire-answers jitter key now later d e calls q c h others =
    (Probing-acquire key later (answers jitter calls (acquire key now d).0) (
      answers-Probing jitter key calls (acquire key now d).0 others
        (acquire-Probing key now d e q c h))).0
