-- ===== src/Router/ClientLimits/Capacity.antt =====
-- internal/orchestrator/router_client_limits.go: the number of clients is bounded.
use m_aistr.Prelude.{
  ℕ, suc, ◌≤◌, ◌<◌, ◌==◌, ltb, leb, String, ◌≡◌, refl, ◌⊎◌, inl, inr, eq_iff, arith, if_elim, Bool,
  true, false, not, ◌&&◌, Option, none, some, [], ◌∷◌, length, if◌then◌else◌,
}
use native.Mathlib.Nat.{le_trans}
use m_aistr.Prelude.Dict.{get, put, has, delete, length-put, length-delete}
use m_aistr.Router.ClientLimits.{
  Client, Clients, Limits, LimitResult, prune, evict_oldest_idle, without, oldest_idle, older,
  new_client, touch, admit, admit_new, admit_entry, acquire, client_max_keys,
}

length-prune : (now : ℕ) (d : Clients) → length (prune now d) ≤ length d
unfolding prune
length-prune now [] = omega arith
length-prune now ((k, c) ∷ d) = ground (arith, length-prune now d)

length-put_present :
    (key : String) (v : Client) (d : Clients) {c : Client}
    → get key d ≡ some c
    → length (put key v d) ≡ length d
unfolding get put
length-put_present key v [] h = absurd (cc)
length-put_present key v ((j, w) ∷ d) {c = c} h = ground (arith, length-put_present key v d {c = c})

length-delete_present :
    (key : String) (d : Clients) → has key d ≡ true → length (delete key d) < length d
unfolding get delete
length-delete_present key [] h = absurd (cc)
length-delete_present key ((j, w) ∷ d) h =
    ground (arith, length-delete key d, length-delete_present key d)

older-cases :
    (j : String) (c : Client) (best : Option (String × ℕ)) (k : String) (seen : ℕ)
    → older j c best ≡ some (k, seen)
    → (best ≡ some (k, seen)) ⊎ (j ≡ k)
unfolding older
older-cases j c none k seen h = inr (cc)
older-cases j c (some b) k seen h =
    if_elim {A = Option (String × ℕ)}
      (λ o. o ≡ some (k, seen) → (some b ≡ some (k, seen)) ⊎ (j ≡ k)) (ltb c.last_seen b.1)
      (λ _ e. inr (cc)) (λ _ e. inl e) h

better-cases :
    (b : Bool) (j : String) (c : Client) (best : Option (String × ℕ)) (k : String) (seen : ℕ)
    → (if b then best else older j c best) ≡ some (k, seen)
    → (best ≡ some (k, seen)) ⊎ (j ≡ k)
better-cases true j c best k seen h = inl h
better-cases false j c best k seen h = older-cases j c best k seen h

has-head : (j k : String) (c : Client) (d : Clients) → j ≡ k → has k ((j, c) ∷ d) ≡ true
unfolding get
has-head j k c d h = ground (arith, eq_iff j k)

has-tail : (j k : String) (c : Client) (d : Clients) → has k d ≡ true → has k ((j, c) ∷ d) ≡ true
unfolding get
has-tail j k c d h = ground arith

-- The key that is chosen is one of the clients', or the one to beat.
oldest-has :
    (best : Option (String × ℕ)) (d : Clients) (k : String) (seen : ℕ)
    → oldest_idle best d ≡ some (k, seen)
    → (best ≡ some (k, seen)) ⊎ (has k d ≡ true)
unfolding oldest_idle
oldest-has best [] k seen h = inl h
oldest-has best ((j, c) ∷ d) k seen h =
    step (oldest-has (if not (c.active == 0) then best else older j c best) d k seen h)
  where
    here : (best ≡ some (k, seen)) ⊎ (j ≡ k) → (best ≡ some (k, seen)) ⊎ (has k ((j, c) ∷ d) ≡ true)
    here (inl e) = inl e
    here (inr e) = inr (has-head j k c d e)

    step :
        ((if not (c.active == 0) then best else older j c best) ≡ some (k, seen)) ⊎ (has k d ≡ true)
        → (best ≡ some (k, seen)) ⊎ (has k ((j, c) ∷ d) ≡ true)
    step (inl e) = here (better-cases (not (c.active == 0)) j c best k seen e)
    step (inr p) = inr (has-tail j k c d p)

-- However the request is answered, one entry is written.
admit-put :
    (l : Limits) (key : String) (now : ℕ) (d : Clients) (c : Client)
    → (v : Client) × ((admit l key now d c).0 ≡ put key v d)
unfolding admit
admit-put l key now d c =
    let c' = touch now c in
    let Writes : Clients × LimitResult → Type 0 = λ r. (v : Client) × (r.0 ≡ put key v d) in
    if_elim Writes (ltb 0 l.max_concurrent && leb l.max_concurrent c'.active) (λ _. (c', refl))
      (λ _.
        if_elim Writes (ltb 0 l.requests_per_minute && leb l.requests_per_minute c'.requests)
          (λ _. (c', refl))
          (λ _. (record c' { requests = suc c'.requests; active = suc c'.active }, refl)))

length-admit :
    (l : Limits) (key : String) (now : ℕ) (d : Clients) (c : Client)
    → length d < client_max_keys
    → length (admit l key now d c).0 ≤ client_max_keys
length-admit l key now d c h =
    let (v, e) = admit-put l key now d c in rw e (omega (arith, h, length-put key v d))

length-admit_present :
    (l : Limits) (key : String) (now : ℕ) (d : Clients) (c : Client)
    → get key d ≡ some c
    → length (admit l key now d c).0 ≡ length d
length-admit_present l key now d c h =
    let (v, e) = admit-put l key now d c in rw e (length-put_present key v d {c = c} h)

length-entry :
    (l : Limits) (key : String) (now : ℕ) (d : Clients) (o : Option Client)
    → get key d ≡ o
    → length d ≤ client_max_keys
    → length (admit_entry l key now d o).0 ≤ client_max_keys
unfolding admit_entry admit_new without evict_oldest_idle
length-entry l key now d (some c) q h = omega (arith, h, length-admit_present l key now d c q)
length-entry l key now d none q h =
    if_elim {A = Clients × LimitResult} (λ r. length r.0 ≤ client_max_keys)
      (leb client_max_keys (length d)) (λ _. evicted (oldest_idle none d) refl)
      (λ b. length-admit l key now d (new_client now) (ground arith))
  where
    evicted :
        (best : Option (String × ℕ))
        → oldest_idle none d ≡ best
        → length (admit_new l key now (without d best) d).0 ≤ client_max_keys
    evicted none e = h
    evicted (some b) e =
        removed b.0 (elim (oldest-has none d b.0 b.1 e) [ inl x ↦ absurd (cc) | inr p ↦ p ])
      where
        removed :
            (k : String)
            → has k d ≡ true
            → length (admit l key now (delete k d) (new_client now)).0 ≤ client_max_keys
        removed k p =
            length-admit l key now (delete k d) (new_client now)
              (omega (arith, h, length-delete_present k d p))

-- No request makes the table of clients larger than 10000 entries.
pub length-acquire :
    (l : Limits) (key : String) (now : ℕ) (d : Clients)
    → length d ≤ client_max_keys
    → length (acquire l key now d).0 ≤ client_max_keys
unfolding acquire
length-acquire l key now d h =
    if_elim {A = Clients × LimitResult} (λ r. length r.0 ≤ client_max_keys)
      ((l.requests_per_minute == 0) && (l.max_concurrent == 0)) (λ _. h)
      (λ _.
        length-entry l key now (prune now d) (get key (prune now d)) refl
          (le_trans (length-prune now d) h))
