-- ===== src/Discovery/Replay.antt =====
-- internal/discovery/discovery.go: a listener with a key takes no announcement twice.
use m_aistr.Prelude.{
  is_empty, ℕ, ◌≤◌, leb, ◌≡◌, refl, sym, ◌∙◌, subst, arith, String, str_eq, eq_iff, Bool, true,
  false, not, ◌&&◌, ◌||◌, some, List, [], ◌∷◌, any, if◌then◌else◌, if_elim, ◌⊎◌, inl, inr,
}
use m_aistr.Prelude.Dict.{Dict, get, get_or, has, put, get-put}
use m_aistr.Prelude.Occurrences.{AtMostOnce, put-AtMostOnce}
use m_aistr.Discovery.{
  Announcement, Listener, prune, verify_announcement, record_peer, accept_announcement, hear,
  snapshot, exclude_peer, include_peer,
}
use m_aistr.Discovery.Seen.{Guarded, prune-Guarded, prune-AtMostOnce, take-Guarded}

module _ (authentic : Announcement → Bool) where
  -- What an announcement that is taken leaves.
  abbrev Taken : Announcement → ℕ → Listener → Listener × Bool → Type 0
  Taken ann now l r =
      ((has ann.id l.last_seen && leb ann.issued_at (get_or 0 ann.id l.last_seen)) ≡ false)
      × (r.0.last_seen ≡ prune now (put ann.id ann.issued_at l.last_seen))
      × (r.0.keyed ≡ true)

  record_peer-keeps :
      (ann : Announcement) (now : ℕ) (l : Listener)
      → ((record_peer ann now l).last_seen ≡ l.last_seen)
        × ((record_peer ann now l).keyed ≡ l.keyed)
  unfolding record_peer
  record_peer-keeps ann now l =
      if_elim {A = Listener} (λ k. (k.last_seen ≡ l.last_seen) × (k.keyed ≡ l.keyed))
        (any (λ x. str_eq x ann.id) l.excluded) (λ _. (refl, refl)) (λ _. (refl, refl))

  accept_cases :
      (ann : Announcement) (now : ℕ) (l : Listener)
      → l.keyed ≡ true
      → (accept_announcement authentic ann now l ≡ (l, false))
        ⊎ Taken ann now l (accept_announcement authentic ann now l)
  unfolding accept_announcement
  accept_cases ann now l keyed =
      if_elim {A = Listener × Bool} (λ r. (r ≡ (l, false)) ⊎ Taken ann now l r) l.keyed
        (λ _.
          if_elim {A = Listener × Bool} (λ r. (r ≡ (l, false)) ⊎ Taken ann now l r)
            (not (verify_announcement authentic ann now)) (λ _. inl refl)
            (λ _.
              if_elim {A = Listener × Bool} (λ r. (r ≡ (l, false)) ⊎ Taken ann now l r)
                (has ann.id l.last_seen && leb ann.issued_at (get_or 0 ann.id l.last_seen))
                (λ _. inl refl)
                (λ fresh.
                  let kept =
                    record_peer-keeps ann now
                      (record l { last_seen = prune now (put ann.id ann.issued_at l.last_seen) }) in
                  inr (fresh, kept.0, kept.1 ∙ keyed))))
        (λ unkeyed. absurd (cc))

-- What happens to a listener, and when an announcement is heard.
pub data Event : Type 0 where
  heard : Announcement → ℕ → Event
  looked : ℕ → Event
  excluded : String → Event
  included : String → Event

-- The times of the announcements do not go back, from the first to the last.
abbrev pub InOrder : ℕ → List Event → ℕ → Type 0
InOrder first [] last = first ≤ last
InOrder first (heard ann now ∷ events) last = (first ≤ now) × InOrder now events last
InOrder first (looked now ∷ events) last = InOrder first events last
InOrder first (excluded id ∷ events) last = InOrder first events last
InOrder first (included id ∷ events) last = InOrder first events last

module _ (authentic : Announcement → Bool) where
  abbrev step : Event → Listener → Listener
  step (heard ann now) l = (hear authentic ann now l).0
  step (looked now) l = (snapshot now l).0
  step (excluded id) l = exclude_peer id l
  step (included id) l = include_peer id l

  abbrev pub run : List Event → Listener → Listener
  run [] l = l
  run (event ∷ events) l = run events (step event l)

  -- The listener keeps what refuses announcements of the id that were issued by t.
  abbrev Guards : String → ℕ → ℕ → Listener → Type 0
  Guards id t now l = (l.keyed ≡ true) × AtMostOnce l.last_seen × Guarded id t now l.last_seen

  Guarded-later :
      (id : String) (t now later : ℕ) (d : Dict ℕ)
      → now ≤ later
      → Guarded id t now d
      → Guarded id t later d
  Guarded-later id t now later d le (inl known) = inl known
  Guarded-later id t now later d le (inr old) = inr (omega arith)

  Taken-Guards :
      (id : String) (t now later : ℕ) (ann : Announcement) (l : Listener) (r : Listener × Bool)
      → now ≤ later
      → Guards id t now l
      → Taken authentic ann later l r
      → Guards id t later r.0
  Taken-Guards id t now later ann l r le (keyed, once, guard) (fresh, seen, still) = (
    still,
    subst AtMostOnce (sym seen) (
        prune-AtMostOnce later (put ann.id ann.issued_at l.last_seen)
          (put-AtMostOnce ann.id ann.issued_at l.last_seen once)),
    subst (Guarded id t later) (sym seen) (elim guard [
      | inl known ↦ take-Guarded id ann.id t ann.issued_at later l.last_seen once before known
      | inr old ↦ inr (omega arith)
    ]),
  )
    where
      before : id ≡ ann.id → has id l.last_seen ≡ true → get_or 0 id l.last_seen ≤ ann.issued_at
      before e k =
          subst (λ z. has z l.last_seen ≡ true → get_or 0 z l.last_seen ≤ ann.issued_at) (sym e)
            (λ k'. ground (arith, fresh, k')) k

  hear-Guards :
      (id : String) (t now later : ℕ) (ann : Announcement) (l : Listener)
      → now ≤ later
      → Guards id t now l
      → Guards id t later (hear authentic ann later l).0
  unfolding hear
  hear-Guards id t now later ann l le guards =
      let idle : Guards id t later l =
        (guards.0, guards.1, Guarded-later id t now later l.last_seen le guards.2) in
      if_elim {A = Listener × Bool} (λ r. Guards id t later r.0)
        (is_empty ann.id || any (λ x. str_eq x ann.id) l.self_ids) (λ _. idle)
        (λ _. elim (accept_cases authentic ann later l guards.0) [
          | inl refused ↦ subst (λ r. Guards id t later r.0) (sym refused) idle
          | inr taken ↦
              Taken-Guards id t now later ann l (accept_announcement authentic ann later l) le
                guards taken
        ])

  exclude_peer-Guards :
      (id other : String) (t now : ℕ) (l : Listener)
      → Guards id t now l
      → Guards id t now (exclude_peer other l)
  unfolding exclude_peer
  exclude_peer-Guards id other t now l guards =
      if_elim {A = Listener} (Guards id t now) (is_empty other) (λ _. guards) (λ _. guards)

  include_peer-Guards :
      (id other : String) (t now : ℕ) (l : Listener)
      → Guards id t now l
      → Guards id t now (include_peer other l)
  unfolding include_peer
  include_peer-Guards id other t now l guards =
      if_elim {A = Listener} (Guards id t now) (is_empty other) (λ _. guards) (λ _. guards)

  snapshot-Guards :
      (id : String) (t now looked_at : ℕ) (l : Listener)
      → Guards id t now l
      → Guards id t now (snapshot looked_at l).0
  unfolding snapshot
  snapshot-Guards id t now looked_at l guards = guards

  run-Guards :
      (id : String) (t first last : ℕ) (events : List Event) (l : Listener)
      → InOrder first events last
      → Guards id t first l
      → Guards id t last (run events l)
  run-Guards id t first last [] l le (keyed, once, guard) =
      (keyed, once, Guarded-later id t first last l.last_seen le guard)
  run-Guards id t first last (heard ann now ∷ events) l (le, order) guards =
      run-Guards id t now last events (hear authentic ann now l).0 order
        (hear-Guards id t first now ann l le guards)
  run-Guards id t first last (looked now ∷ events) l order guards =
      run-Guards id t first last events (snapshot now l).0 order
        (snapshot-Guards id t first now l guards)
  run-Guards id t first last (excluded other ∷ events) l order guards =
      run-Guards id t first last events (exclude_peer other l) order
        (exclude_peer-Guards id other t first l guards)
  run-Guards id t first last (included other ∷ events) l order guards =
      run-Guards id t first last events (include_peer other l) order
        (include_peer-Guards id other t first l guards)

  -- The first time that the announcement is taken.
  hear-taken :
      (ann : Announcement) (now : ℕ) (l : Listener)
      → l.keyed ≡ true
      → AtMostOnce l.last_seen
      → (hear authentic ann now l).1 ≡ true
      → Guards ann.id ann.issued_at now (hear authentic ann now l).0
  unfolding hear
  hear-taken ann now l keyed once =
      if_elim {A = Listener × Bool} (λ r. r.1 ≡ true → Guards ann.id ann.issued_at now r.0)
        (is_empty ann.id || any (λ x. str_eq x ann.id) l.self_ids) (λ _ h. absurd (cc))
        (λ _ h. elim (accept_cases authentic ann now l keyed) [
          | inl refused ↦ absurd (cc)
          | inr (fresh, seen, still) ↦ (
            still,
            subst AtMostOnce (sym seen) (
                prune-AtMostOnce now (put ann.id ann.issued_at l.last_seen)
                  (put-AtMostOnce ann.id ann.issued_at l.last_seen once)),
            subst (Guarded ann.id ann.issued_at now) (sym seen) (
                prune-Guarded ann.id ann.issued_at now (put ann.id ann.issued_at l.last_seen)
                  (put-AtMostOnce ann.id ann.issued_at l.last_seen once)
                  (found (get-put ann.id ann.id ann.issued_at l.last_seen))),
          )
        ])
    where
      found :
          get ann.id (put ann.id ann.issued_at l.last_seen)
            ≡ (if str_eq ann.id ann.id then some ann.issued_at else get ann.id l.last_seen)
          → (has ann.id (put ann.id ann.issued_at l.last_seen) ≡ true)
            × (ann.issued_at ≤ get_or 0 ann.id (put ann.id ann.issued_at l.last_seen))
      found e = (ground (arith, e, eq_iff ann.id ann.id), ground (arith, e, eq_iff ann.id ann.id))

  Guarded-refuses :
      (again : Announcement) (t now : ℕ) (d : Dict ℕ)
      → again.issued_at ≤ t
      → Guarded again.id t now d
      → verify_announcement authentic again now ≡ true
      → (has again.id d && leb again.issued_at (get_or 0 again.id d)) ≡ true
  unfolding verify_announcement
  Guarded-refuses again t now d le (inl (known, late)) h = ground (arith, known, late)
  Guarded-refuses again t now d le (inr old) h = absurd (ground (arith, h, old))

  Guards-refuses :
      (again : Announcement) (t now : ℕ) (l : Listener)
      → again.issued_at ≤ t
      → Guards again.id t now l
      → (hear authentic again now l).1 ≡ false
  unfolding hear accept_announcement
  Guards-refuses again t now l le (keyed, once, guard) =
      ground (arith, keyed, Guarded-refuses again t now l.last_seen le guard)

  -- A listener with a key that has taken an announcement takes none that names the same instance
  -- and was not issued later, whatever it hears, is asked for, excludes or includes in between,
  -- as long as the clock does not go back.
  pub replayed_not_taken :
      (ann again : Announcement) (now later : ℕ) (events : List Event) (l : Listener)
      → l.keyed ≡ true
      → AtMostOnce l.last_seen
      → (hear authentic ann now l).1 ≡ true
      → InOrder now events later
      → again.id ≡ ann.id
      → again.issued_at ≤ ann.issued_at
      → (hear authentic again later (run events (hear authentic ann now l).0)).1 ≡ false
  replayed_not_taken ann again now later events l keyed once taken order same le =
      let after = run events (hear authentic ann now l).0 in
      Guards-refuses again ann.issued_at later after le (
        subst (λ z. Guards z ann.issued_at later after) (sym same)
          (run-Guards ann.id ann.issued_at now later events (hear authentic ann now l).0 order
            (hear-taken ann now l keyed once taken)))
