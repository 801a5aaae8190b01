-- ===== src/Scheduler/Search/Order.antt =====
-- internal/scheduler/graph.go and decompose.go: a search that finds no cycle has found an order.
use m_aistr.Prelude.{
  ℕ, zero, suc, ◌≤◌, ◌==◌, ◌≡◌, refl, subst, ◌⊎◌, arith, String, str_eq, true, if_elim, inl, List,
  [], ◌∷◌, if◌then◌else◌, eq_iff,
}
use m_aistr.Prelude.Dict.{get, put, get-put}
use m_aistr.Prelude.Occurrences.{occ}
use m_aistr.Scheduler.Search.{
  Colors, color, Visit, visited, cycle, out_of_fuel, visit_all, finish, visit, search,
}

module _ (prerequisites : String → List String) where
  -- A list in which the prerequisites of each id stand behind it.
  abbrev pub IsOrder : List String → Type 0
  IsOrder [] = Unit
  IsOrder (x ∷ xs) = ((d : String) → 1 ≤ occ d (prerequisites x) → 1 ≤ occ d xs) × IsOrder xs

  -- The visited ids are in such a list.
  abbrev pub Good : Colors → Type 0
  Good c = (xs : List String) × ((x : String) → color x c ≡ 2 → 1 ≤ occ x xs) × IsOrder xs

  -- No id changes but to visited.
  abbrev pub Forth : Colors → Colors → Type 0
  Forth c c' = (x : String) → (color x c' ≡ color x c) ⊎ (color x c' ≡ 2)

  Forth_trans : (a b c : Colors) → Forth a b → Forth b c → Forth a c
  Forth_trans a b c f g x = ground (arith, f x, g x)

  -- What a visit does.
  abbrev pub Keeps : (String → Colors → Visit) → Type 0
  Keeps v =
      (id : String) (c c' : Colors)
      → v id c ≡ visited c'
      → Good c
      → Good c' × Forth c c' × (color id c' ≡ 2)

  -- What a loop of visits does.
  abbrev AllDone : List String → Colors → Colors → Type 0
  AllDone ids c c' = Good c' × Forth c c' × ((d : String) → 1 ≤ occ d ids → color d c' ≡ 2)

  all_keeps :
      (v : String → Colors → Visit)
      → Keeps v
      → (ids : List String) (c c' : Colors) → visit_all v ids c ≡ visited c'
      → Good c
      → AllDone ids c c'
  unfolding visit_all
  all_keeps v keep [] c c' h g =
      let same : c ≡ c' = cc in
      subst (λ z. AllDone [] c z) same (g, (λ x. inl refl), λ d k. absurd (omega (arith, k)))
  all_keeps v keep (id ∷ ids) c c' h g =
      after (v id c) refl h (λ b gb k. all_keeps v keep ids b c' k gb)
    where
      after :
          (r : Visit)
          → v id c ≡ r
          → elim r as (λ _. Visit) [
            | visited b ↦ visit_all v ids b
            | cycle at ↦ cycle at
            | out_of_fuel ↦ out_of_fuel
          ]
            ≡ visited c'
          → ((b : Colors) → Good b → visit_all v ids b ≡ visited c' → AllDone ids b c')
          → AllDone (id ∷ ids) c c'
      after (cycle at) e k go = absurd (cc)
      after out_of_fuel e k go = absurd (cc)
      after (visited b) e k go =
          let (gb, fb, db) = keep id c b e g in
          let (gc, fc, dc) = go b gb k in
          (gc, Forth_trans c b c' fb fc, λ d m. ground (arith, m, dc d, fc id, db, eq_iff id d))

  pub color-put :
      (id x : String) (n : ℕ) (c : Colors)
      → color x (put id n c) ≡ (if str_eq id x then n else color x c)
  color-put id x n c = ground (arith, get-put id x n c)

  pub entered : (id : String) (c : Colors) → Good c → Good (put id 1 c)
  entered id c (xs, black, order) =
      (xs, (λ x h. black x (ground (arith, h, color-put id x 1 c))), order)

  -- The end of a visit, from the loop over the prerequisites.
  finished :
      (id : String) (c b : Colors)
      → AllDone (prerequisites id) (put id 1 c) b
      → Good (put id 2 b) × Forth c (put id 2 b) × (color id (put id 2 b) ≡ 2)
  finished id c b ((xs, black, order), forth, done) = (
    (
      id ∷ xs,
      (λ x h. ground (arith, h, black x, color-put id x 2 b, eq_iff id x)),
      ((λ d m. black d (done d m)), order),
    ),
    (λ x. ground (arith, forth x, color-put id x 1 c, color-put id x 2 b)),
    ground (arith, color-put id id 2 b, eq_iff id id),
  )

  pub visit-Good : (fuel : ℕ) → Keeps (visit prerequisites fuel)
  unfolding visit finish
  visit-Good zero id c c' h g = absurd (cc)
  visit-Good (suc fuel) id c c' h g =
      if_elim {A = Visit} (λ r. r ≡ visited c' → Good c' × Forth c c' × (color id c' ≡ 2))
        (color id c == 1) (λ _ e. absurd (cc))
        (λ _.
          if_elim {A = Visit} (λ r. r ≡ visited c' → Good c' × Forth c c' × (color id c' ≡ 2))
            (color id c == 2) (λ black e. stay black e)
            (λ _.
              leave (visit_all (visit prerequisites fuel) (prerequisites id) (put id 1 c)) refl
                (λ b e.
                  all_keeps (visit prerequisites fuel) (visit-Good fuel) (prerequisites id)
                    (put id 1 c) b e (entered id c g))))
        h
    where
      Goal : Colors → Type 0
      Goal z = Good z × Forth c z × (color id z ≡ 2)

      stay : (color id c == 2) ≡ true → visited c ≡ visited c' → Goal c'
      stay black e =
          let same : c ≡ c' = cc in subst Goal same (g, (λ x. inl refl), ground (arith, black))

      leave :
          (r : Visit)
          → visit_all (visit prerequisites fuel) (prerequisites id) (put id 1 c) ≡ r
          → ((b : Colors)
              → visit_all (visit prerequisites fuel) (prerequisites id) (put id 1 c) ≡ visited b
              → AllDone (prerequisites id) (put id 1 c) b)
          → finish id r ≡ visited c'
          → Goal c'
      leave (cycle at) q go e = absurd (cc)
      leave out_of_fuel q go e = absurd (cc)
      leave (visited b) q go e =
          let same : put id 2 b ≡ c' = cc in subst Goal same (finished id c b (go b q))

  abbrev pub NoneEntered : Colors → Type 0
  NoneEntered c = (x : String) → (color x c ≡ 0) ⊎ (color x c ≡ 2)

  -- One round of the loop over the nodes.
  pub round :
      (fuel : ℕ) (id : String) (c b : Colors)
      → (if color id c == 0 then visit prerequisites fuel id c else visited c) ≡ visited b
      → NoneEntered c
      → Good c
      → Good b × Forth c b × (color id b ≡ 2)
  round fuel id c b h n g =
      if_elim {A = Visit} (λ r. r ≡ visited b → Good b × Forth c b × (color id b ≡ 2))
        (color id c == 0) (λ _ e. visit-Good fuel id c b e g)
        (λ seen e.
          let same : c ≡ b = cc in
          subst (λ z. Good z × Forth c z × (color id z ≡ 2)) same
            (g, (λ x. inl refl), ground (arith, seen, n id)))
        h

  search-AllDone :
      (fuel : ℕ) (ids : List String) (c c' : Colors)
      → search prerequisites fuel ids c ≡ visited c'
      → NoneEntered c
      → Good c
      → AllDone ids c c'
  unfolding search
  search-AllDone fuel [] c c' h n g =
      let same : c ≡ c' = cc in
      subst (λ z. AllDone [] c z) same (g, (λ x. inl refl), λ d k. absurd (omega (arith, k)))
  search-AllDone fuel (id ∷ ids) c c' h n g =
      after (if color id c == 0 then visit prerequisites fuel id c else visited c) refl h
        (λ b nb gb k. search-AllDone fuel ids b c' k nb gb)
    where
      after :
          (r : Visit)
          → (if color id c == 0 then visit prerequisites fuel id c else visited c) ≡ r
          → elim r as (λ _. Visit) [
            | visited b ↦ search prerequisites fuel ids b
            | cycle at ↦ cycle at
            | out_of_fuel ↦ out_of_fuel
          ]
            ≡ visited c'
          → ((b : Colors)
              → NoneEntered b
              → Good b
              → search prerequisites fuel ids b ≡ visited c'
              → AllDone ids b c')
          → AllDone (id ∷ ids) c c'
      after (cycle at) e k go = absurd (cc)
      after out_of_fuel e k go = absurd (cc)
      after (visited b) e k go =
          let (gb, fb, db) = round fuel id c b e n g in
          let (gc, fc, dc) = go b (λ x. ground (arith, n x, fb x)) gb k in
          (gc, Forth_trans c b c' fb fc, λ d m. ground (arith, m, dc d, fc id, db, eq_iff id d))

  -- A search of some ids that finds no cycle: they all stand in one list, behind which none of its
  -- ids has a prerequisite that is not further back in it.
  pub search-IsOrder :
      (fuel : ℕ) (ids : List String) (c : Colors)
      → search prerequisites fuel ids [] ≡ visited c
      → (xs : List String) × ((d : String) → 1 ≤ occ d ids → 1 ≤ occ d xs) × IsOrder xs
  unfolding get
  search-IsOrder fuel ids c h =
      let ((xs, black, order), _, done) =
        search-AllDone fuel ids [] c h (λ x. inl refl) ([], (λ x e. absurd (cc)), tt) in
      (xs, (λ d m. black d (done d m)), order)
