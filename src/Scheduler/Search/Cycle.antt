-- ===== src/Scheduler/Search/Cycle.antt =====
-- internal/scheduler/graph.go and decompose.go: what a found order and a found cycle say of the
-- relation of prerequisites.
use m_aistr.Prelude.{
  ℕ, zero, suc, ◌≤◌, ◌<◌, leb, ◌==◌, ◌≡◌, refl, sym, subst, inl, inr, arith, String, str_eq,
  Bool-cases, if_elim, List, [], ◌∷◌, if◌then◌else◌, eq_iff, length,
}
use m_aistr.Prelude.Dict.{get, put}
use m_aistr.Prelude.Occurrences.{occ}
use m_aistr.Scheduler.Search.{
  Colors, color, Visit, visited, cycle, out_of_fuel, visit_all, finish, visit, search,
}
use m_aistr.Scheduler.Search.Order.{
  IsOrder, Good, Keeps, NoneEntered, color-put, entered, visit-Good, round,
}

module _ (prerequisites : String → List String) where
  -- The second id is a prerequisite of the first, or of one of its prerequisites, and so on.
  pub data Needs : String → String → Type 0 where
    direct : (x d : String) → 1 ≤ occ d (prerequisites x) → Needs x d
    further : (x y d : String) → Needs x y → 1 ≤ occ d (prerequisites y) → Needs x d

  -- The place of the last occurrence, counted from the end.
  place : String → List String → ℕ
  place x [] = 0
  place x (y ∷ ys) =
      let behind = place x ys in
      if leb 1 (occ x ys) then behind else if str_eq y x then suc (length ys) else 0

  place-le-length : (x : String) (xs : List String) → place x xs ≤ length xs
  unfolding place
  place-le-length x [] = omega arith
  place-le-length x (y ∷ ys) = ground (arith, place-le-length x ys)

  place-lt :
      (x d : String) (xs : List String)
      → IsOrder prerequisites xs
      → 1 ≤ occ x xs
      → 1 ≤ occ d (prerequisites x)
      → (1 ≤ occ d xs) × (place d xs < place x xs)
  unfolding place
  place-lt x d [] o h m = absurd (omega (arith, h))
  place-lt x d (y ∷ ys) (here, o) h m = elim (Bool-cases (leb 1 (occ x ys))) [
    | inl e ↦ ground (arith, e, place-lt x d ys o)
    | inr e ↦
        let same : y ≡ x = ground (arith, e, eq_iff y x) in
        ground (
          arith,
          e,
          here d (subst (λ z. 1 ≤ occ d (prerequisites z)) (sym same) m),
          place-le-length d ys,
          eq_iff y x,
        )
  ]

  Needs-place :
      (x d : String) (xs : List String)
      → IsOrder prerequisites xs
      → 1 ≤ occ x xs
      → Needs x d
      → (1 ≤ occ d xs) × (place d xs < place x xs)
  Needs-place x d xs o h (direct _ _ m) = place-lt x d xs o h m
  Needs-place x d xs o h (further _ y _ n m) =
      let (hy, ly) = Needs-place x y xs o h n in
      let (hd, ld) = place-lt y d xs o hy m in (hd, omega (arith, ly, ld))

  -- No id of such a list needs itself.
  pub order-ne-cycle :
      (x : String) (xs : List String) → IsOrder prerequisites xs → 1 ≤ occ x xs → ¬ Needs x x
  order-ne-cycle x xs o h n = omega (arith, (Needs-place x x xs o h n).1)

  abbrev GreyNeed : String → Colors → Type 0
  GreyNeed id c = (x : String) → color x c ≡ 1 → Needs x id

  abbrev OneCycle : Visit → Type 0
  OneCycle (visited c) = Unit
  OneCycle (cycle at) = Needs at at
  OneCycle out_of_fuel = Unit

  all_cycle :
      (v : String → Colors → Visit)
      → Keeps prerequisites v
      → ((id : String) (c : Colors) → Good prerequisites c → GreyNeed id c → OneCycle (v id c))
      → (ids : List String) (c : Colors) → Good prerequisites c
      → ((d : String) → 1 ≤ occ d ids → GreyNeed d c)
      → OneCycle (visit_all v ids c)
  unfolding visit_all
  all_cycle v keep one [] c g h = tt
  all_cycle v keep one (id ∷ ids) c g h =
      after (v id c) refl (one id c g (h id (ground (arith, eq_iff id id))))
        (λ b gb hb. all_cycle v keep one ids b gb hb)
    where
      after :
          (r : Visit)
          → v id c ≡ r
          → OneCycle r
          → ((b : Colors)
              → Good prerequisites b
              → ((d : String) → 1 ≤ occ d ids → GreyNeed d b)
              → OneCycle (visit_all v ids b))
          → OneCycle (elim r as (λ _. Visit) [
            | visited b ↦ visit_all v ids b
            | cycle at ↦ cycle at
            | out_of_fuel ↦ out_of_fuel
          ])
      after (cycle at) e k go = k
      after out_of_fuel e k go = tt
      after (visited b) e k go =
          let (gb, fb, _) = keep id c b e g in
          go b gb (λ d m x q. h d (ground (arith, m)) x (ground (arith, q, fb x)))

  visit_cycle :
      (fuel : ℕ) (id : String) (c : Colors)
      → Good prerequisites c
      → GreyNeed id c
      → OneCycle (visit prerequisites fuel id c)
  unfolding visit finish
  visit_cycle zero id c g h = tt
  visit_cycle (suc fuel) id c g h =
      if_elim {A = Visit} OneCycle (color id c == 1) (λ grey. h id (ground (arith, grey)))
        (λ _.
          if_elim {A = Visit} OneCycle (color id c == 2) (λ _. tt)
            (λ _. leave (visit_all (visit prerequisites fuel) (prerequisites id) (put id 1 c)) (
              all_cycle (visit prerequisites fuel) (visit-Good prerequisites fuel)
                (visit_cycle fuel) (prerequisites id) (put id 1 c) (entered prerequisites id c g)
                inside)))
    where
      leave : (r : Visit) → OneCycle r → OneCycle (finish id r)
      leave (visited b) e = tt
      leave (cycle at) e = e
      leave out_of_fuel e = tt

      inside : (d : String) → 1 ≤ occ d (prerequisites id) → GreyNeed d (put id 1 c)
      inside d m x q = elim (Bool-cases (str_eq id x)) [
        | inl e ↦ subst (λ z. Needs z d) (ground (arith, e, eq_iff id x)) (direct id d m)
        | inr e ↦ further x id d (h x (ground (arith, e, q, color-put prerequisites id x 1 c))) m
      ]

  search_cycle :
      (fuel : ℕ) (ids : List String) (c : Colors)
      → NoneEntered prerequisites c
      → Good prerequisites c
      → OneCycle (search prerequisites fuel ids c)
  unfolding search
  search_cycle fuel [] c n g = tt
  search_cycle fuel (id ∷ ids) c n g =
      after (if color id c == 0 then visit prerequisites fuel id c else visited c) refl
        (if_elim {A = Visit} OneCycle (color id c == 0)
          (λ _. visit_cycle fuel id c g (λ x q. absurd (ground (arith, q, n x)))) (λ _. tt))
        (λ b nb gb. search_cycle fuel ids b nb gb)
    where
      after :
          (r : Visit)
          → (if color id c == 0 then visit prerequisites fuel id c else visited c) ≡ r
          → OneCycle r
          → ((b : Colors)
              → NoneEntered prerequisites b
              → Good prerequisites b
              → OneCycle (search prerequisites fuel ids b))
          → OneCycle (elim r as (λ _. Visit) [
            | visited b ↦ search prerequisites fuel ids b
            | cycle at ↦ cycle at
            | out_of_fuel ↦ out_of_fuel
          ])
      after (cycle at) e k go = k
      after out_of_fuel e k go = tt
      after (visited b) e k go =
          let (gb, fb, _) = round prerequisites fuel id c b e n g in
          go b (λ x. ground (arith, n x, fb x)) gb

  -- The id that a search reports needs itself.
  pub search-cycle :
      (fuel : ℕ) (ids : List String) (at : String)
      → search prerequisites fuel ids [] ≡ cycle at
      → Needs at at
  unfolding get
  search-cycle fuel ids at h =
      subst OneCycle h (search_cycle fuel ids [] (λ x. inl refl) ([], (λ x e. absurd (cc)), tt))
