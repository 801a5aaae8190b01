-- ===== src/Scheduler/Search/Ending.antt =====
-- internal/scheduler/graph.go and decompose.go: the search ends, as each visit that goes on finds an
-- id that was unvisited.
use m_aistr.Prelude.{
  ℕ, zero, suc, ◌≤◌, ◌<◌, ◌==◌, ◌≡◌, ◌≢◌, refl, subst, arith, String, str_eq, false, ◌||◌, ◌⊎◌, inl,
  inr, if_elim, List, [], ◌∷◌, if◌then◌else◌, eq_iff, length,
}
use native.Mathlib.Nat.{le_trans}
use m_aistr.Prelude.Dict.{put, get-put}
use m_aistr.Prelude.Occurrences.{occ}
use m_aistr.Scheduler.Search.{
  Colors, color, Visit, visited, cycle, out_of_fuel, visit_all, finish, visit, search,
}

-- How many of the ids a visit would go on from.
abbrev unvisited : List String → Colors → ℕ
unvisited [] c = 0
unvisited (id ∷ ids) c =
    if (color id c == 1) || (color id c == 2) then unvisited ids c else suc (unvisited ids c)

color-put :
    (id x : String) (n : ℕ) (c : Colors)
    → color x (put id n c) ≡ (if str_eq id x then n else color x c)
color-put id x n c = ground (arith, get-put id x n c)

unvisited-put :
    (ids : List String) (id : String) (n : ℕ) (c : Colors)
    → (n ≡ 1) ⊎ (n ≡ 2)
    → unvisited ids (put id n c) ≤ unvisited ids c
unvisited-put [] id n c h = omega arith
unvisited-put (x ∷ ids) id n c h = ground (arith, h, color-put id x n c, unvisited-put ids id n c h)

unvisited-enter :
    (ids : List String) (id : String) (c : Colors)
    → 1 ≤ occ id ids
    → (color id c == 1) ≡ false
    → (color id c == 2) ≡ false
    → suc (unvisited ids (put id 1 c)) ≤ unvisited ids c
unvisited-enter [] id c m g b = absurd (omega (arith, m))
unvisited-enter (x ∷ ids) id c m g b = ground (
  arith,
  m,
  g,
  b,
  color-put id x 1 c,
  unvisited-put ids id 1 c (inl refl),
  unvisited-enter ids id c,
  eq_iff x id,
  eq_iff id x,
)

unvisited-length : (ids : List String) (c : Colors) → unvisited ids c ≤ length ids
unvisited-length [] c = omega arith
unvisited-length (x ∷ ids) c = ground (arith, unvisited-length ids c)

-- `nodes` has every id that a search of it meets.
module _ (prerequisites : String → List String) (nodes : List String)
    (closed : (x d : String)
      → 1 ≤ occ x nodes
      → 1 ≤ occ d (prerequisites x)
      → 1 ≤ occ d nodes) where
  -- A visit that ended, and that left no more unvisited than there were.
  abbrev Ended : Colors → Visit → Type 0
  Ended c (visited c') = unvisited nodes c' ≤ unvisited nodes c
  Ended c (cycle at) = Unit
  Ended c out_of_fuel = ⊥

  weaken :
      (c b : Colors) (r : Visit) → unvisited nodes b ≤ unvisited nodes c → Ended b r → Ended c r
  weaken c b (visited c') le h = le_trans h le
  weaken c b (cycle at) le h = tt
  weaken c b out_of_fuel le h = h

  all-Ended :
      (v : String → Colors → Visit) (bound : ℕ)
      → ((id : String) (c : Colors)
          → 1 ≤ occ id nodes
          → unvisited nodes c < bound
          → Ended c (v id c))
      → (ids : List String) (c : Colors) → ((d : String) → 1 ≤ occ d ids → 1 ≤ occ d nodes)
      → unvisited nodes c < bound
      → Ended c (visit_all v ids c)
  unfolding visit_all
  all-Ended v bound end [] c m h = omega arith
  all-Ended v bound end (id ∷ ids) c m h =
      after (v id c) (end id c (m id (ground (arith, eq_iff id id))) h) (λ b le.
        all-Ended v bound end ids b (λ d k. m d (ground (arith, k))) (omega (arith, h, le)))
    where
      after :
          (r : Visit)
          → Ended c r
          → ((b : Colors) → unvisited nodes b ≤ unvisited nodes c → Ended b (visit_all v ids b))
          → Ended c (elim r as (λ _. Visit) [
            | visited b ↦ visit_all v ids b
            | cycle at ↦ cycle at
            | out_of_fuel ↦ out_of_fuel
          ])
      after (cycle at) e go = tt
      after out_of_fuel e go = e
      after (visited b) e go = weaken c b (visit_all v ids b) e (go b e)

  visit-Ended :
      (fuel : ℕ) (id : String) (c : Colors)
      → 1 ≤ occ id nodes
      → unvisited nodes c < fuel
      → Ended c (visit prerequisites fuel id c)
  unfolding visit finish
  visit-Ended zero id c m h = absurd (omega (arith, h))
  visit-Ended (suc fuel) id c m h =
      if_elim {A = Visit} (Ended c) (color id c == 1) (λ _. tt)
        (λ grey.
          if_elim {A = Visit} (Ended c) (color id c == 2) (λ _. omega arith)
            (λ black.
              let less = unvisited-enter nodes id c m grey black in
              leave (visit_all (visit prerequisites fuel) (prerequisites id) (put id 1 c)) (
                weaken c (put id 1 c)
                  (visit_all (visit prerequisites fuel) (prerequisites id) (put id 1 c))
                  (omega (arith, less))
                  (all-Ended (visit prerequisites fuel) fuel (visit-Ended fuel) (prerequisites id)
                    (put id 1 c) (λ d k. closed id d m k) (omega (arith, h, less))))))
    where
      leave : (r : Visit) → Ended c r → Ended c (finish id r)
      leave (visited b) e = le_trans (unvisited-put nodes id 2 b (inr refl)) e
      leave (cycle at) e = tt
      leave out_of_fuel e = e

  search-Ended :
      (fuel : ℕ) (ids : List String) (c : Colors)
      → ((d : String) → 1 ≤ occ d ids → 1 ≤ occ d nodes)
      → unvisited nodes c < fuel
      → Ended c (search prerequisites fuel ids c)
  unfolding search
  search-Ended fuel [] c m h = omega arith
  search-Ended fuel (id ∷ ids) c m h =
      after (if color id c == 0 then visit prerequisites fuel id c else visited c)
        (if_elim {A = Visit} (Ended c) (color id c == 0)
          (λ _. visit-Ended fuel id c (m id (ground (arith, eq_iff id id))) h) (λ _. omega arith))
        (λ b le. search-Ended fuel ids b (λ d k. m d (ground (arith, k))) (omega (arith, h, le)))
    where
      after :
          (r : Visit)
          → Ended c r
          → ((b : Colors)
              → unvisited nodes b ≤ unvisited nodes c
              → Ended b (search prerequisites fuel ids b))
          → Ended c (elim r as (λ _. Visit) [
            | visited b ↦ search prerequisites fuel ids b
            | cycle at ↦ cycle at
            | out_of_fuel ↦ out_of_fuel
          ])
      after (cycle at) e go = tt
      after out_of_fuel e go = e
      after (visited b) e go = weaken c b (search prerequisites fuel ids b) e (go b e)

  -- The search of the nodes never runs out of fuel, of which there is one unit more than there are
  -- nodes, where every prerequisite of a node is a node.
  pub search-ends : search prerequisites (suc (length nodes)) nodes [] ≢ out_of_fuel
  search-ends e = subst (Ended []) e (
      search-Ended (suc (length nodes)) nodes [] (λ d k. k)
        (omega (arith, unvisited-length nodes [])))
