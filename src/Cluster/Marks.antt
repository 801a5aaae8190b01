-- ===== src/Cluster/Marks.antt =====
-- internal/cluster/registry.go: a list of nodes in which one is marked as the leader.
use m_aistr.Prelude.{
  ℕ, suc, ◌≤◌, ◌<◌, ◌==◌, ◌≡◌, refl, ap, ◌∙◌, arith, true, false, ◌⊎◌, inl, inr, none, some, List,
  [], ◌∷◌, map, find, count, All, if_elim,
}
use m_aistr.Cluster.{NodeStatus, is_healthy, is_leader, follower, crown}

module _ {D R : Type 0} where
  -- The node stands at index j of a list that starts at index i.
  abbrev pub At : ℕ → List (NodeStatus D R) → ℕ → NodeStatus D R → Type 0
  At i [] j m = ⊥
  At i (n ∷ ns) j m = ((j ≡ i) × (n ≡ m)) ⊎ At (suc i) ns j m

  pub At-le : (i j : ℕ) (ns : List (NodeStatus D R)) (m : NodeStatus D R) → At i ns j m → i ≤ j
  At-le i j [] m h = elim h [ ]
  At-le i j (n ∷ ns) m (inl (e, same)) = omega (arith, e)
  At-le i j (n ∷ ns) m (inr h) = omega (arith, At-le (suc i) j ns m h)

  abbrev pub Follows : List (NodeStatus D R) → Type 0
  Follows ns = All (λ n. n.leader ≡ false) ns

  crown_past : (i j : ℕ) (ns : List (NodeStatus D R)) → j < i → crown i j ns ≡ ns
  unfolding crown
  crown_past i j [] h = refl
  crown_past i j (n ∷ ns) h = ground (arith, crown_past (suc i) j ns (omega arith))

  pub count-Follows : (ns : List (NodeStatus D R)) → Follows ns → count is_leader ns ≡ 0
  count-Follows [] h = refl
  count-Follows (n ∷ ns) (p, h) = ground (arith, p, count-Follows ns h)

  pub find-Follows : (ns : List (NodeStatus D R)) → Follows ns → find is_leader ns ≡ none
  find-Follows [] h = refl
  find-Follows (n ∷ ns) (p, h) = ground (arith, p, find-Follows ns h)

  pub count-crown :
      (i j : ℕ) (ns : List (NodeStatus D R)) (m : NodeStatus D R)
      → Follows ns
      → At i ns j m
      → count is_leader (crown i j ns) ≡ 1
  unfolding crown
  count-crown i j [] m f h = elim h [ ]
  count-crown i j (n ∷ ns) m (p, f) (inl (e, same)) =
      ground (arith, e, crown_past (suc i) j ns (omega arith), count-Follows ns f)
  count-crown i j (n ∷ ns) m (p, f) (inr h) =
      ground (arith, p, At-le (suc i) j ns m h, count-crown (suc i) j ns m f h)

  pub find-crown :
      (i j : ℕ) (ns : List (NodeStatus D R)) (m : NodeStatus D R)
      → Follows ns
      → At i ns j m
      → find is_leader (crown i j ns) ≡ some (record m { leader = true })
  unfolding crown
  find-crown i j [] m f h = elim h [ ]
  find-crown i j (n ∷ ns) m (p, f) (inl (e, same)) =
      ground (arith, e) ∙ ap {A = NodeStatus D R} (λ z. some (record z { leader = true })) same
  find-crown i j (n ∷ ns) m (p, f) (inr h) =
      ground (arith, p, At-le (suc i) j ns m h, find-crown (suc i) j ns m f h)

  pub map-Follows : (ns : List (NodeStatus D R)) → Follows (map follower ns)
  map-Follows [] = tt
  map-Follows (n ∷ ns) = (refl, map-Follows ns)

  -- A property that the mark of the leader does not change.
  pub All-crown :
      (P : NodeStatus D R → Type 0)
      → ((n : NodeStatus D R) → P n → P (record n { leader = true }))
      → (i j : ℕ) (ns : List (NodeStatus D R)) → All P ns
      → All P (crown i j ns)
  unfolding crown
  All-crown P mark i j [] h = tt
  All-crown P mark i j (n ∷ ns) (p, h) = (
    if_elim {A = NodeStatus D R} P (i == j) (λ _. mark n p) (λ _. p),
    All-crown P mark (suc i) j ns h,
  )

  pub count_healthy-crown :
      (i j : ℕ) (ns : List (NodeStatus D R)) → count is_healthy (crown i j ns) ≡ count is_healthy ns
  unfolding crown
  count_healthy-crown i j [] = refl
  count_healthy-crown i j (n ∷ ns) = ground (arith, count_healthy-crown (suc i) j ns)
