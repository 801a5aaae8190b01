-- ===== src/Cluster/Leadership.antt =====
-- internal/cluster/registry.go: the leader that a snapshot of the registry names.
use m_aistr.Prelude.{
  ℕ, suc, ◌≤◌, ◌<◌, ltb, ◌≡◌, refl, sym, ap, ◌∙◌, subst, arith, true, false, ◌&&◌, ◌⊎◌, inl, inr,
  Option, none, some, List, [], ◌∷◌, map, find, count, All, sort_by, Bool-cases, if_elim,
  if◌then◌else◌,
}
use m_aistr.Prelude.Text.{str_lt}
use m_aistr.Prelude.Dict.{Dict}
use m_aistr.Cluster.{
  NodeStatus, is_healthy, is_leader, follower, crown, stands_above, better, find_leader,
  build_snapshot, values,
}
use m_aistr.Cluster.Marks.{
  At, Follows, count-Follows, find-Follows, count-crown, find-crown, map-Follows, All-crown,
  count_healthy-crown,
}
use m_aistr.Cluster.Ranks.{Topped, AtLeast, AtLeast-not_above, AtLeast-above, not_above_self}

module _ {D R : Type 0} (score : D → R → ℕ) where
  -- What the search finds that goes on from a best node.
  abbrev Found :
      ℕ → ℕ → NodeStatus D R → List (NodeStatus D R) → Option (ℕ × NodeStatus D R) → Type 0
  Found i k b ns r =
      (j : ℕ) × (m : NodeStatus D R) × (r ≡ some (j, m))
      × AtLeast score m b
      × Topped score m ns
      × (((j ≡ k) × (m ≡ b)) ⊎ ((m.healthy ≡ true) × At i ns j m))

  find_leader-some :
      (i k : ℕ) (b : NodeStatus D R) (ns : List (NodeStatus D R))
      → Found i k b ns (find_leader score i (some (k, b)) ns)
  unfolding find_leader better
  find_leader-some i k b [] = (k, b, refl, inl refl, tt, inl (refl, refl))
  find_leader-some i k b (n ∷ ns) = elim (Bool-cases (n.healthy && stands_above score n b)) [
    | inl wins ↦
        let e : find_leader score i (some (k, b)) (n ∷ ns)
            ≡ find_leader score (suc i) (some (i, n)) ns =
          taken wins in
        let (j, m, r, up, top, place) = find_leader-some (suc i) i n ns in
        (
          j,
          m,
          e ∙ r,
          AtLeast-above score n b m (ground (arith, wins)) up,
          (ground (arith, AtLeast-not_above score n n m (not_above_self score n) up), top),
          inr (elim place [
            | inl (same_j, same_m) ↦
                (ap (λ z. z.healthy) same_m ∙ ground (arith, wins), inl (same_j, sym same_m))
            | inr (well, at) ↦ (well, inr at)
          ]),
        )
    | inr loses ↦
        let e : find_leader score i (some (k, b)) (n ∷ ns)
            ≡ find_leader score (suc i) (some (k, b)) ns =
          passed loses in
        let (j, m, r, up, top, place) = find_leader-some (suc i) k b ns in
        (
          j,
          m,
          e ∙ r,
          up,
          (
            elim (Bool-cases n.healthy) [
              | inl well ↦
                  ground (arith, AtLeast-not_above score n b m (ground (arith, well, loses)) up)
              | inr ill ↦ ground (arith, ill)
            ],
            top,
          ),
          elim place [ inl here ↦ inl here | inr (well, at) ↦ inr (well, inr at) ],
        )
  ]
    where
      taken :
          (n.healthy && stands_above score n b) ≡ true
          → find_leader score i (some (k, b)) (n ∷ ns) ≡ find_leader score (suc i) (some (i, n)) ns
      taken wins = ground (arith, wins)

      passed :
          (n.healthy && stands_above score n b) ≡ false
          → find_leader score i (some (k, b)) (n ∷ ns) ≡ find_leader score (suc i) (some (k, b)) ns
      passed loses = ground (arith, loses)

  find_leader-none :
      (i : ℕ) (ns : List (NodeStatus D R))
      → 1 ≤ count is_healthy ns
      → (j : ℕ) × (m : NodeStatus D R) × (find_leader score i none ns ≡ some (j, m))
        × (m.healthy ≡ true)
        × Topped score m ns
        × At i ns j m
  unfolding find_leader better
  find_leader-none i [] h = absurd (omega arith)
  find_leader-none i (n ∷ ns) h = elim (Bool-cases n.healthy) [
    | inl well ↦
        let (j, m, r, up, top, place) = find_leader-some (suc i) i n ns in
        let below : (n.healthy && stands_above score n m) ≡ false =
          ground (arith, AtLeast-not_above score n n m (not_above_self score n) up) in
        elim place [
          | inl (same_j, same_m) ↦ (
            j,
            m,
            first well ∙ r,
            ap (λ z. z.healthy) same_m ∙ well,
            (below, top),
            inl (same_j, sym same_m),
          )
          | inr (well_m, at) ↦ (j, m, first well ∙ r, well_m, (below, top), inr at)
        ]
    | inr ill ↦
        let (j, m, r, well, top, at) = find_leader-none (suc i) ns (ground (arith, ill, h)) in
        (j, m, later ill ∙ r, well, (ground (arith, ill), top), inr at)
  ]
    where
      first :
          n.healthy ≡ true
          → find_leader score i none (n ∷ ns) ≡ find_leader score (suc i) (some (i, n)) ns
      first well = ground (arith, well)

      later :
          n.healthy ≡ false → find_leader score i none (n ∷ ns) ≡ find_leader score (suc i) none ns
      later ill = ground (arith, ill)

  -- Whom a snapshot should name.
  abbrev pub IsElected : List (NodeStatus D R) → Option (NodeStatus D R) → Type 0
  IsElected s none = count is_healthy s < 2
  IsElected s (some m) =
      (2 ≤ count is_healthy s)
      × (m.healthy ≡ true)
      × All (λ n. (n.healthy && stands_above score n m) ≡ false) s

  abbrev IsLed : List (NodeStatus D R) → Type 0
  IsLed s = (count is_leader s ≤ 1) × IsElected s (find is_leader s)

  crowned-IsLed :
      (out : List (NodeStatus D R)) (j : ℕ) (m : NodeStatus D R)
      → Follows out
      → 2 ≤ count is_healthy out
      → m.healthy ≡ true
      → Topped score m out
      → At 0 out j m
      → IsLed (crown 0 j out)
  unfolding stands_above
  crowned-IsLed out j m follows two well top at = (
    omega (arith, count-crown 0 j out m follows at),
    subst (IsElected (crown 0 j out)) (sym (find-crown 0 j out m follows at)) (
      omega (arith, count_healthy-crown 0 j out, two),
      well,
      All-crown (λ n. (n.healthy && stands_above score n (record m { leader = true })) ≡ false)
          (λ n h. h) 0 j out top,
    ),
  )

  -- A snapshot of the registry marks one leader at most. It marks none exactly if fewer than two
  -- nodes are healthy, and else a healthy one above which no healthy node stands, by score and then
  -- by id.
  pub build_snapshot-IsElected :
      (nodes : Dict (NodeStatus D R))
      → (count is_leader (build_snapshot score nodes) ≤ 1)
        × IsElected (build_snapshot score nodes) (find is_leader (build_snapshot score nodes))
  unfolding build_snapshot
  build_snapshot-IsElected nodes =
      go (map follower (sort_by (λ n m. str_lt n.id m.id) (values nodes)))
        (map-Follows (sort_by (λ n m. str_lt n.id m.id) (values nodes)))
    where
      go :
          (out : List (NodeStatus D R))
          → Follows out
          → IsLed (
              if ltb (count is_healthy out) 2 then out else elim (find_leader score 0 none out) [
                | none ↦ out
                | some (leader, n) ↦ crown 0 leader out
              ])
      go out follows =
          if_elim {A = List (NodeStatus D R)} IsLed (ltb (count is_healthy out) 2)
            (λ few. (
              omega (arith, count-Follows out follows),
              subst (IsElected out) (sym (find-Follows out follows)) (ground (arith, few)),
            ))
            (λ many.
              let two : 2 ≤ count is_healthy out = ground (arith, many) in
              let (j, m, found, well, top, at) = find_leader-none 0 out (omega arith) in
              subst (λ o. IsLed (elim o [ none ↦ out | some (leader, n) ↦ crown 0 leader out ]))
                (sym found) (crowned-IsLed out j m follows two well top at))
