-- ===== src/Cluster/Ranks.antt =====
-- internal/cluster/registry.go: nodes by score and then by id.
use m_aistr.Prelude.{
  ℕ, ◌≡◌, ap, ◌∙◌, arith, true, false, ◌&&◌, ◌⊎◌, inl, inr, List, All, Bool-cases,
}
use m_aistr.Prelude.Order.{str_lt_asymm, str_lt_trans}
use m_aistr.Cluster.{NodeStatus, stands_above}

module _ {D R : Type 0} (score : D → R → ℕ) where
  above_asymm :
      (n m : NodeStatus D R) → stands_above score n m ≡ true → stands_above score m n ≡ false
  unfolding stands_above
  above_asymm n m h = ground (arith, h, str_lt_asymm n.id m.id)

  above_trans :
      (n m k : NodeStatus D R)
      → stands_above score n m ≡ true
      → stands_above score m k ≡ true
      → stands_above score n k ≡ true
  unfolding stands_above
  above_trans n m k h h' = ground (arith, h, h', str_lt_trans n.id m.id k.id)

  -- No healthy node of the list stands above m.
  abbrev pub Topped : NodeStatus D R → List (NodeStatus D R) → Type 0
  Topped m ns = All (λ n. (n.healthy && stands_above score n m) ≡ false) ns

  -- m is b or stands above it.
  abbrev pub AtLeast : NodeStatus D R → NodeStatus D R → Type 0
  AtLeast m b = (m ≡ b) ⊎ (stands_above score m b ≡ true)

  pub AtLeast-not_above :
      (n b m : NodeStatus D R)
      → stands_above score n b ≡ false
      → AtLeast m b
      → stands_above score n m ≡ false
  AtLeast-not_above n b m h (inl e) = ap (stands_above score n) e ∙ h
  AtLeast-not_above n b m h (inr up) = elim (Bool-cases (stands_above score n m)) [
    | inl over ↦ absurd (let t = above_trans n m b over up in cc)
    | inr not_over ↦ not_over
  ]

  pub AtLeast-above :
      (n b m : NodeStatus D R) → stands_above score n b ≡ true → AtLeast m n → AtLeast m b
  AtLeast-above n b m h (inl e) = inr (ap (λ z. stands_above score z b) e ∙ h)
  AtLeast-above n b m h (inr up) = inr (above_trans m n b up h)

  pub not_above_self : (n : NodeStatus D R) → stands_above score n n ≡ false
  not_above_self n = ground (arith, above_asymm n n)
