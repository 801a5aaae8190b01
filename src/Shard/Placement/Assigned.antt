-- ===== src/Shard/Placement/Assigned.antt =====
-- internal/shard/plan_placement.go: the loop over the rounds ends, and every layer is assigned.
use m_aistr.Prelude.{
  ℕ, zero, suc, ◌+◌, ◌-◌, ◌≤◌, ◌<◌, ◌==◌, ltb, ◌≡◌, refl, subst, arith, Option, none, some, List,
  [], ◌∷◌, All, if_elim,
}
use m_aistr.Shard.Memory.{max_uint64}
use m_aistr.Shard.Placement.{
  MemoryDevice, total_capacity, max_layer_capacity, Shares, first_shares, round_shares, Assignment,
  assigned, refused, Round, stop, next, hand_out_by, after_shares, weighted, round, spread,
  from_shares, of_capacity, proportional_layer_assignments,
}
use m_aistr.Shard.Placement.Shares.{
  sum, free_sum, max_sum, Fits, active_sum, active-le-free, active_weight-sum, total_capacity-sum,
  max_layer_capacity-lt, Shared, first_shares-Shared, round_shares-Shared, taken-le, active-pos,
}
use m_aistr.Shard.Placement.HandedOut.{hand_out_by-Handed, hand_out_by-less}

-- Every layer is assigned, and no device has more than it can hold.
pub record IsPlacement (rs : List MemoryDevice) (layers : ℕ) (xs : List ℕ) : Type 0 where
  pub fits : Fits rs xs
  pub complete : sum xs ≡ layers

-- Devices as makeMemoryDevice leaves them, whose memory adds up to a number of 64 bits.
pub record AreUsable (rs : List MemoryDevice) : Type 0 where
  pub free : All (λ r. 1 ≤ r.free_bytes) rs
  pub total : free_sum rs ≤ max_uint64

module _ (rs : List MemoryDevice) (layers : ℕ) (usable : AreUsable rs) (small : layers ≤ max_uint64)
    (enough : layers ≤ max_sum rs) where
  abbrev Placed : Assignment → Type 0
  Placed result = (xs : List ℕ) × (result ≡ assigned xs) × IsPlacement rs layers xs

  -- What a round does with `remaining` layers.
  abbrev Progress : ℕ → Round → Type 0
  Progress remaining (stop result) = Placed result
  Progress remaining (next left xs) = (left < remaining) × Fits rs xs × (sum xs + left ≡ layers)

  after-Progress :
      (remaining weight part before : ℕ) (out : Option Shares)
      → Shared rs remaining weight part before out
      → 1 ≤ remaining
      → 1 ≤ weight
      → part ≤ weight
      → before + remaining ≡ layers
      → Progress remaining (after_shares rs remaining out)
  unfolding after_shares
  after-Progress remaining weight part before none s r w p e = elim s [ ]
  after-Progress remaining weight part before (some (xs, ms, taken)) (fits, total, le) r w p e =
      let t = taken-le remaining weight part taken w p le in
      if_elim {A = Round} (Progress remaining) (remaining - taken == 0)
        (λ done. (xs, refl, record { fits = fits; complete = ground (arith, done, total, e, t) }))
        (λ more.
          let left : 1 ≤ remaining - taken = ground (arith, more) in
          let (fits', total', le') = hand_out_by-Handed rs ms xs (remaining - taken) fits in
          let less =
            hand_out_by-less rs ms xs (remaining - taken) fits left
              (omega (arith, left, total, e, enough, t)) in
          if_elim {A = Round} (Progress remaining)
            ((hand_out_by rs ms (remaining - taken) xs).1 == remaining)
            (λ same. absurd (ground (arith, same, less)))
            (λ _. (omega (arith, less), fits', omega (arith, total', total, e, t))))

  round-Progress :
      (remaining : ℕ) (xs : List ℕ)
      → Fits rs xs
      → 1 ≤ remaining
      → sum xs + remaining ≡ layers
      → Progress remaining (round rs remaining xs)
  unfolding round weighted
  round-Progress remaining xs fits r e =
      let weight = active_sum rs xs in
      let pos = active-pos rs xs usable.free fits (omega (arith, r, e, enough)) in
      let le = active-le-free rs xs in
      rw (active_weight-sum rs xs 0 (omega (arith, usable.total))) (
        subst (λ w. Progress remaining (weighted rs remaining xs (some w))) (omega arith)
          (if_elim {A = Round} (Progress remaining) (weight == 0)
            (λ none_active. absurd (ground (arith, none_active, pos)))
            (λ _.
              after-Progress remaining weight weight (sum xs) (round_shares remaining weight rs xs)
                (round_shares-Shared remaining weight rs xs (omega (arith, e, small)) pos
                  (omega arith) fits)
                r pos (omega arith) e)))

  spread-Placed :
      (fuel remaining : ℕ) (xs : List ℕ)
      → Fits rs xs
      → remaining ≤ fuel
      → sum xs + remaining ≡ layers
      → Placed (spread rs fuel remaining xs)
  unfolding spread
  spread-Placed fuel zero xs fits h e =
      (xs, refl, record { fits = fits; complete = omega (arith, e) })
  spread-Placed zero (suc remaining) xs fits h e = absurd (omega (arith, h))
  spread-Placed (suc fuel) (suc remaining) xs fits h e =
      go (round rs (suc remaining) xs) (round-Progress (suc remaining) xs fits (omega arith) e)
        (λ left ys f le t. spread-Placed fuel left ys f (omega (arith, le, h)) t)
    where
      go :
          (r : Round)
          → Progress (suc remaining) r
          → ((left : ℕ) (ys : List ℕ)
              → Fits rs ys
              → left < suc remaining
              → sum ys + left ≡ layers
              → Placed (spread rs fuel left ys))
          → Placed (elim r as (λ _. Assignment) [
            | stop result ↦ result
            | next left ys ↦ spread rs fuel left ys
          ])
      go (stop result) p rest = p
      go (next left ys) (le, f, t) rest = rest left ys f le t

  from_shares-Placed :
      (weight : ℕ) (out : Option Shares)
      → Shared rs layers weight (free_sum rs) 0 out
      → 1 ≤ weight
      → free_sum rs ≤ weight
      → Placed (from_shares rs layers out)
  unfolding from_shares
  from_shares-Placed weight none s w p = elim s [ ]
  from_shares-Placed weight (some (xs, ms, taken)) (fits, total, le) w p =
      let t = taken-le layers weight (free_sum rs) taken w p le in
      let (fits', total', le') = hand_out_by-Handed rs ms xs (layers - taken) fits in
      if_elim {A = List ℕ × ℕ} (λ o. Placed (spread rs layers o.1 o.0)) (ltb 0 (layers - taken))
        (λ _.
          spread-Placed layers (hand_out_by rs ms (layers - taken) xs).1
            (hand_out_by rs ms (layers - taken) xs).0 fits' (omega (arith, le'))
            (omega (arith, total', total, t)))
        (λ _. spread-Placed layers (layers - taken) xs fits (omega arith) (omega (arith, total, t)))

  capacity-Placed : 1 ≤ free_sum rs → Placed (of_capacity rs layers (some (free_sum rs)))
  unfolding of_capacity
  capacity-Placed pos =
      if_elim {A = Assignment} Placed (free_sum rs == 0)
        (λ none_free. absurd (ground (arith, none_free, pos)))
        (λ _.
          if_elim {A = Assignment} Placed (ltb (max_layer_capacity layers rs 0) layers)
            (λ less. absurd (ground (arith, less, enough, max_layer_capacity-lt layers rs 0)))
            (λ _.
              from_shares-Placed (free_sum rs) (first_shares layers (free_sum rs) rs)
                (first_shares-Shared layers (free_sum rs) rs small pos (omega arith)) pos
                (omega arith)))

-- Let every device have free memory, let their sum and the number of layers be numbers of 64 bits,
-- and let the devices together hold all layers. Then proportionalLayerAssignments ends with an
-- assignment for each device, none above what it can hold, and together they are all layers.
pub proportional-IsPlacement :
    (r : MemoryDevice) (rs : List MemoryDevice) (layers : ℕ)
    → AreUsable (r ∷ rs)
    → layers ≤ max_uint64
    → layers ≤ max_sum (r ∷ rs)
    → (xs : List ℕ) × (proportional_layer_assignments (r ∷ rs) layers ≡ assigned xs)
      × IsPlacement (r ∷ rs) layers xs
unfolding proportional_layer_assignments
proportional-IsPlacement r rs layers usable small enough =
    rw (total_capacity-sum (r ∷ rs) 0 (omega (arith, usable.total))) (
      subst (λ t. Placed (r ∷ rs) layers usable small enough (of_capacity (r ∷ rs) layers (some t)))
        (omega arith)
        (capacity-Placed (r ∷ rs) layers usable small enough (omega (arith, usable.free))))

-- Devices that together hold fewer layers than there are are refused.
pub proportional-refused :
    (rs : List MemoryDevice) (layers : ℕ)
    → max_sum rs < layers
    → proportional_layer_assignments rs layers ≡ refused
unfolding proportional_layer_assignments of_capacity
proportional-refused [] layers h = refl
proportional-refused (r ∷ rs) layers h = go (total_capacity (r ∷ rs) 0)
  where
    go : (t : Option ℕ) → of_capacity (r ∷ rs) layers t ≡ refused
    go none = refl
    go (some t) = ground (arith, h, max_layer_capacity-lt layers (r ∷ rs) 0)
