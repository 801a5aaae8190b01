-- ===== src/Shard/Placement/HandedOut.antt =====
-- internal/shard/plan_placement.go: the loop that gives one more layer to each device in an order.
use m_aistr.Prelude.{
  ℕ, zero, suc, ◌+◌, ◌-◌, ◌≤◌, ◌<◌, ◌==◌, ltb, ◌≡◌, refl, sym, subst, arith, List, [], ◌∷◌, sort_by,
  count, count-sort_by, All-sort_by, length, All, if_elim,
}
use m_aistr.Prelude.Occurrences.{length-sort_by}
use m_aistr.Shard.Placement.{
  MemoryDevice, open_slots, by_remainder, increment, hand_out, hand_out_by,
}
use m_aistr.Shard.Placement.Shares.{sum, max_sum, Fits}

-- How often an index stands in an order.
abbrev times : ℕ → List ℕ → ℕ
times i order = count (λ j. j == i) order

-- From the index `k` on, each device has room for as many layers as it stands in the order.
abbrev Room : ℕ → List MemoryDevice → List ℕ → List ℕ → Type 0
Room k [] [] order = Unit
Room k [] (a ∷ xs) order = ⊥
Room k (r ∷ rs) [] order = ⊥
Room k (r ∷ rs) (a ∷ xs) order = (a + times k order ≤ r.max_layers) × Room (suc k) rs xs order

Room-le :
    (k : ℕ) (rs : List MemoryDevice) (xs order order' : List ℕ)
    → ((j : ℕ) → k ≤ j → times j order' ≤ times j order)
    → Room k rs xs order
    → Room k rs xs order'
Room-le k [] [] order order' h r = tt
Room-le k [] (a ∷ xs) order order' h r = r
Room-le k (d ∷ rs) [] order order' h r = r
Room-le k (d ∷ rs) (a ∷ xs) order order' h (le, r) = (
  omega (arith, le, h k (omega arith)),
  Room-le (suc k) rs xs order order' (λ j m. h j (omega (arith, m))) r,
)

Room-Fits : (k : ℕ) (rs : List MemoryDevice) (xs order : List ℕ) → Room k rs xs order → Fits rs xs
Room-Fits k [] [] order r = tt
Room-Fits k [] (a ∷ xs) order r = r
Room-Fits k (d ∷ rs) [] order r = r
Room-Fits k (d ∷ rs) (a ∷ xs) order (le, r) = (omega (arith, le), Room-Fits (suc k) rs xs order r)

increment-Room :
    (k i : ℕ) (rs : List MemoryDevice) (xs order : List ℕ)
    → Room k rs xs ((k + i) ∷ order)
    → Room k rs (increment i xs) order
increment-Room k i [] [] order r = tt
increment-Room k i [] (a ∷ xs) order r = elim r [ ]
increment-Room k i (d ∷ rs) [] order r = elim r [ ]
increment-Room k zero (d ∷ rs) (a ∷ xs) order (le, r) =
    (ground (arith, le), Room-le (suc k) rs xs ((k + 0) ∷ order) order (λ j m. ground (arith, m)) r)
increment-Room k (suc i) (d ∷ rs) (a ∷ xs) order (le, r) = (
  ground (arith, le),
  increment-Room (suc k) i rs xs order (
      Room-le (suc k) rs xs ((k + suc i) ∷ order) ((suc k + i) ∷ order) (λ j m. ground (arith, m))
        r),
)

sum-increment : (i : ℕ) (xs : List ℕ) → i < length xs → sum (increment i xs) ≡ suc (sum xs)
sum-increment i [] h = absurd (omega (arith, h))
sum-increment zero (a ∷ xs) h = omega arith
sum-increment (suc i) (a ∷ xs) h = omega (arith, sum-increment i xs (omega (arith, h)))

length-increment : (i : ℕ) (xs : List ℕ) → length (increment i xs) ≡ length xs
length-increment i [] = refl
length-increment zero (a ∷ xs) = refl
length-increment (suc i) (a ∷ xs) = omega (arith, length-increment i xs)

-- Every index of the order is one of a device.
abbrev Within : ℕ → List ℕ → Type 0
Within n order = All (λ i. i < n) order

-- What handing out keeps: no device gets too much, and no layer is lost.
abbrev pub Handed : List MemoryDevice → ℕ → List ℕ → List ℕ × ℕ → Type 0
Handed rs remaining xs out =
    Fits rs out.0 × (sum out.0 + out.1 ≡ sum xs + remaining) × (out.1 ≤ remaining)

hand_out-Handed :
    (rs : List MemoryDevice) (order : List ℕ) (remaining : ℕ) (xs : List ℕ)
    → Within (length xs) order
    → Room 0 rs xs order
    → Handed rs remaining xs (hand_out order remaining xs)
unfolding hand_out
hand_out-Handed rs [] remaining xs w r = (Room-Fits 0 rs xs [] r, refl, omega arith)
hand_out-Handed rs (i ∷ order) remaining xs (lt, w) r =
    if_elim {A = List ℕ × ℕ} (Handed rs remaining xs) (remaining == 0)
      (λ _. (Room-Fits 0 rs xs (i ∷ order) r, refl, omega arith))
      (λ more.
        let (fits, total, le) =
          hand_out-Handed rs order (remaining - 1) (increment i xs)
            (subst (λ n. Within n order) (sym (length-increment i xs)) w)
            (increment-Room 0 i rs xs order
              (Room-le 0 rs xs (i ∷ order) ((0 + i) ∷ order) (λ j _. ground arith) r)) in
        (fits, ground (arith, more, total, sum-increment i xs lt), omega (arith, le)))

hand_out-less :
    (rs : List MemoryDevice) (order : List ℕ) (remaining : ℕ) (xs : List ℕ)
    → Within (length xs) order
    → Room 0 rs xs order
    → 1 ≤ remaining
    → 1 ≤ length order
    → (hand_out order remaining xs).1 < remaining
unfolding hand_out
hand_out-less rs [] remaining xs w r h l = absurd (omega (arith, l))
hand_out-less rs (i ∷ order) remaining xs (lt, w) r h l =
    let (_, _, le) =
      hand_out-Handed rs order (remaining - 1) (increment i xs)
        (subst (λ n. Within n order) (sym (length-increment i xs)) w)
        (increment-Room 0 i rs xs order
          (Room-le 0 rs xs (i ∷ order) ((0 + i) ∷ order) (λ j _. ground arith) r)) in
    ground (arith, h, le)

-- The order that the code takes.
times-open_below :
    (j k : ℕ) (rs : List MemoryDevice) (xs : List ℕ) → j < k → times j (open_slots k rs xs) ≡ 0
unfolding open_slots
times-open_below j k [] xs h = refl
times-open_below j k (r ∷ rs) [] h = refl
times-open_below j k (r ∷ rs) (a ∷ xs) h = ground (arith, h, times-open_below j (suc k) rs xs)

Room-open :
    (k : ℕ) (rs : List MemoryDevice) (xs : List ℕ) → Fits rs xs → Room k rs xs (open_slots k rs xs)
unfolding open_slots
Room-open k [] [] f = tt
Room-open k [] (a ∷ xs) f = f
Room-open k (r ∷ rs) [] f = f
Room-open k (r ∷ rs) (a ∷ xs) (le, f) = (
  ground (arith, le, times-open_below k (suc k) rs xs),
  Room-le (suc k) rs xs (open_slots (suc k) rs xs) (open_slots k (r ∷ rs) (a ∷ xs))
      (λ j m. ground (arith, m)) (Room-open (suc k) rs xs f),
)

Within-open :
    (k : ℕ) (rs : List MemoryDevice) (xs : List ℕ) → Within (k + length xs) (open_slots k rs xs)
unfolding open_slots
Within-open k [] xs = tt
Within-open k (r ∷ rs) [] = tt
Within-open k (r ∷ rs) (a ∷ xs) =
    let rest : Within (k + suc (length xs)) (open_slots (suc k) rs xs) =
      subst (λ n. Within n (open_slots (suc k) rs xs)) (omega arith) (Within-open (suc k) rs xs) in
    if_elim {A = List ℕ} (Within (k + suc (length xs))) (ltb a r.max_layers)
      (λ _. (omega arith, rest)) (λ _. rest)

length-open :
    (k : ℕ) (rs : List MemoryDevice) (xs : List ℕ)
    → Fits rs xs
    → sum xs < max_sum rs
    → 1 ≤ length (open_slots k rs xs)
unfolding open_slots
length-open k [] [] f h = absurd (omega (arith, h))
length-open k [] (a ∷ xs) f h = elim f [ ]
length-open k (r ∷ rs) [] f h = elim f [ ]
length-open k (r ∷ rs) (a ∷ xs) (le, f) h = ground (arith, le, h, length-open (suc k) rs xs f)

module _ (rs : List MemoryDevice) (remainders xs : List ℕ) (remaining : ℕ) (fits : Fits rs xs) where
  order : List ℕ
  order = sort_by (by_remainder remainders) (open_slots 0 rs xs)

  order-Within : Within (length xs) order
  unfolding order
  order-Within =
      All-sort_by (λ i. i < length xs) (by_remainder remainders) (open_slots 0 rs xs)
        (subst (λ n. Within n (open_slots 0 rs xs)) (omega arith) (Within-open 0 rs xs))

  order-Room : Room 0 rs xs order
  unfolding order
  order-Room =
      Room-le 0 rs xs (open_slots 0 rs xs) order
        (λ j _. omega (
          arith,
          count-sort_by {A = ℕ} (λ i. i == j) (by_remainder remainders) (open_slots 0 rs xs),
        ))
        (Room-open 0 rs xs fits)

  -- Handing out by the largest remainder keeps the layers and the limits.
  pub hand_out_by-Handed : Handed rs remaining xs (hand_out_by rs remainders remaining xs)
  unfolding hand_out_by order
  hand_out_by-Handed = hand_out-Handed rs order remaining xs order-Within order-Room

  -- And it hands out at least one, while the devices have room.
  pub hand_out_by-less :
      1 ≤ remaining → sum xs < max_sum rs → (hand_out_by rs remainders remaining xs).1 < remaining
  unfolding hand_out_by order
  hand_out_by-less h room = hand_out-less rs order remaining xs order-Within order-Room h (
      omega (
        arith,
        length-sort_by {A = ℕ} (by_remainder remainders) (open_slots 0 rs xs),
        length-open 0 rs xs fits room,
      ))
