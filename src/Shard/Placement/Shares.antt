-- ===== src/Shard/Placement/Shares.antt =====
-- internal/shard/plan_placement.go: the shares by free memory, which never exceed the layers that
-- there are to hand out nor the room of a device.
use native.Mathlib.Nat.{
  mul-le-mul_left, mul-le-mul_right, div-mul-le_self, div-lt_iff_lt-mul, le_of_mul-le-mul_left,
  mul-add, mul_comm, add_assoc, le_trans,
}
use m_aistr.Prelude.{
  ℕ, ◌+◌, ◌-◌, ◌*◌, ◌/◌, ◌%◌, ◌≤◌, ◌<◌, ◌==◌, ltb, leb, ◌≡◌, refl, ap, subst, arith, Option, none,
  some, List, [], ◌∷◌, All, if◌then◌else◌, if_elim,
}
use m_aistr.Shard.Memory.{max_uint64, multiply_divide_floor_rem}
use m_aistr.Shard.Placement.{
  MemoryDevice, total_capacity, max_layer_capacity, Shares, push, cap_at, first_shares,
  active_weight, round_shares,
}

abbrev pub sum : List ℕ → ℕ
sum [] = 0
sum (n ∷ ns) = n + sum ns

abbrev pub free_sum : List MemoryDevice → ℕ
free_sum [] = 0
free_sum (r ∷ rs) = r.free_bytes + free_sum rs

abbrev pub max_sum : List MemoryDevice → ℕ
max_sum [] = 0
max_sum (r ∷ rs) = r.max_layers + max_sum rs

-- An assignment for each device, and none above what it can hold.
abbrev pub Fits : List MemoryDevice → List ℕ → Type 0
Fits [] [] = Unit
Fits [] (a ∷ xs) = ⊥
Fits (r ∷ rs) [] = ⊥
Fits (r ∷ rs) (a ∷ xs) = (a ≤ r.max_layers) × Fits rs xs

abbrev pub active_sum : List MemoryDevice → List ℕ → ℕ
active_sum [] xs = 0
active_sum (r ∷ rs) [] = 0
active_sum (r ∷ rs) (a ∷ xs) =
    if ltb a r.max_layers then r.free_bytes + active_sum rs xs else active_sum rs xs

pub active-le-free : (rs : List MemoryDevice) (xs : List ℕ) → active_sum rs xs ≤ free_sum rs
active-le-free [] xs = omega arith
active-le-free (r ∷ rs) [] = omega arith
active-le-free (r ∷ rs) (a ∷ xs) = ground (arith, active-le-free rs xs)

pub active_weight-sum :
    (rs : List MemoryDevice) (xs : List ℕ) (w : ℕ)
    → w + free_sum rs ≤ max_uint64
    → active_weight rs xs w ≡ some (w + active_sum rs xs)
unfolding active_weight
active_weight-sum [] xs w h = ap some (omega arith)
active_weight-sum (r ∷ rs) [] w h = ap some (omega arith)
active_weight-sum (r ∷ rs) (a ∷ xs) w h = ground (
  arith,
  h,
  active_weight-sum rs xs (w + r.free_bytes),
  active_weight-sum rs xs w,
  ap some (add_assoc w r.free_bytes (active_sum rs xs)),
)

pub total_capacity-sum :
    (rs : List MemoryDevice) (w : ℕ)
    → w + free_sum rs ≤ max_uint64
    → total_capacity rs w ≡ some (w + free_sum rs)
unfolding total_capacity
total_capacity-sum [] w h = ap some (omega arith)
total_capacity-sum (r ∷ rs) w h = ground (
  arith,
  h,
  total_capacity-sum rs (w + r.free_bytes),
  ap some (add_assoc w r.free_bytes (free_sum rs)),
)

-- The loop that adds up what the devices can hold stops at the number of layers.
pub max_layer_capacity-lt :
    (layers : ℕ) (rs : List MemoryDevice) (c : ℕ)
    → c ≤ layers
    → ltb (max_layer_capacity layers rs c) layers ≡ ltb (c + max_sum rs) layers
unfolding max_layer_capacity
max_layer_capacity-lt layers [] c h = ground arith
max_layer_capacity-lt layers (r ∷ rs) c h =
    ground (arith, h, max_layer_capacity-lt layers rs (c + r.max_layers))

-- A part of a whole is a number of 64 bits again.
pub floor-some :
    (layers free weight : ℕ)
    → layers ≤ max_uint64
    → free ≤ weight
    → 1 ≤ weight
    → multiply_divide_floor_rem layers free weight
      ≡ some (layers * free / weight, layers * free % weight)
unfolding multiply_divide_floor_rem
floor-some layers free weight hl hf hw =
    let small : layers * free < weight * 18446744073709551616 = omega (
      arith,
      mul-le-mul_left layers hf,
      mul-le-mul_right weight hl,
      mul_comm layers weight,
      mul_comm max_uint64 weight,
    ) in
    let high =
      (div-lt_iff_lt-mul {k = 18446744073709551616} {x = layers * free} {y = weight}
          (omega arith)).1
        small in
    ground (arith, hw, high)

-- One device's part: its weighted share.
share-le :
    (layers free weight cap : ℕ) → weight * cap_at cap (layers * free / weight) ≤ layers * free
share-le layers free weight cap =
    le_trans (mul-le-mul_left weight (at_most cap (layers * free / weight))) (
      omega
        (arith, div-mul-le_self (layers * free) weight, mul_comm weight (layers * free / weight)))
  where
    at_most : (c s : ℕ) → cap_at c s ≤ s
    at_most c s = ground arith

-- What the loops over the devices give.
abbrev pub Shared : List MemoryDevice → ℕ → ℕ → ℕ → ℕ → Option Shares → Type 0
Shared rs layers weight part before none = ⊥
Shared rs layers weight part before (some (xs, remainders, taken)) =
    Fits rs xs × (sum xs ≡ before + taken) × (weight * taken ≤ layers * part)

push-Shared :
    (layers weight : ℕ) (r : MemoryDevice) (rs : List MemoryDevice) (f part b before a m s : ℕ)
    (rest : Option Shares)
    → Shared rs layers weight part before rest
    → a ≤ r.max_layers
    → a ≡ b + s
    → weight * s ≤ layers * f
    → Shared (r ∷ rs) layers weight (f + part) (b + before) (push a m s rest)
push-Shared layers weight r rs f part b before a m s none h le e w = h
push-Shared layers weight r rs f part b before a m s (some (xs, ms, taken)) (fits, total, w') le e
      w =
    (
      (le, fits),
      omega (arith, e, total),
      omega (arith, w, w', mul-add weight s taken, mul-add layers f part),
    )

cap_at-le : (cap share : ℕ) → cap_at cap share ≤ cap
cap_at-le cap share = ground arith

pub first_shares-Shared :
    (layers weight : ℕ) (rs : List MemoryDevice)
    → layers ≤ max_uint64
    → 1 ≤ weight
    → free_sum rs ≤ weight
    → Shared rs layers weight (free_sum rs) 0 (first_shares layers weight rs)
unfolding first_shares
first_shares-Shared layers weight [] hl hw hf = (tt, refl, omega arith)
first_shares-Shared layers weight (r ∷ rs) hl hw hf =
    let rest = first_shares-Shared layers weight rs hl hw (omega (arith, hf)) in
    let share = layers * r.free_bytes / weight in
    let taken = cap_at r.max_layers share in
    let pushed = push-Shared layers weight r rs r.free_bytes (free_sum rs) 0 0 in
    if_elim {A = Option Shares} (Shared (r ∷ rs) layers weight (r.free_bytes + free_sum rs) 0)
      (r.free_bytes == 0)
      (λ _. pushed 0 0 0 (first_shares layers weight rs) rest (omega arith) refl (omega arith))
      (λ _. rw (floor-some layers r.free_bytes weight hl (omega (arith, hf)) hw) (
        pushed taken (layers * r.free_bytes % weight) taken (first_shares layers weight rs) rest
          (cap_at-le r.max_layers share) (omega arith)
          (share-le layers r.free_bytes weight r.max_layers)))

pub round_shares-Shared :
    (layers weight : ℕ) (rs : List MemoryDevice) (xs : List ℕ)
    → layers ≤ max_uint64
    → 1 ≤ weight
    → active_sum rs xs ≤ weight
    → Fits rs xs
    → Shared rs layers weight (active_sum rs xs) (sum xs) (round_shares layers weight rs xs)
unfolding round_shares
round_shares-Shared layers weight [] [] hl hw hf h = (tt, refl, omega arith)
round_shares-Shared layers weight [] (a ∷ xs) hl hw hf h = elim h [ ]
round_shares-Shared layers weight (r ∷ rs) [] hl hw hf h = elim h [ ]
round_shares-Shared layers weight (r ∷ rs) (a ∷ xs) hl hw hf (le, h) =
    let go = round_shares-Shared layers weight rs xs hl hw in
    let rest = round_shares layers weight rs xs in
    let Goal =
      λ (part : ℕ) (out : Option Shares). Shared (r ∷ rs) layers weight part (a + sum xs) out in
    if_elim {A = Option Shares} (Goal (active_sum (r ∷ rs) (a ∷ xs))) (leb r.max_layers a)
      (λ full.
        let part : 0 + active_sum rs xs ≡ active_sum (r ∷ rs) (a ∷ xs) = ground (arith, full) in
        subst (λ p. Goal p (push a 0 0 rest)) part
          (push-Shared layers weight r rs 0 (active_sum rs xs) a (sum xs) a 0 0 rest
            (go (omega (arith, part, hf)) h) le (omega arith) (omega arith)))
      (λ room.
        let part : r.free_bytes + active_sum rs xs ≡ active_sum (r ∷ rs) (a ∷ xs) =
          ground (arith, room) in
        let cap = r.max_layers - a in
        let share = layers * r.free_bytes / weight in
        rw (floor-some layers r.free_bytes weight hl (omega (arith, part, hf)) hw) (
          subst
            (λ p. Goal p (
              push (a + cap_at cap share) (layers * r.free_bytes % weight) (cap_at cap share) rest))
            part
            (push-Shared layers weight r rs r.free_bytes (active_sum rs xs) a (sum xs)
              (a + cap_at cap share) (layers * r.free_bytes % weight) (cap_at cap share) rest
              (go (omega (arith, part, hf)) h) (omega (arith, le, cap_at-le cap share)) refl
              (share-le layers r.free_bytes weight cap))))

-- The layers handed out are no more than there were.
pub taken-le :
    (layers weight part taken : ℕ)
    → 1 ≤ weight
    → part ≤ weight
    → weight * taken ≤ layers * part
    → taken ≤ layers
taken-le layers weight part taken hw hp h =
    le_of_mul-le-mul_left (omega (arith, h, mul-le-mul_left layers hp, mul_comm weight layers)) hw

-- A device with room makes the weight positive.
pub active-pos :
    (rs : List MemoryDevice) (xs : List ℕ)
    → All (λ r. 1 ≤ r.free_bytes) rs
    → Fits rs xs
    → sum xs < max_sum rs
    → 1 ≤ active_sum rs xs
active-pos [] [] f h lt = absurd (omega (arith, lt))
active-pos [] (a ∷ xs) f h lt = elim h [ ]
active-pos (r ∷ rs) [] f h lt = elim h [ ]
active-pos (r ∷ rs) (a ∷ xs) (free, f) (le, h) lt =
    ground (arith, free, le, lt, active-pos rs xs f h)

pub sum-le-max : (rs : List MemoryDevice) (xs : List ℕ) → Fits rs xs → sum xs ≤ max_sum rs
sum-le-max [] [] h = omega arith
sum-le-max [] (a ∷ xs) h = elim h [ ]
sum-le-max (r ∷ rs) [] h = elim h [ ]
sum-le-max (r ∷ rs) (a ∷ xs) (le, h) = omega (arith, le, sum-le-max rs xs h)
