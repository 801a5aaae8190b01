-- ===== src/Shard/Placement/Layers.antt =====
-- internal/shard/plan_placement.go: layerRange.
use native.Mathlib.Nat.{mod-lt, div-add-mod, suc-mul, mul_comm}
use m_aistr.Prelude.{ℕ, suc, ◌+◌, ◌/◌, ◌%◌, ◌≤◌, ◌<◌, ◌≡◌, arith}
use m_aistr.Shard.Placement.{layer_range}

-- For one partition or more, the ranges of layerRange join: the first starts at 0, each ends where
-- the next one starts, and the last ends behind the last layer.
pub layer_range_join :
    (total n : ℕ)
    → ((layer_range total (suc n) 0).0 ≡ 0)
      × ((layer_range total (suc n) n).1 ≡ total)
      × ((index : ℕ)
          → (layer_range total (suc n) index).1 ≡ (layer_range total (suc n) (suc index)).0)
unfolding layer_range
layer_range_join total n =
    let base = total / suc n in
    let rest : total % suc n < suc n = mod-lt total (omega arith) in
    (
      ground (arith, rest),
      ground (arith, rest, div-add-mod total (suc n), suc-mul n base, mul_comm (suc n) base),
      (λ index. ground (arith, suc-mul index base)),
    )

-- Their sizes differ by one layer at most.
pub layer_range_even :
    (total partitions index : ℕ)
    → ((layer_range total partitions index).0 + total / partitions
        ≤ (layer_range total partitions index).1)
      × ((layer_range total partitions index).1
          ≤ (layer_range total partitions index).0 + total / partitions + 1)
unfolding layer_range
layer_range_even total partitions index = ground arith
