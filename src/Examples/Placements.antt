-- ===== src/Examples/Placements.antt =====
-- internal/shard: a model of 10 layers on two devices.
use m_aistr.Prelude.{
  leb, if◌then◌else◌, ℕ, sym, subst, ◌≤◌, ◌≡◌, refl, arith, true, some, none, List, [], ◌∷◌, All,
}
use m_aistr.Shard.Memory.{
  max_uint64, mb_to_bytes, multiply_divide_ceil, add_two, ModelProfile, model_kv_bytes,
}
use m_aistr.Shard.Memory.Products.{kv_product, model_kv_bytes-product}
use m_aistr.Shard.Placement.{
  MemoryDevice, assigned, refused, proportional_layer_assignments, maximum_layers_that_fit,
}
use m_aistr.Shard.Placement.Assigned.{IsPlacement, proportional-IsPlacement, proportional-refused}
use m_aistr.Shard.Placement.Shares.{free_sum, max_sum}
use m_aistr.Shard.Placement.Fit.{fit, maximum_layers-IsMost}
use m_aistr.Shard.Llama.{DeviceAllocation, make_memory_device, measure_devices, plan_layers}
use m_aistr.Shard.Llama.Allocated.{Covers, AreOn, IsWithin, plan_layers-Covers}

abbrev small : MemoryDevice
small = record { free_bytes = 100; usable_bytes = 90; max_layers = 3 }

abbrev large : MemoryDevice
large = record { free_bytes = 300; usable_bytes = 290; max_layers = 9 }

proportional-IsPlacement_example :
    (xs : List ℕ) × (proportional_layer_assignments (small ∷ large ∷ []) 10 ≡ assigned xs)
    × IsPlacement (small ∷ large ∷ []) 10 xs
proportional-IsPlacement_example =
    proportional-IsPlacement small (large ∷ []) 10
      (record { free = omega arith; total = omega arith }) (omega arith) (omega arith)

proportional-refused_example : proportional_layer_assignments (small ∷ []) 10 ≡ refused
proportional-refused_example = proportional-refused (small ∷ []) 10 (omega arith)

maximum_layers-IsMost_example :
    (r : ℕ) × (maximum_layers_that_fit 90 200 40 10 ≡ some r)
    × (r ≤ 10)
    × (fit 90 200 40 10 r ≡ true)
    × ((m : ℕ) → m ≤ 10 → fit 90 200 40 10 m ≡ true → m ≤ r)
maximum_layers-IsMost_example = maximum_layers-IsMost 90 200 40 10 (omega arith)

abbrev profile : ModelProfile
profile = record { layer_count = 10; kv_heads = 8; head_dim = 128; requested_context = 4096 }

model_kv_bytes-product_example :
    model_kv_bytes profile 2
    ≡ (if leb (kv_product profile 2) max_uint64 then some (kv_product profile 2) else none)
model_kv_bytes-product_example =
    model_kv_bytes-product profile 2
      (omega arith, omega arith, omega arith, omega arith, omega arith)

-- Two devices with 2 and 4 free megabytes, and one that the margin excludes.
abbrev measured_devices : List MemoryDevice
measured_devices =
    record { free_bytes = 2097152; usable_bytes = 1048576; max_layers = 3 }
    ∷ record { free_bytes = 4194304; usable_bytes = 3145728; max_layers = 9 }
    ∷ []

measured : measure_devices 3000000 200000 1048576 10 (2 ∷ 4 ∷ 1 ∷ []) ≡ measured_devices
unfolding measure_devices make_memory_device mb_to_bytes maximum_layers_that_fit
    multiply_divide_ceil add_two
measured = refl

plan_layers-Covers_example :
    (out : List DeviceAllocation) × (plan_layers 3000000 200000 1048576 10 (2 ∷ 4 ∷ 1 ∷ [])
      ≡ some out)
    × Covers 0 10 out
    × All (IsWithin 3000000 200000 1048576 10) out
    × AreOn (2 ∷ 4 ∷ 1 ∷ []) out
plan_layers-Covers_example =
    plan_layers-Covers 3000000 200000 1048576 10 (omega arith) (2 ∷ 4 ∷ 1 ∷ [])
      (subst (λ rs. free_sum rs ≤ max_uint64) (sym measured) (omega arith)) (omega arith)
      (subst (λ rs. 10 ≤ max_sum rs) (sym measured) (omega arith))
