-- ===== src/Shard/Llama.antt =====
-- internal/shard/plan_llama.go and plan_memory.go: the plan for llama.cpp, from the free memory of
-- the devices that are eligible to the layers and bytes of each.
pub mod Allocated
use m_aistr.Prelude.{
  ℕ, zero, suc, ◌+◌, ◌-◌, ◌==◌, ltb, leb, Bool, true, false, Option, none, some, List, [], ◌∷◌,
  if◌then◌else◌,
}
use m_aistr.Shard.Memory.{max_uint64, mb_to_bytes, multiply_divide_ceil, add_three}
use m_aistr.Shard.Placement.{
  MemoryDevice, Assignment, assigned, refused, out_of_fuel, proportional_layer_assignments,
  maximum_layers_that_fit,
}

pub record DeviceAllocation : Type 0 where
  pub start_layer : ℕ
  pub end_layer : ℕ
  pub weights_bytes : ℕ
  pub kv_cache_bytes : ℕ
  pub safety_margin_bytes : ℕ
  pub required_bytes : ℕ
  pub free_memory_bytes : ℕ

abbrev or_else : ℕ → Option ℕ → ℕ
or_else n none = n
or_else n (some m) = m

unfoldable pub make_allocation : ℕ → ℕ → ℕ → ℕ → ℕ → ℕ → DeviceAllocation
make_allocation start_layer end_layer weights_bytes kv_bytes margin_bytes free_bytes = record {
  start_layer = start_layer;
  end_layer = end_layer;
  weights_bytes = weights_bytes;
  kv_cache_bytes = kv_bytes;
  safety_margin_bytes = margin_bytes;
  required_bytes = or_else max_uint64 (add_three weights_bytes kv_bytes margin_bytes);
  free_memory_bytes = free_bytes;
}

-- `none` stands for a device that is not ok.
unfoldable pub make_memory_device : ℕ → ℕ → Option MemoryDevice
make_memory_device free_memory_mb margin_bytes = elim (mb_to_bytes free_memory_mb) [
  | none ↦ none
  | some free ↦
      if leb free margin_bytes
      then none
      else some (record { free_bytes = free; usable_bytes = free - margin_bytes; max_layers = 0 })
]

module _ (weights_bytes kv_bytes margin_bytes layer_count : ℕ) where
  -- The loop over the devices that passed the filters, given by their free megabytes. A search that
  -- runs out of fuel would count as 0 layers, and none does.
  measure : MemoryDevice → MemoryDevice
  measure entry = record entry {
    max_layers =
        or_else 0 (maximum_layers_that_fit entry.usable_bytes weights_bytes kv_bytes layer_count);
  }

  unfoldable pub measure_devices : List ℕ → List MemoryDevice
  unfolding measure
  measure_devices [] = []
  measure_devices (mb ∷ mbs) = elim (make_memory_device mb margin_bytes) [
    | none ↦ measure_devices mbs
    | some entry ↦ measure entry ∷ measure_devices mbs
  ]

  -- The allocation of one device, and the loop of buildLlamaPlan over the devices from a layer on;
  -- `none` stands for its errors.
  allocate : ℕ → ℕ → MemoryDevice → Option DeviceAllocation
  allocate start count r = elim (multiply_divide_ceil weights_bytes count layer_count) [
    | none ↦ none
    | some weight_part ↦ elim (multiply_divide_ceil kv_bytes count layer_count) [
      | none ↦ none
      | some kv_part ↦
          let allocation =
            make_allocation start (start + count) weight_part kv_part margin_bytes r.free_bytes in
          if ltb allocation.free_memory_bytes allocation.required_bytes
          then none
          else some allocation
    ]
  ]

  put_first :
      Option DeviceAllocation → Option (List DeviceAllocation) → Option (List DeviceAllocation)
  put_first none rest = none
  put_first (some a) none = none
  put_first (some a) (some rest) = some (a ∷ rest)

  unfoldable pub build_allocations : ℕ → List MemoryDevice → List ℕ → Option (List DeviceAllocation)
  unfolding allocate put_first
  build_allocations layer [] counts = if layer == layer_count then some [] else none
  build_allocations layer (r ∷ rs) [] = if layer == layer_count then some [] else none
  build_allocations layer (r ∷ rs) (count ∷ counts) =
      let skipped = build_allocations layer rs counts in
      let rest = build_allocations (layer + count) rs counts in
      if count == 0 then skipped else put_first (allocate layer count r) rest

  build_from : List MemoryDevice → Assignment → Option (List DeviceAllocation)
  unfolding build_allocations
  build_from rs (assigned counts) = build_allocations 0 rs counts
  build_from rs refused = none
  build_from rs out_of_fuel = none

  -- The allocations of planLlamaCPPRPC, from the free megabytes of the eligible devices; `none`
  -- stands for its refusals.
  unfoldable pub plan_layers : List ℕ → Option (List DeviceAllocation)
  unfolding build_from
  plan_layers mbs =
      let rs = measure_devices mbs in build_from rs (proportional_layer_assignments rs layer_count)
