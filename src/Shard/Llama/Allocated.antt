-- ===== src/Shard/Llama/Allocated.antt =====
-- internal/shard/plan_llama.go: a plan gives every layer to a device, and no device more than its
-- free memory less the margin.
use m_aistr.Prelude.{
  ℕ, ◌+◌, ◌-◌, ◌*◌, ◌⊎◌, inl, inr, ◌≤◌, ◌<◌, ◌==◌, ◌≡◌, refl, sym, ap, ◌∙◌, subst, arith, true,
  Option, none, some, List, [], ◌∷◌, All, if_elim,
}
use m_aistr.Shard.Memory.{max_uint64, mebibyte, mb_to_bytes, add_two, add_three}
use m_aistr.Shard.Placement.{MemoryDevice, assigned, proportional_layer_assignments}
use m_aistr.Shard.Placement.Shares.{sum, free_sum, max_sum, Fits}
use m_aistr.Shard.Placement.Assigned.{IsPlacement, AreUsable, proportional-IsPlacement}
use m_aistr.Shard.Placement.Fit.{
  fit, fit_parts, fit_down, maximum_layers-IsMost, IsPart, ceil-IsPart,
}
use m_aistr.Shard.Llama.{
  DeviceAllocation, or_else, make_allocation, make_memory_device, measure, measure_devices,
  allocate, put_first, build_allocations, build_from, plan_layers,
}

-- Allocations that join, from a layer to another.
abbrev pub Covers : ℕ → ℕ → List DeviceAllocation → Type 0
Covers from to [] = from ≡ to
Covers from to (a ∷ rest) =
    (a.start_layer ≡ from) × (from < a.end_layer) × Covers a.end_layer to rest

-- An allocation whose needs are what its layers' part of the weights and of the cache and the
-- margin make up, within the free memory.
abbrev pub IsWithin : ℕ → ℕ → ℕ → ℕ → DeviceAllocation → Type 0
IsWithin weights_bytes kv_bytes margin_bytes layer_count a =
    IsPart weights_bytes (a.end_layer - a.start_layer) layer_count a.weights_bytes
    × IsPart kv_bytes (a.end_layer - a.start_layer) layer_count a.kv_cache_bytes
    × (a.safety_margin_bytes ≡ margin_bytes)
    × (a.required_bytes ≡ a.weights_bytes + a.kv_cache_bytes + a.safety_margin_bytes)
    × (a.required_bytes ≤ a.free_memory_bytes)

-- The allocations are on different devices of a list of free megabytes, in its order, each with the
-- free memory of its device.
abbrev pub AreOn : List ℕ → List DeviceAllocation → Type 0
AreOn mbs [] = Unit
AreOn [] (a ∷ out) = ⊥
AreOn (mb ∷ mbs) (a ∷ out) =
    ((a.free_memory_bytes ≡ mb * mebibyte) × AreOn mbs out) ⊎ AreOn mbs (a ∷ out)

-- The same of devices that are measured.
abbrev AreOnDevices : List MemoryDevice → List DeviceAllocation → Type 0
AreOnDevices rs [] = Unit
AreOnDevices [] (a ∷ out) = ⊥
AreOnDevices (r ∷ rs) (a ∷ out) =
    ((a.free_memory_bytes ≡ r.free_bytes) × AreOnDevices rs out) ⊎ AreOnDevices rs (a ∷ out)

AreOnDevices-skip :
    (r : MemoryDevice) (rs : List MemoryDevice) (out : List DeviceAllocation)
    → AreOnDevices rs out
    → AreOnDevices (r ∷ rs) out
AreOnDevices-skip r rs [] h = tt
AreOnDevices-skip r rs (a ∷ out) h = inr h

AreOn-skip :
    (mb : ℕ) (mbs : List ℕ) (out : List DeviceAllocation) → AreOn mbs out → AreOn (mb ∷ mbs) out
AreOn-skip mb mbs [] h = tt
AreOn-skip mb mbs (a ∷ out) h = inr h

module _ (weights_bytes kv_bytes margin_bytes layer_count : ℕ) (pos : 1 ≤ layer_count) where
  abbrev Within : DeviceAllocation → Type 0
  Within a = IsWithin weights_bytes kv_bytes margin_bytes layer_count a

  -- A device as the loop over the devices leaves it.
  record IsMeasured (r : MemoryDevice) : Type 0 where
    margin : r.usable_bytes + margin_bytes ≡ r.free_bytes
    some_free : 1 ≤ r.free_bytes
    small : r.free_bytes ≤ max_uint64
    most_fits : fit r.usable_bytes weights_bytes kv_bytes layer_count r.max_layers ≡ true

  made :
      (mb : ℕ) (r : MemoryDevice)
      → make_memory_device mb margin_bytes ≡ some r
      → (r.usable_bytes + margin_bytes ≡ r.free_bytes)
        × (1 ≤ r.free_bytes)
        × (r.free_bytes ≤ max_uint64)
        × (r.free_bytes ≡ mb * mebibyte)
  unfolding make_memory_device mb_to_bytes
  made mb r h = ground (arith, h)

  measure-IsMeasured :
      (mb : ℕ) (r : MemoryDevice)
      → make_memory_device mb margin_bytes ≡ some r
      → IsMeasured (measure weights_bytes kv_bytes margin_bytes layer_count r)
  unfolding measure
  measure-IsMeasured mb r h =
      let (m, free, small, _) = made mb r h in
      let (n, e, _, fits, _) =
        maximum_layers-IsMost r.usable_bytes weights_bytes kv_bytes layer_count pos in
      record {
        margin = m;
        some_free = free;
        small = small;
        most_fits =
            subst (λ k. fit r.usable_bytes weights_bytes kv_bytes layer_count k ≡ true)
              (sym (ap (or_else 0) e)) fits;
      }

  measured :
      (mbs : List ℕ)
      → All IsMeasured (measure_devices weights_bytes kv_bytes margin_bytes layer_count mbs)
  unfolding measure_devices
  measured [] = tt
  measured (mb ∷ mbs) = go (make_memory_device mb margin_bytes) refl (measured mbs)
    where
      go :
          (o : Option MemoryDevice)
          → make_memory_device mb margin_bytes ≡ o
          → All IsMeasured (measure_devices weights_bytes kv_bytes margin_bytes layer_count mbs)
          → All IsMeasured (elim o as (λ _. List MemoryDevice) [
            | none ↦ measure_devices weights_bytes kv_bytes margin_bytes layer_count mbs
            | some entry ↦
                measure weights_bytes kv_bytes margin_bytes layer_count entry
                ∷ measure_devices weights_bytes kv_bytes margin_bytes layer_count mbs
          ])
      go none e rest = rest
      go (some r) e rest = (measure-IsMeasured mb r e, rest)

  -- The checks of buildLlamaPlan never fail on a device that is measured.
  allocate-IsWithin :
      (start count : ℕ) (r : MemoryDevice)
      → IsMeasured r
      → count ≤ r.max_layers
      → (a : DeviceAllocation) × (allocate weights_bytes kv_bytes margin_bytes layer_count start
            count r
          ≡ some a)
        × (a.start_layer ≡ start)
        × (a.end_layer ≡ start + count)
        × Within a
        × (a.free_memory_bytes ≡ r.free_bytes)
  unfolding allocate make_allocation add_three add_two
  allocate-IsWithin start count r m le =
      let (w, (k, e, f, small, within)) =
        fit_parts r.usable_bytes weights_bytes kv_bytes layer_count count (
          fit_down r.usable_bytes weights_bytes kv_bytes layer_count count r.max_layers le
            m.most_fits) in
      let whole : add_three w k margin_bytes ≡ some (w + k + margin_bytes) =
        ground (arith, small, within, m.margin, m.small) in
      (
        make_allocation start (start + count) w k margin_bytes r.free_bytes,
        ground (arith, e, f, whole, within, m.margin),
        refl,
        refl,
        (
          part weights_bytes w (ceil-IsPart weights_bytes count layer_count w e),
          part kv_bytes k (ceil-IsPart kv_bytes count layer_count k f),
          refl,
          ap (or_else max_uint64) whole,
          ground (arith, whole, within, m.margin),
        ),
        refl,
      )
    where
      part :
          (total p : ℕ)
          → IsPart total count layer_count p
          → IsPart total (start + count - start) layer_count p
      part total p h = subst (λ n. IsPart total n layer_count p) (omega arith) h

  build-Covers :
      (layer : ℕ) (rs : List MemoryDevice) (counts : List ℕ)
      → All IsMeasured rs
      → Fits rs counts
      → layer + sum counts ≡ layer_count
      → (out : List DeviceAllocation) × (build_allocations weights_bytes kv_bytes margin_bytes
            layer_count layer rs counts
          ≡ some out)
        × Covers layer layer_count out
        × All Within out
        × AreOnDevices rs out
  unfolding build_allocations put_first
  build-Covers layer [] [] m f h = ([], ground (arith, h), omega (arith, h), tt, tt)
  build-Covers layer [] (c ∷ counts) m f h = elim f [ ]
  build-Covers layer (r ∷ rs) [] m f h = elim f [ ]
  build-Covers layer (r ∷ rs) (c ∷ counts) (mr, m) (le, f) h =
      if_elim {A = Option (List DeviceAllocation)}
        (λ o.
          (out : List DeviceAllocation) × (o ≡ some out)
          × Covers layer layer_count out
          × All Within out
          × AreOnDevices (r ∷ rs) out)
        (c == 0)
        (λ none_here.
          let (out, e, covers, all_within, on) =
            build-Covers layer rs counts m f (ground (arith, none_here, h)) in
          (out, e, covers, all_within, AreOnDevices-skip r rs out on))
        (λ some_here.
          let (a, e, s, t, within, here) = allocate-IsWithin layer c r mr le in
          let (out, e', covers, all_within, on) =
            build-Covers (layer + c) rs counts m f (omega (arith, h)) in
          (
            a ∷ out,
            rw e (rw e' refl),
            (s, ground (arith, some_here, t), subst (λ n. Covers n layer_count out) (sym t) covers),
            (within, all_within),
            inl (here, on),
          ))

  on_devices :
      (mbs : List ℕ) (out : List DeviceAllocation)
      → AreOnDevices (measure_devices weights_bytes kv_bytes margin_bytes layer_count mbs) out
      → AreOn mbs out
  unfolding measure_devices measure
  on_devices [] [] h = tt
  on_devices [] (a ∷ out) h = h
  on_devices (mb ∷ mbs) out h =
      go (make_memory_device mb margin_bytes) refl out (λ o. on_devices mbs o) h
    where
      go :
          (o : Option MemoryDevice)
          → make_memory_device mb margin_bytes ≡ o
          → (out : List DeviceAllocation)
          → ((o : List DeviceAllocation)
              → AreOnDevices (measure_devices weights_bytes kv_bytes margin_bytes layer_count mbs) o
              → AreOn mbs o)
          → AreOnDevices
              (elim o as (λ _. List MemoryDevice) [
                | none ↦ measure_devices weights_bytes kv_bytes margin_bytes layer_count mbs
                | some entry ↦
                    measure weights_bytes kv_bytes margin_bytes layer_count entry
                    ∷ measure_devices weights_bytes kv_bytes margin_bytes layer_count mbs
              ])
              out
          → AreOn (mb ∷ mbs) out
      go none e out rest k = AreOn-skip mb mbs out (rest out k)
      go (some r) e [] rest k = tt
      go (some r) e (a ∷ out) rest (inl (free, k)) = inl (free ∙ (made mb r e).3, rest out k)
      go (some r) e (a ∷ out) rest (inr k) = inr (rest (a ∷ out) k)

  module _ (mbs : List ℕ) where
    abbrev resources : List MemoryDevice
    resources = measure_devices weights_bytes kv_bytes margin_bytes layer_count mbs

    build_from-Covers :
        (xs : List ℕ)
        → proportional_layer_assignments resources layer_count ≡ assigned xs
        → IsPlacement resources layer_count xs
        → (out : List DeviceAllocation) × (plan_layers weights_bytes kv_bytes margin_bytes
              layer_count mbs
            ≡ some out)
          × Covers 0 layer_count out
          × All Within out
          × AreOn mbs out
    unfolding plan_layers build_from
    build_from-Covers xs e p =
        let (out, made_out, covers, within, on) =
          build-Covers 0 resources xs (measured mbs) p.fits (omega (arith, p.complete)) in
        (out, rw e made_out, covers, within, on_devices mbs out on)

    frees : (rs : List MemoryDevice) → All IsMeasured rs → All (λ r. 1 ≤ r.free_bytes) rs
    frees [] m = tt
    frees (r ∷ rs) (mr, m) = (mr.some_free, frees rs m)

    -- Let a model have a layer at least, let the eligible devices' free memory and the number of
    -- layers be numbers of 64 bits, and let the devices together hold all layers. Then the plan is
    -- made: its allocations start at layer 0, each starts where the one before ends and has a
    -- layer at least, the last ends behind the last layer; they are on different devices, in the
    -- order of the list; and each needs its layers' part of the weights and of the cache, rounded
    -- up, and the margin, together no more than the free memory of its device.
    pub plan_layers-Covers :
        free_sum resources ≤ max_uint64
        → layer_count ≤ max_uint64
        → layer_count ≤ max_sum resources
        → (out : List DeviceAllocation) × (plan_layers weights_bytes kv_bytes margin_bytes
              layer_count mbs
            ≡ some out)
          × Covers 0 layer_count out
          × All Within out
          × AreOn mbs out
    plan_layers-Covers total small enough = placed resources refl total enough
      where
        placed :
            (rs : List MemoryDevice)
            → resources ≡ rs
            → free_sum rs ≤ max_uint64
            → layer_count ≤ max_sum rs
            → (out : List DeviceAllocation) × (plan_layers weights_bytes kv_bytes margin_bytes
                  layer_count mbs
                ≡ some out)
              × Covers 0 layer_count out
              × All Within out
              × AreOn mbs out
        placed [] e t n = absurd (omega (arith, n, pos))
        placed (r ∷ rs) e t n =
            let usable : AreUsable (r ∷ rs) = record {
              free = subst (λ z. All (λ d. 1 ≤ d.free_bytes) z) e (frees resources (measured mbs));
              total = t;
            } in
            let (xs, q, p) = proportional-IsPlacement r rs layer_count usable small n in
            build_from-Covers xs (ap (λ z. proportional_layer_assignments z layer_count) e ∙ q)
              (subst (λ z. IsPlacement z layer_count xs) (sym e) p)
