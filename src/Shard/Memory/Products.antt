-- ===== src/Shard/Memory/Products.antt =====
-- internal/shard/plan_memory.go: modelKVBytes finds every overflow.
use native.Mathlib.Nat.{le-div_iff_mul-le, mul_assoc, mul_comm, mul-pos, mul-le-mul_left, mul-one}
use m_aistr.Prelude.{
  ℕ, ◌*◌, ◌/◌, ◌≤◌, ◌<◌, ltb, leb, if◌then◌else◌, ◌≡◌, sym, ap, arith, Bool-cases, none, some, List,
  [], ◌∷◌, All, inl, inr,
}
use m_aistr.Shard.Memory.{max_uint64, ModelProfile, multiply_all, model_kv_bytes}

product : List ℕ → ℕ
product [] = 1
product (n ∷ ns) = n * product ns

product-pos : (ns : List ℕ) → All (λ n. 1 ≤ n) ns → 1 ≤ product ns
unfolding product
product-pos [] h = omega arith
product-pos (n ∷ ns) (p, h) = mul-pos p (product-pos ns h)

regroup : (value n m : ℕ) → value * n * m ≡ value * (n * m)
regroup value n m = mul_assoc value n m

step_within :
    (value n m : ℕ) → 1 ≤ value → 1 ≤ m → value * (n * m) ≤ max_uint64 → n ≤ max_uint64 / value
step_within value n m v p h = (le-div_iff_mul-le {k = value} {x = n} {y = max_uint64} v).1 (
    omega (
      arith,
      h,
      regroup value n m,
      mul_comm value n,
      mul-le-mul_left (value * n) p,
      mul-one (value * n),
    ))

multiply_all_within :
    (ns : List ℕ) (value : ℕ)
    → All (λ n. 1 ≤ n) ns
    → 1 ≤ value
    → value * product ns ≤ max_uint64
    → multiply_all ns value ≡ some (value * product ns)
unfolding multiply_all product
multiply_all_within [] value h v le = ap some (sym (mul-one value))
multiply_all_within (n ∷ ns) value (p, h) v le =
    let small = step_within value n (product ns) v (product-pos ns h) le in
    let rest =
      multiply_all_within ns (value * n) h (mul-pos v p)
        (omega (arith, le, regroup value n (product ns))) in
    ground (arith, small, rest, ap some (regroup value n (product ns)))

multiply_all_over :
    (ns : List ℕ) (value : ℕ)
    → All (λ n. 1 ≤ n) ns
    → 1 ≤ value
    → value ≤ max_uint64
    → max_uint64 < value * product ns
    → multiply_all ns value ≡ none
unfolding multiply_all product
multiply_all_over [] value h v le lt = absurd (omega (arith, le, lt, mul-one value))
multiply_all_over (n ∷ ns) value (p, h) v le lt = elim (Bool-cases (ltb (max_uint64 / value) n)) [
  | inl over ↦ ground (arith, over, v)
  | inr within ↦
      let small : n * value ≤ max_uint64 =
        (le-div_iff_mul-le {k = value} {x = n} {y = max_uint64} v).0 (ground (arith, within)) in
      let rest =
        multiply_all_over ns (value * n) h (mul-pos v p) (omega (arith, small, mul_comm n value))
          (omega (arith, lt, regroup value n (product ns))) in
      ground (arith, rest, within)
]

factors : ModelProfile → ℕ → List ℕ
factors model bytes =
    model.layer_count ∷ model.kv_heads ∷ model.head_dim ∷ model.requested_context ∷ bytes ∷ []

abbrev pub kv_product : ModelProfile → ℕ → ℕ
kv_product model bytes =
    2
    * (model.layer_count
        * (model.kv_heads * (model.head_dim * (model.requested_context * (bytes * 1)))))

-- For positive dimensions, modelKVBytes is twice their product where that has 64 bits, and is
-- refused where it has more.
pub model_kv_bytes-product :
    (model : ModelProfile) (bytes : ℕ)
    → (1 ≤ model.layer_count)
      × (1 ≤ model.kv_heads)
      × (1 ≤ model.head_dim)
      × (1 ≤ model.requested_context)
      × (1 ≤ bytes)
    → model_kv_bytes model bytes
      ≡ (if leb (kv_product model bytes) max_uint64 then some (kv_product model bytes) else none)
unfolding model_kv_bytes factors product
model_kv_bytes-product model bytes (a, b, c, d, e) =
    let all : All (λ n. 1 ≤ n) (factors model bytes) = (a, (b, (c, (d, (e, tt))))) in
    ground (
      arith,
      multiply_all_within (factors model bytes) 2 all (omega arith),
      multiply_all_over (factors model bytes) 2 all (omega arith) (omega arith),
    )
