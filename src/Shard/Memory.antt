-- ===== src/Shard/Memory.antt =====
-- internal/shard/plan_memory.go and profile.go: sizes in 64-bit numbers. A product of two such
-- numbers has 128 bits in the program too, `bits.Mul64`, and `bits.Div64` divides it; `none` stands
-- for a result that is not ok or an error.
pub mod Products
use m_aistr.Prelude.{
  ℕ, zero, suc, ◌+◌, ◌-◌, ◌*◌, ◌/◌, ◌%◌, ◌==◌, ltb, leb, String, Bool, true, false, not, ◌&&◌,
  Option, none, some, List, [], ◌∷◌, if◌then◌else◌,
}

-- math.MaxUint64
abbrev pub max_uint64 : ℕ
max_uint64 = 18446744073709551615

abbrev pub mebibyte : ℕ
mebibyte = 1048576

unfoldable pub mb_to_bytes : ℕ → Option ℕ
mb_to_bytes memory_mb =
    if ltb (max_uint64 / mebibyte) memory_mb then none else some (memory_mb * mebibyte)

unfoldable pub multiply_divide_floor_rem : ℕ → ℕ → ℕ → Option (ℕ × ℕ)
multiply_divide_floor_rem a b divisor =
    if divisor == 0
    then none
    else if leb divisor (a * b / 18446744073709551616)
    then none
    else some (a * b / divisor, a * b % divisor)

unfoldable pub multiply_divide_ceil : ℕ → ℕ → ℕ → Option ℕ
multiply_divide_ceil a b divisor =
    let quotient = a * b / divisor in
    if divisor == 0
    then none
    else if leb divisor (a * b / 18446744073709551616)
    then none
    else if a * b % divisor == 0
    then some quotient
    else if quotient == max_uint64
    then none
    else some (quotient + 1)

unfoldable pub add_two : ℕ → ℕ → Option ℕ
add_two a b = if ltb (max_uint64 - a) b then none else some (a + b)

unfoldable pub add_three : ℕ → ℕ → ℕ → Option ℕ
unfolding add_two
add_three a b c = elim (add_two a b) [ none ↦ none | some sum ↦ add_two sum c ]

-- What the size of the cache depends on; Plan has checked that the numbers are positive.
pub record ModelProfile : Type 0 where
  pub layer_count : ℕ
  pub kv_heads : ℕ
  pub head_dim : ℕ
  pub requested_context : ℕ

unfoldable pub multiply_all : List ℕ → ℕ → Option ℕ
multiply_all [] value = some value
multiply_all (factor ∷ factors) value =
    let rest = multiply_all factors (value * factor) in
    if not (value == 0) && ltb (max_uint64 / value) factor then none else rest

unfoldable pub model_kv_bytes : ModelProfile → ℕ → Option ℕ
unfolding multiply_all
model_kv_bytes model bytes_per_element =
    multiply_all
      (model.layer_count ∷ model.kv_heads ∷ model.head_dim ∷ model.requested_context
        ∷ bytes_per_element ∷ [])
      2
