-- ===== src/Shard/Placement/Fit.antt =====
-- internal/shard/plan_placement.go: maximumLayersThatFit finds the most layers that fit.
use native.Mathlib.Nat.{
  mul-le-mul_left, div-mul-le_self, le-div_iff_mul-le, div-lt_iff_lt-mul, div-add-mod, mul_comm,
  mul-zero, suc-mul, mod-lt, le_trans, div-eq_of_lt, mod-eq_of_lt,
}
use m_aistr.Prelude.{
  ℕ, zero, suc, ◌+◌, ◌-◌, ◌*◌, ◌/◌, ◌%◌, ◌≤◌, ◌<◌, ◌==◌, ltb, leb, ◌≡◌, refl, sym, ap, ◌∙◌, subst,
  arith, Bool, true, Bool-cases, Option, Option-cases, some, if◌then◌else◌, if_elim, inl, inr,
}
use m_aistr.Shard.Memory.{max_uint64, multiply_divide_ceil, add_two}
use m_aistr.Shard.Placement.{layers_fit, bisect, maximum_layers_that_fit}

div_mono : (n m d : ℕ) → 1 ≤ d → n ≤ m → n / d ≤ m / d
div_mono n m d pos le =
    (le-div_iff_mul-le {k = d} {x = n / d} {y = m} pos).1 (le_trans (div-mul-le_self n d) le)

abbrev round_up : ℕ → ℕ → ℕ
round_up n d = if n % d == 0 then n / d else n / d + 1

round_up_mono : (n m d : ℕ) → 1 ≤ d → n ≤ m → round_up n d ≤ round_up m d
round_up_mono n m d pos le = elim (Bool-cases (n / d == m / d)) [
  | inl e ↦ ground (
    arith,
    e,
    le,
    div-add-mod n d,
    div-add-mod m d,
    ap (λ (t : ℕ). d * t) (eq_of (n / d) (m / d) e),
  )
  | inr e ↦ ground (arith, e, div_mono n m d pos le)
]
  where
    eq_of : (x y : ℕ) → (x == y) ≡ true → x ≡ y
    eq_of x y h = ground (arith, h)

-- A quotient whose dividend's high word is below the divisor has 64 bits.
quotient_small : (n d : ℕ) → 1 ≤ d → n / 18446744073709551616 < d → n / d ≤ max_uint64
quotient_small n d pos high =
    let n_small =
      (div-lt_iff_lt-mul {k = 18446744073709551616} {x = n} {y = d} (omega arith)).0 high in
    let lt : n / d < 18446744073709551616 =
      (div-lt_iff_lt-mul {k = d} {x = n} {y = 18446744073709551616} pos).1
        (omega (arith, n_small, mul_comm d 18446744073709551616)) in
    omega (arith, lt)

-- A part rounded up, where there is one.
ceil_small :
    (a b d q : ℕ)
    → multiply_divide_ceil a b d ≡ some q
    → (1 ≤ d) × (a * b / 18446744073709551616 < d) × (q ≡ round_up (a * b) d)
unfolding multiply_divide_ceil
ceil_small a b d q h = ground (arith, h)

-- The least number of layers' shares that makes up the part.
abbrev pub IsPart : ℕ → ℕ → ℕ → ℕ → Type 0
IsPart whole n layers part = (whole * n ≤ part * layers) × (part * layers < whole * n + layers)

round_up-least : (n d : ℕ) → 1 ≤ d → (n ≤ round_up n d * d) × (round_up n d * d < n + d)
round_up-least n d pos =
    let rest : n % d < d = mod-lt n pos in
    (
      ground (arith, pos, rest, div-add-mod n d, mul_comm d (n / d), suc-mul (n / d) d),
      ground (arith, pos, rest, div-add-mod n d, mul_comm d (n / d), suc-mul (n / d) d),
    )

pub ceil-IsPart : (a b d q : ℕ) → multiply_divide_ceil a b d ≡ some q → IsPart a b d q
ceil-IsPart a b d q h =
    let (pos, high, e) = ceil_small a b d q h in
    subst (IsPart a b d) (sym e) (round_up-least (a * b) d pos)

ceil_bound : (a b d q : ℕ) → multiply_divide_ceil a b d ≡ some q → q ≤ max_uint64
unfolding multiply_divide_ceil
ceil_bound a b d q h =
    let (pos, high, _) = ceil_small a b d q h in
    ground (arith, h, quotient_small (a * b) d pos high)

ceil_some :
    (a b d : ℕ)
    → 1 ≤ d
    → a * b / 18446744073709551616 < d
    → round_up (a * b) d ≤ max_uint64
    → multiply_divide_ceil a b d ≡ some (round_up (a * b) d)
unfolding multiply_divide_ceil
ceil_some a b d pos high le = ground (arith, pos, high, le)

ceil_mono :
    (a b c d q : ℕ)
    → b ≤ c
    → multiply_divide_ceil a c d ≡ some q
    → (p : ℕ) × (multiply_divide_ceil a b d ≡ some p) × (p ≤ q)
ceil_mono a b c d q le h =
    let (pos, high, e) = ceil_small a c d q h in
    let bound = ceil_bound a c d q h in
    let product : a * b ≤ a * c = mul-le-mul_left a le in
    let less : round_up (a * b) d ≤ q =
      subst (λ t. round_up (a * b) d ≤ t) (sym e) (round_up_mono (a * b) (a * c) d pos product) in
    let high' = div_mono (a * b) (a * c) 18446744073709551616 (omega arith) product in
    (
      round_up (a * b) d,
      ceil_some a b d pos (omega (arith, high, high')) (le_trans less bound),
      less,
    )

module _ (fits : ℕ → Bool) (most : ℕ)
    (down : (m n : ℕ) → m ≤ n → fits n ≡ true → fits m ≡ true) where
  abbrev Found : Option ℕ → Type 0
  Found out =
      (r : ℕ) × (out ≡ some r)
      × (r ≤ most)
      × (fits r ≡ true)
      × ((m : ℕ) → m ≤ most → fits m ≡ true → m ≤ r)

  bisect-Found :
      (fuel low high : ℕ)
      → high ≤ low + fuel
      → low ≤ high
      → high ≤ most
      → fits low ≡ true
      → ((m : ℕ) → m ≤ most → fits m ≡ true → m ≤ high)
      → Found (bisect fits fuel low high)
  unfolding bisect
  bisect-Found zero low high f le h l up =
      let same : low ≡ high = omega (arith, f, le) in
      if_elim {A = Option ℕ} Found (ltb low high) (λ less. absurd (ground (arith, less, same)))
        (λ _. (low, refl, omega (arith, same, h), l, λ m b k. omega (arith, same, up m b k)))
  bisect-Found (suc fuel) low high f le h l up =
      let middle = low + (high - low + 1) / 2 in
      if_elim {A = Option ℕ} Found (ltb low high)
        (λ less.
          let lt : low < high = ground (arith, less) in
          if_elim {A = Option ℕ} Found (fits middle)
            (λ yes_fits.
              bisect-Found fuel middle high (omega (arith, f, lt)) (omega (arith, lt)) h yes_fits
                up)
            (λ no_fits.
              bisect-Found fuel low (middle - 1) (omega (arith, f, lt)) (omega (arith, lt))
                (omega (arith, lt, h)) l
                (λ m b k. elim (Bool-cases (leb middle m)) [
                  | inl above ↦
                      absurd (ground (arith, no_fits, down middle m (ground (arith, above)) k))
                  | inr below ↦ ground (arith, below)
                ])))
        (λ done.
          let same : low ≡ high = ground (arith, done, le) in
          (low, refl, omega (arith, same, h), l, λ m b k. omega (arith, same, up m b k)))

module _ (usable weights_bytes kv_bytes layer_count : ℕ) where
  abbrev pub fit : ℕ → Bool
  fit layers = layers_fit usable weights_bytes kv_bytes layer_count layers

  -- What fitting means: the rounded parts of the weights and of the cache add up to no more.
  pub fit_parts :
      (n : ℕ)
      → fit n ≡ true
      → (w : ℕ) × ((k : ℕ) × (multiply_divide_ceil weights_bytes n layer_count ≡ some w)
          × (multiply_divide_ceil kv_bytes n layer_count ≡ some k)
          × (w + k ≤ max_uint64)
          × (w + k ≤ usable))
  unfolding layers_fit add_two
  fit_parts n h = elim (Option-cases (multiply_divide_ceil weights_bytes n layer_count)) [
    | inl e ↦ absurd (ground (arith, h, e))
    | inr (w, e) ↦ elim (Option-cases (multiply_divide_ceil kv_bytes n layer_count)) [
      | inl f ↦ absurd (ground (arith, h, e, f))
      | inr (k, f) ↦
          let small = ceil_bound weights_bytes n layer_count w e in
          (w, (k, e, f, ground (arith, h, e, f, small), ground (arith, h, e, f, small)))
    ]
  ]

  parts_fit :
      (n w k : ℕ)
      → multiply_divide_ceil weights_bytes n layer_count ≡ some w
      → multiply_divide_ceil kv_bytes n layer_count ≡ some k
      → w + k ≤ max_uint64
      → w + k ≤ usable
      → fit n ≡ true
  unfolding layers_fit add_two
  parts_fit n w k e f small le = ground (arith, e, f, small, le)

  pub fit_down : (m n : ℕ) → m ≤ n → fit n ≡ true → fit m ≡ true
  fit_down m n le h =
      let (w, (k, e, f, small, all_fit)) = fit_parts n h in
      let (w', e', lw) = ceil_mono weights_bytes m n layer_count w le e in
      let (k', f', lk) = ceil_mono kv_bytes m n layer_count k le f in
      parts_fit m w' k' e' f' (omega (arith, small, lw, lk)) (omega (arith, all_fit, lw, lk))

  fit_none : 1 ≤ layer_count → fit 0 ≡ true
  fit_none pos =
      parts_fit 0 0 0 (nothing weights_bytes) (nothing kv_bytes) (omega arith) (omega arith)
    where
      nothing : (a : ℕ) → multiply_divide_ceil a 0 layer_count ≡ some 0
      nothing a =
          let e : round_up (a * 0) layer_count ≡ 0 = ground (
            arith,
            pos,
            mul-zero a,
            div-eq_of_lt {n = a * 0} {m = layer_count} (omega (arith, pos, mul-zero a)),
            mod-eq_of_lt {n = a * 0} {m = layer_count} (omega (arith, pos, mul-zero a)),
          ) in
          ceil_some a 0 layer_count pos (omega (arith, pos, mul-zero a)) (omega (arith, e))
          ∙ ap some e

  -- For a model with a layer at least, maximumLayersThatFit ends with a number of layers that
  -- fits, and no larger number up to all layers does.
  pub maximum_layers-IsMost :
      1 ≤ layer_count
      → (r : ℕ) × (maximum_layers_that_fit usable weights_bytes kv_bytes layer_count ≡ some r)
        × (r ≤ layer_count)
        × (fit r ≡ true)
        × ((m : ℕ) → m ≤ layer_count → fit m ≡ true → m ≤ r)
  unfolding maximum_layers_that_fit
  maximum_layers-IsMost pos =
      bisect-Found fit layer_count fit_down layer_count 0 layer_count (omega arith) (omega arith)
        (omega arith) (fit_none pos) (λ m le k. le)
