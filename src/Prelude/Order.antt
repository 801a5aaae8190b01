-- ===== src/Prelude/Order.antt =====
-- The order of texts is a strict total order.
use Prim.Native.Nat.{ℕ, Ordering, compare as compare_ℕ}
use Prim.Native.Char.{Char, code}
use Prim.Native.String.compare
use Prim.Native.String.{String, [], ◌∷◌, compare, then}
use mathlib.Core.Path.{◌≡◌, refl, sym, ◌∙◌, ap}
use mathlib.Core.Bool.{Bool, true, false, ◌||◌, ◌&&◌}
use native.Mathlib.Omega.{arith}
use text.Mathlib.TextEquality.{path_by_compare}
use m_aistr.Prelude.Tests.{ltb, ◌==◌}
use m_aistr.Prelude.Text.{str_lt}

abbrev swap : Ordering → Ordering
swap Ordering.lt = Ordering.gt
swap Ordering.eq = Ordering.eq
swap Ordering.gt = Ordering.lt

swap-compare : (m n : ℕ) → compare_ℕ n m ≡ swap (compare_ℕ m n)
swap-compare m n = ground arith

swap-then : (o r : Ordering) → then (swap o) (swap r) ≡ swap (then o r)
swap-then Ordering.lt r = refl
swap-then Ordering.eq r = refl
swap-then Ordering.gt r = refl

compare-swap : (s t : String) → compare t s ≡ swap (compare s t)
compare-swap [] [] = compare.nil-nil ∙ ap swap (sym compare.nil-nil)
compare-swap [] (d ∷ t) = compare.cons-nil d t ∙ ap swap (sym (compare.nil-cons d t))
compare-swap (c ∷ s) [] = compare.nil-cons c s ∙ ap swap (sym (compare.cons-nil c s))
compare-swap (c ∷ s) (d ∷ t) =
    compare.cons-cons d c t s
    ∙ ap (λ o. then o (compare t s)) (swap-compare (code c) (code d))
    ∙ ap (then (swap (compare_ℕ (code c) (code d)))) (compare-swap s t)
    ∙ swap-then (compare_ℕ (code c) (code d)) (compare s t)
    ∙ ap swap (sym (compare.cons-cons c d s t))

abbrev below : Ordering → Bool
below Ordering.lt = true
below Ordering.eq = false
below Ordering.gt = false

pub str_lt_asymm : (s t : String) → str_lt s t ≡ true → str_lt t s ≡ false
str_lt_asymm s t h = go (compare s t) refl h
  where
    go : (o : Ordering) → compare s t ≡ o → below o ≡ true → below (compare t s) ≡ false
    go Ordering.lt e k = ap below (compare-swap s t ∙ ap swap e)
    go Ordering.eq e k = absurd (cc)
    go Ordering.gt e k = absurd (cc)

-- Different texts are ordered.
pub str_lt_total : (s t : String) → str_lt s t ≡ false → str_lt t s ≡ false → s ≡ t
str_lt_total s t h k = go (compare s t) refl h k
  where
    go : (o : Ordering) → compare s t ≡ o → below o ≡ false → below (compare t s) ≡ false → s ≡ t
    go Ordering.lt e a b = absurd (cc)
    go Ordering.eq e a b = path_by_compare s t e
    go Ordering.gt e a b =
        let c : below (compare t s) ≡ true = ap below (compare-swap s t ∙ ap swap e) in absurd (cc)

abbrev below_eq : Ordering → Bool
below_eq Ordering.lt = false
below_eq Ordering.eq = true
below_eq Ordering.gt = false

below-then : (o r : Ordering) → below (then o r) ≡ (below o || (below_eq o && below r))
below-then Ordering.lt r = refl
below-then Ordering.eq r = refl
below-then Ordering.gt r = refl

str_lt-cons :
    (c d : Char) (s t : String)
    → str_lt (c ∷ s) (d ∷ t) ≡ (ltb (code c) (code d) || ((code c == code d) && str_lt s t))
str_lt-cons c d s t =
    ap below (compare.cons-cons c d s t) ∙ below-then (compare_ℕ (code c) (code d)) (compare s t)

pub str_lt_trans : (s t u : String) → str_lt s t ≡ true → str_lt t u ≡ true → str_lt s u ≡ true
str_lt_trans s [] u h k = absurd (nothing_below s h)
  where
    nothing_below : (x : String) → str_lt x [] ≡ true → ⊥
    nothing_below [] e = let n = compare.nil-nil in cc
    nothing_below (c ∷ x) e = let n = compare.cons-nil c x in cc
str_lt_trans s (d ∷ t) [] h k = let n = compare.cons-nil d t in absurd (cc)
str_lt_trans [] (d ∷ t) (e ∷ u) h k = ap below (compare.nil-cons e u)
str_lt_trans (c ∷ s) (d ∷ t) (e ∷ u) h k =
    ground (
      arith,
      h,
      k,
      str_lt-cons c d s t,
      str_lt-cons d e t u,
      str_lt-cons c e s u,
      str_lt_trans s t u,
    )
