-- ===== src/Router/Breaker/Backoff.antt =====
-- internal/orchestrator/router_breaker.go: how long a breaker stays open.
use m_aistr.Prelude.{
  ℕ, zero, suc, ◌*◌, ◌^◌, ◌≤◌, ◌≡◌, arith, ltb, min, sym, ap, ◌∙◌, Bool-cases, inl, inr,
}
use native.Mathlib.Nat.{pow-suc, min-eq_left}
use native.Mathlib.Decide.{dec_le}
use m_aistr.Router.Breaker.{Breaker, backoff, max_backoff}

full : (d p m : ℕ) → 1 ≤ p → m ≤ d → min (d * p) m ≡ m
full d p m h k = grind arith

wide : (d p m : ℕ) → 1 ≤ p → m ≤ d * 2 → min (d * (p * 2)) m ≡ m
wide d p m h k = omega (arith, full (d * 2) p m h k)

scaled : (d p m : ℕ) → 1 ≤ p → min (min (d * 2) m * p) m ≡ min (d * (p * 2)) m
scaled d p m h = elim (dec_le (d * 2) m) [
  | yes k ↦ rw (min-eq_left k) (omega arith)
  | no k ↦
      let capped : min (d * 2) m ≡ m = omega arith in
      rw capped (full m p m h (omega arith) ∙ sym (wide d p m h (omega arith)))
]

pow-pos : (n : ℕ) → 1 ≤ 2 ^ n
pow-pos zero = omega arith
pow-pos (suc n) = rw (pow-suc 2 n) (omega (arith, pow-pos n))

-- Each round doubles the delay, and none passes the maximum.
pub backoff-eq :
    (rounds delay : ℕ)
    → delay ≤ max_backoff
    → backoff rounds delay ≡ min (delay * 2 ^ rounds) max_backoff
unfolding backoff
backoff-eq zero delay h = omega arith
backoff-eq (suc r) delay h = elim (Bool-cases (ltb delay max_backoff)) [
  | inl e ↦ rw e (
      backoff-eq r (min (delay * 2) max_backoff) (omega arith)
      ∙ scaled delay (2 ^ r) max_backoff (pow-pos r)
      ∙ ap (λ x. min (delay * x) max_backoff) (sym (pow-suc 2 r)))
  | inr e ↦ rw e (
      let at_max : delay ≡ max_backoff = ground arith in
      at_max ∙ sym (full delay (2 ^ suc r) max_backoff (pow-pos (suc r)) (omega arith)))
]
