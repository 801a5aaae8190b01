-- ===== src/Discovery/Seen.antt =====
-- internal/discovery/discovery.go: what a listener remembers of the announcements it took, and
-- what pruning leaves of it.
use m_aistr.Prelude.{
  ℕ, ◌+◌, ◌≤◌, ◌<◌, ltb, ◌≡◌, refl, sym, arith, String, str_eq, eq_iff, true, not, ◌&&◌, [], ◌∷◌,
  Bool-cases, ◌⊎◌, inl, inr,
}
use m_aistr.Prelude.Dict.{Dict, get, get_or, has, put, get-put}
use m_aistr.Prelude.Occurrences.{occ, keys, has-occ, AtMostOnce, put-AtMostOnce}
use m_aistr.Discovery.{max_clock_skew, prune}

occ-prune : (now : ℕ) (d : Dict ℕ) (x : String) → occ x (keys (prune now d)) ≤ occ x (keys d)
unfolding prune
occ-prune now [] x = omega arith
occ-prune now ((id, t) ∷ d) x = ground (arith, occ-prune now d x)

-- What is left of an entry.
has-prune :
    (now : ℕ) (d : Dict ℕ) (x : String)
    → AtMostOnce d
    → has x (prune now d) ≡ (has x d && not (ltb (get_or 0 x d + max_clock_skew) now))
unfolding prune get
has-prune now [] x h = refl
has-prune now ((id, t) ∷ d) x h = ground (
  arith,
  h x,
  has-prune now d x (λ y. ground (arith, h y)),
  occ-prune now d x,
  has-occ x d,
  has-occ x (prune now d),
  eq_iff id x,
)

get_or-prune :
    (now : ℕ) (d : Dict ℕ) (x : String)
    → AtMostOnce d
    → has x (prune now d) ≡ true
    → get_or 0 x (prune now d) ≡ get_or 0 x d
unfolding prune get
get_or-prune now [] x h k = absurd (cc)
get_or-prune now ((id, t) ∷ d) x h k = ground (
  arith,
  h x,
  k,
  get_or-prune now d x (λ y. ground (arith, h y)),
  occ-prune now d x,
  has-occ x d,
  has-occ x (prune now d),
  eq_iff id x,
)

abbrev pub Skewed : ℕ → ℕ → Type 0
Skewed t now = t + max_clock_skew < now

-- An announcement of the id that was issued at t is remembered, or is too old at `now` and after.
abbrev pub Guarded : String → ℕ → ℕ → Dict ℕ → Type 0
Guarded id t now d = ((has id d ≡ true) × (t ≤ get_or 0 id d)) ⊎ Skewed t now

pub prune-Guarded :
    (id : String) (t now : ℕ) (d : Dict ℕ)
    → AtMostOnce d
    → (has id d ≡ true) × (t ≤ get_or 0 id d)
    → Guarded id t now (prune now d)
prune-Guarded id t now d once (known, late) =
    elim (Bool-cases (ltb (get_or 0 id d + max_clock_skew) now)) [
      | inl old ↦ inr (ground (arith, old, late))
      | inr kept ↦
          let still : has id (prune now d) ≡ true =
            ground (arith, has-prune now d id once, known, kept) in
          inl (still, ground (arith, get_or-prune now d id once still, late))
    ]

pub prune-AtMostOnce : (now : ℕ) (d : Dict ℕ) → AtMostOnce d → AtMostOnce (prune now d)
prune-AtMostOnce now d h x = omega (arith, h x, occ-prune now d x)

-- Taking an announcement of any id keeps the guard of this one.
pub take-Guarded :
    (id other : String) (t issued now : ℕ) (d : Dict ℕ)
    → AtMostOnce d
    → (id ≡ other → has id d ≡ true → get_or 0 id d ≤ issued)
    → (has id d ≡ true) × (t ≤ get_or 0 id d)
    → Guarded id t now (prune now (put other issued d))
take-Guarded id other t issued now d once later (known, late) =
    prune-Guarded id t now (put other issued d) (put-AtMostOnce other issued d once)
      (elim (Bool-cases (str_eq other id)) [
        | inl same ↦
            let e : other ≡ id = (eq_iff other id).0 same in
            let l = later (sym e) known in
            (
              ground (arith, same, get-put other id issued d),
              ground (arith, same, get-put other id issued d, late, l),
            )
        | inr differs ↦ (
          ground (arith, differs, get-put other id issued d, known),
          ground (arith, differs, get-put other id issued d, late),
        )
      ])
