-- ===== src/Prelude/Dict.antt =====
-- Go's `map[string]V` as an association list. Where the program's result does not depend on the
-- order in which a map is ranged over, the order of the list stands for it.
use Prim.Native.Nat.{◌+◌, ◌≤◌}
use Prim.Native.String.{String}
use mathlib.Core.Path.{◌≡◌, refl, subst}
use mathlib.Core.Logic.{inl, inr}
use mathlib.Core.Bool.{Bool, true, false}
use mathlib.Core.Option.{Option, none, some}
use mathlib.Core.List.{List, [], ◌∷◌}
use native.Mathlib.Omega.{arith}
use text.Mathlib.Text.{◌==◌}
use text.Mathlib.TextEquality.{eq_iff}
use m_aistr.Prelude.Tests.{if◌then◌else◌, if_elim, Bool-cases}
use m_aistr.Prelude.Lists.{length, All}

abbrev pub Dict {ℓ} : Type ℓ → Type ℓ
Dict V = List (String × V)

module _ {ℓ} {V : Type ℓ} where
  unfoldable pub get : String → Dict V → Option V
  get k [] = none
  get k ((j, v) ∷ d) = if j == k then some v else get k d

  unfoldable pub put : String → V → Dict V → Dict V
  put k v [] = (k, v) ∷ []
  put k v ((j, w) ∷ d) = if j == k then (k, v) ∷ d else (j, w) ∷ put k v d

  unfoldable pub delete : String → Dict V → Dict V
  delete k [] = []
  delete k ((j, v) ∷ d) = let rest = delete k d in if j == k then rest else (j, v) ∷ rest

  -- `_, ok := m[k]`
  abbrev pub has : String → Dict V → Bool
  has k d = elim (get k d) [ none ↦ false | some v ↦ true ]

  -- `m[k]` with the zero value of the element type.
  abbrev pub get_or : V → String → Dict V → V
  get_or z k d = elim (get k d) [ none ↦ z | some v ↦ v ]

  pub get-put :
      (k j : String) (v : V) (d : Dict V) → get j (put k v d) ≡ (if k == j then some v else get j d)
  unfolding get put
  get-put k j v [] = refl
  get-put k j v ((i, w) ∷ d) = ground (arith, eq_iff k j, eq_iff i k, eq_iff i j, get-put k j v d)

  pub get-delete :
      (k j : String) (d : Dict V) → get j (delete k d) ≡ (if k == j then none else get j d)
  unfolding get delete
  get-delete k j [] = ground arith
  get-delete k j ((i, w) ∷ d) = ground (arith, eq_iff k j, eq_iff i k, eq_iff i j, get-delete k j d)

  pub put-get : (k : String) (v : V) (d : Dict V) → get k d ≡ some v → put k v d ≡ d
  unfolding get put
  put-get k v [] h = absurd (cc)
  put-get k v ((j, w) ∷ d) h = ground (arith, h, eq_iff j k, put-get k v d)

  pub length-put : (k : String) (v : V) (d : Dict V) → length (put k v d) ≤ length d + 1
  unfolding put
  length-put k v [] = omega arith
  length-put k v ((i, w) ∷ d) = ground (arith, length-put k v d)

  pub length-delete : (k : String) (d : Dict V) → length (delete k d) ≤ length d
  unfolding delete
  length-delete k [] = omega arith
  length-delete k ((i, w) ∷ d) = ground (arith, length-delete k d)

-- What holds of every entry, and what it says of a lookup.
module _ {ℓ κ} {V : Type ℓ} (P : V → Type κ) where
  abbrev pub Entries : Dict V → Type κ
  Entries d = All (λ e. P e.1) d

  pub get-Entries : (k : String) (d : Dict V) {v : V} → Entries d → get k d ≡ some v → P v
  unfolding get
  get-Entries k [] h e = absurd (cc)
  get-Entries k ((j, w) ∷ d) {v = v} h e =
      pick (j == k) w (get k d) h.0 (get-Entries k d {v = v} h.1) e
    where
      pick :
          (b : Bool) (x : V) (o : Option V)
          → P x
          → (o ≡ some v → P v)
          → (if b then some x else o) ≡ some v
          → P v
      pick true x o p q r = let same : x ≡ v = cc in subst P same p
      pick false x o p q r = q r

  pub put-Entries : (k : String) (v : V) (d : Dict V) → P v → Entries d → Entries (put k v d)
  unfolding put
  put-Entries k v [] p h = (p, tt)
  put-Entries k v ((j, w) ∷ d) p h =
      if_elim (λ (e : Dict V). Entries e) (j == k) (λ _. (p, h.1))
        (λ _. (h.0, put-Entries k v d p h.1))

  pub delete-Entries : (k : String) (d : Dict V) → Entries d → Entries (delete k d)
  unfolding delete
  delete-Entries k [] h = h
  delete-Entries k ((j, w) ∷ d) h =
      if_elim (λ (e : Dict V). Entries e) (j == k) (λ _. delete-Entries k d h.1)
        (λ _. (h.0, delete-Entries k d h.1))

-- What holds of every entry, key included, holds of one that a lookup finds.
pub get-All {ℓ κ} :
    {V : Type ℓ} (P : String × V → Type κ) (k : String) (v : V) (d : Dict V)
    → All P d
    → get k d ≡ some v
    → P (k, v)
unfolding get
get-All P k v [] h e = absurd (cc)
get-All P k v ((j, w) ∷ d) (p, h) e = elim (Bool-cases (j == k)) [
  | inl q ↦
      let key : j ≡ k = (eq_iff j k).0 q in
      let val : w ≡ v = ground (arith, e, q) in rw (← val) (rw (← key) p)
  | inr q ↦ get-All P k v d h (ground (arith, e, q))
]
