-- ===== src/Prelude/Occurrences.antt =====
-- How often a text stands in a list: membership, distinctness and rearrangement as arithmetic.
use Prim.Native.Nat.{ℕ, suc, ◌+◌, ◌≤◌}
use Prim.Native.String.{String}
use mathlib.Core.Path.{◌≡◌, refl, ap}
use mathlib.Core.Bool.{Bool, true, not, ◌&&◌}
use mathlib.Core.List.{List, [], ◌∷◌, ◌++◌}
use native.Mathlib.Omega.{arith}
use text.Mathlib.Text.{◌==◌}
use text.Mathlib.TextEquality.{eq_iff}
use m_aistr.Prelude.Tests.{if◌then◌else◌}
use m_aistr.Prelude.Lists.{length, any, insert_by, sort_by}
use m_aistr.Prelude.Dict.{Dict, get, has, put}

abbrev pub occ : String → List String → ℕ
occ x [] = 0
occ x (y ∷ ys) = if y == x then suc (occ x ys) else occ x ys

pub occ-head : (x : String) (xs : List String) → occ x (x ∷ xs) ≡ suc (occ x xs)
occ-head x xs = ground (arith, eq_iff x x)

pub occ-append : (x : String) (xs ys : List String) → occ x (xs ++ ys) ≡ occ x xs + occ x ys
occ-append x [] ys = omega arith
occ-append x (y ∷ xs) ys = ground (arith, occ-append x xs ys)

pub occ-any : (x : String) (xs : List String) → any (λ y. y == x) xs ≡ true → 1 ≤ occ x xs
occ-any x [] h = absurd (cc)
occ-any x (y ∷ xs) h = ground (arith, occ-any x xs)

pub any-occ : (x : String) (xs : List String) → 1 ≤ occ x xs → any (λ y. y == x) xs ≡ true
any-occ x [] h = absurd (omega arith)
any-occ x (y ∷ xs) h = ground (arith, any-occ x xs)

occ-insert_by :
    (less : String → String → Bool) (x y : String) (ys : List String)
    → occ x (insert_by less y ys) ≡ occ x (y ∷ ys)
unfolding insert_by
occ-insert_by less x y [] = refl
occ-insert_by less x y (z ∷ ys) = ground (arith, occ-insert_by less x y ys)

pub occ-sort_by :
    (less : String → String → Bool) (x : String) (ys : List String)
    → occ x (sort_by less ys) ≡ occ x ys
unfolding sort_by
occ-sort_by less x [] = refl
occ-sort_by less x (y ∷ ys) =
    ground (arith, occ-insert_by less x y (sort_by less ys), occ-sort_by less x ys)

length-insert_by {ℓ} :
    {A : Type ℓ} (less : A → A → Bool) (y : A) (ys : List A)
    → length (insert_by less y ys) ≡ suc (length ys)
unfolding insert_by
length-insert_by less y [] = refl
length-insert_by less y (z ∷ ys) = ground (arith, length-insert_by less y ys)

pub length-sort_by {ℓ} :
    {A : Type ℓ} (less : A → A → Bool) (ys : List A) → length (sort_by less ys) ≡ length ys
unfolding sort_by
length-sort_by less [] = refl
length-sort_by less (y ∷ ys) =
    omega (arith, length-insert_by less y (sort_by less ys), length-sort_by less ys)

-- The list without the first occurrence.
abbrev without : String → List String → List String
without x [] = []
without x (y ∷ ys) = if y == x then ys else y ∷ without x ys

length-without :
    (x : String) (ys : List String) → 1 ≤ occ x ys → suc (length (without x ys)) ≡ length ys
length-without x [] h = absurd (omega arith)
length-without x (y ∷ ys) h = ground (arith, length-without x ys)

occ-without : (x z : String) (ys : List String) → 1 ≤ occ x ys → occ z (x ∷ without x ys) ≡ occ z ys
occ-without x z [] h = absurd (omega arith)
occ-without x z (y ∷ ys) h = ground (arith, occ-without x z ys, eq_iff y x, eq_iff x z, eq_iff y z)

-- Lists with the same texts, each as often, are equally long.
pub length-occ :
    (xs ys : List String) → ((x : String) → occ x xs ≡ occ x ys) → length xs ≡ length ys
length-occ [] [] h = refl
length-occ [] (y ∷ ys) h = absurd (omega (arith, h y, occ-head y ys))
length-occ (x ∷ xs) ys h =
    let here : 1 ≤ occ x ys = omega (arith, h x, occ-head x xs) in
    omega (arith, length-without x ys here, length-occ xs (without x ys) (λ z. rest z here))
  where
    rest : (z : String) → 1 ≤ occ x ys → occ z xs ≡ occ z (without x ys)
    rest z here = ground (arith, h z, occ-without x z ys here)

-- The keys of a map.
abbrev pub keys {ℓ} : {V : Type ℓ} → Dict V → List String
keys [] = []
keys ((k, v) ∷ d) = k ∷ keys d

pub has-occ {ℓ} : {V : Type ℓ} (k : String) (d : Dict V) → has k d ≡ true → 1 ≤ occ k (keys d)
unfolding get
has-occ k [] h = absurd (cc)
has-occ k ((j, v) ∷ d) h = ground (arith, has-occ k d)

pub occ-has {ℓ} : {V : Type ℓ} (k : String) (d : Dict V) → 1 ≤ occ k (keys d) → has k d ≡ true
unfolding get
occ-has k [] h = absurd (omega arith)
occ-has k ((j, v) ∷ d) h = ground (arith, occ-has k d)

pub length-keys {ℓ} : {V : Type ℓ} (d : Dict V) → length (keys d) ≡ length d
length-keys [] = refl
length-keys ((k, v) ∷ d) = ap suc (length-keys d)

pub occ-put {ℓ} :
    {V : Type ℓ} (k x : String) (v : V) (d : Dict V)
    → occ x (keys (put k v d))
      ≡ (if (k == x) && not (has k d) then suc (occ x (keys d)) else occ x (keys d))
unfolding put get
occ-put k x v [] = ground arith
occ-put k x v ((j, w) ∷ d) = ground (arith, occ-put k x v d, eq_iff j k, eq_iff k x, eq_iff j x)

-- No key stands twice.
abbrev pub AtMostOnce {ℓ} : {V : Type ℓ} → Dict V → Type 0
AtMostOnce d = (x : String) → occ x (keys d) ≤ 1

pub put-AtMostOnce {ℓ} :
    {V : Type ℓ} (k : String) (v : V) (d : Dict V) → AtMostOnce d → AtMostOnce (put k v d)
put-AtMostOnce k v d h x = ground (arith, h x, occ-put k x v d, occ-has x d, eq_iff k x)
