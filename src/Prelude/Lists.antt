-- ===== src/Prelude/Lists.antt =====
-- Lists measured by native numbers, and predicates on their elements by recursion.
use Prim.Native.Nat.{ℕ, zero, suc, ◌+◌}
use mathlib.Core.Path.{◌≡◌, refl, ap, ◌∙◌}
use mathlib.Core.Bool.{Bool, true, false, ◌&&◌, ◌||◌}
use mathlib.Core.Option.{Option, none, some}
use mathlib.Core.List.{List, [], ◌∷◌, ◌++◌}
use native.Mathlib.Omega.{arith}
use m_aistr.Prelude.Tests.{if◌then◌else◌, if_elim}

module _ {ℓ} {A : Type ℓ} where
  abbrev pub length : List A → ℕ
  length [] = 0
  length (x ∷ xs) = suc (length xs)

  abbrev pub take : ℕ → List A → List A
  take zero xs = []
  take (suc n) [] = []
  take (suc n) (x ∷ xs) = x ∷ take n xs

  -- Whether some element, or every one, passes a test.
  abbrev pub any : (A → Bool) → List A → Bool
  any p [] = false
  any p (x ∷ xs) = p x || any p xs

  abbrev pub all : (A → Bool) → List A → Bool
  all p [] = true
  all p (x ∷ xs) = p x && all p xs

  -- The first element that passes a test.
  abbrev pub find : (A → Bool) → List A → Option A
  find p [] = none
  find p (x ∷ xs) = if p x then some x else find p xs

  -- The elements that pass a test.
  abbrev pub select : (A → Bool) → List A → List A
  select p [] = []
  select p (x ∷ xs) = let rest = select p xs in if p x then x ∷ rest else rest

  -- The list with its first element that passes a test replaced.
  abbrev pub update_first : (A → Bool) → (A → A) → List A → List A
  update_first p f [] = []
  update_first p f (x ∷ xs) = if p x then f x ∷ xs else x ∷ update_first p f xs

  -- `sort.Slice` with the test of its `less` function: ties keep an order that Go leaves open.
  unfoldable pub insert_by : (A → A → Bool) → A → List A → List A
  insert_by less x [] = x ∷ []
  insert_by less x (y ∷ ys) = if less y x then y ∷ insert_by less x ys else x ∷ y ∷ ys

  unfoldable pub sort_by : (A → A → Bool) → List A → List A
  unfolding insert_by
  sort_by less [] = []
  sort_by less (x ∷ xs) = insert_by less x (sort_by less xs)

  abbrev pub All {κ} : (A → Type κ) → List A → Type κ
  All P [] = Unit
  All P (x ∷ xs) = P x × All P xs

  pub length-append : (xs ys : List A) → length (xs ++ ys) ≡ length xs + length ys
  length-append [] ys = omega arith
  length-append (x ∷ xs) ys = omega (arith, length-append xs ys)

  pub all-append : (p : A → Bool) (xs ys : List A) → all p (xs ++ ys) ≡ (all p xs && all p ys)
  all-append p [] ys = refl
  all-append p (x ∷ xs) ys = ground (arith, all-append p xs ys)

  any-insert_by :
      (p : A → Bool) (less : A → A → Bool) (x : A) (xs : List A)
      → any p (insert_by less x xs) ≡ (p x || any p xs)
  unfolding insert_by
  any-insert_by p less x [] = refl
  any-insert_by p less x (y ∷ ys) = ground (arith, any-insert_by p less x ys)

  pub any-sort_by :
      (p : A → Bool) (less : A → A → Bool) (xs : List A) → any p (sort_by less xs) ≡ any p xs
  unfolding sort_by
  any-sort_by p less [] = refl
  any-sort_by p less (x ∷ xs) =
      any-insert_by p less x (sort_by less xs) ∙ ap (λ b. p x || b) (any-sort_by p less xs)

  -- How many elements pass a test.
  abbrev pub count : (A → Bool) → List A → ℕ
  count p [] = 0
  count p (x ∷ xs) = if p x then suc (count p xs) else count p xs

  count-insert_by :
      (p : A → Bool) (less : A → A → Bool) (x : A) (xs : List A)
      → count p (insert_by less x xs) ≡ count p (x ∷ xs)
  unfolding insert_by
  count-insert_by p less x [] = refl
  count-insert_by p less x (y ∷ ys) = ground (arith, count-insert_by p less x ys)

  pub count-sort_by :
      (p : A → Bool) (less : A → A → Bool) (xs : List A) → count p (sort_by less xs) ≡ count p xs
  unfolding sort_by
  count-sort_by p less [] = refl
  count-sort_by p less (x ∷ xs) =
      ground (arith, count-insert_by p less x (sort_by less xs), count-sort_by p less xs)

  All-insert_by {κ} :
      (P : A → Type κ) (less : A → A → Bool) (x : A) (xs : List A)
      → P x
      → All P xs
      → All P (insert_by less x xs)
  unfolding insert_by
  All-insert_by P less x [] px h = (px, tt)
  All-insert_by P less x (y ∷ ys) px (py, h) =
      if_elim {A = List A} (All P) (less y x) (λ _. (py, All-insert_by P less x ys px h))
        (λ _. (px, (py, h)))

  pub All-sort_by {κ} :
      (P : A → Type κ) (less : A → A → Bool) (xs : List A) → All P xs → All P (sort_by less xs)
  unfolding sort_by
  All-sort_by P less [] h = h
  All-sort_by P less (x ∷ xs) (px, h) =
      All-insert_by P less x (sort_by less xs) px (All-sort_by P less xs h)
