-- ===== src/Prelude/Lists.antt =====
-- Lists over the native numbers, and predicates on lists by recursion.
use Prim.Native.Nat.{ℕ, zero, suc, ◌+◌, ◌≤◌}
use mathlib.Core.Path.{◌≡◌, refl, ap, sym, ◌∙◌}
use mathlib.Core.Logic.{◌⊎◌, inl, inr}
use mathlib.Core.Bool.{Bool, true}
use mathlib.Core.List.{List, [], ◌∷◌, ◌++◌, map}
use native.Mathlib.Omega.{arith}
use sluice_go.Prelude.Tests.{if◌then◌else◌, Bool-cases}

module _ {ℓ} {A : Type ℓ} where
  abbrev pub length : List A → ℕ
  length [] = 0
  length (x ∷ xs) = suc (length xs)

  abbrev pub take : ℕ → List A → List A
  take zero xs = []
  take (suc n) [] = []
  take (suc n) (x ∷ xs) = x ∷ take n xs

  abbrev pub drop : ℕ → List A → List A
  drop zero xs = xs
  drop (suc n) [] = []
  drop (suc n) (x ∷ xs) = drop n xs

  pub take-append : (xs ys : List A) → take (length xs) (xs ++ ys) ≡ xs
  take-append [] ys = refl
  take-append (x ∷ xs) ys = cc (take-append xs ys)

  pub drop-append : (xs ys : List A) → drop (length xs) (xs ++ ys) ≡ ys
  drop-append [] ys = refl
  drop-append (x ∷ xs) ys = drop-append xs ys

  -- The elements that pass a Boolean test, in order.
  abbrev pub filter : (A → Bool) → List A → List A
  filter t [] = []
  filter t (x ∷ xs) = let rest = filter t xs in if t x then x ∷ rest else rest

  pub length-append : (xs ys : List A) → length (xs ++ ys) ≡ length xs + length ys
  length-append [] ys = omega arith
  length-append (x ∷ xs) ys = omega (arith, length-append xs ys)

  pub length-filter-le : (t : A → Bool) (xs : List A) → length (filter t xs) ≤ length xs
  length-filter-le t [] = omega arith
  length-filter-le t (x ∷ xs) = ground (arith, length-filter-le t xs)

module _ {ℓ κ} {A : Type ℓ} where
  abbrev pub All : (A → Type κ) → List A → Type κ
  All P [] = Unit
  All P (x ∷ xs) = P x × All P xs

  pub All-append : (P : A → Type κ) (xs ys : List A) → All P xs → All P ys → All P (xs ++ ys)
  All-append P [] ys a b = b
  All-append P (x ∷ xs) ys a b = (a.0, All-append P xs ys a.1 b)

  pub All-filter : (P : A → Type κ) (t : A → Bool) (xs : List A) → All P xs → All P (filter t xs)
  All-filter P t [] a = tt
  All-filter P t (x ∷ xs) a = ground (arith, All-filter P t xs a.1)

module _ {A : Type 0} where
  -- The element stands in the list.
  abbrev pub Listed : A → List A → Type 0
  Listed x [] = ⊥
  Listed x (y ∷ ys) = (x ≡ y) ⊎ Listed x ys

  pub Listed-append_left : (x : A) (xs ys : List A) → Listed x xs → Listed x (xs ++ ys)
  Listed-append_left x [] ys h = absurd h
  Listed-append_left x (z ∷ xs) ys (inl e) = inl e
  Listed-append_left x (z ∷ xs) ys (inr h) = inr (Listed-append_left x xs ys h)

  pub Listed-append_right : (x : A) (xs ys : List A) → Listed x ys → Listed x (xs ++ ys)
  Listed-append_right x [] ys h = h
  Listed-append_right x (z ∷ xs) ys h = inr (Listed-append_right x xs ys h)

  pub Listed-append_cases :
      (x : A) (xs ys : List A) → Listed x (xs ++ ys) → Listed x xs ⊎ Listed x ys
  Listed-append_cases x [] ys h = inr h
  Listed-append_cases x (z ∷ xs) ys (inl e) = inl (inl e)
  Listed-append_cases x (z ∷ xs) ys (inr h) = elim (Listed-append_cases x xs ys h) [
    | inl l ↦ inl (inr l)
    | inr l ↦ inr l
  ]

  pub Listed-last : (x : A) (xs : List A) → Listed x (xs ++ x ∷ [])
  Listed-last x xs = Listed-append_right x xs (x ∷ []) (inl refl)

pub Listed-filter :
    {A : Type 0} (t : A → Bool) (x : A) (xs : List A)
    → t x ≡ true
    → Listed x xs
    → Listed x (filter t xs)
Listed-filter t x [] e h = absurd h
Listed-filter t x (y ∷ ys) e (inl same) = rw (sym (ap t same) ∙ e) (inl same)
Listed-filter t x (y ∷ ys) e (inr h) = elim (Bool-cases (t y)) [
  | inl yes_it ↦ rw yes_it (inr (Listed-filter t x ys e h))
  | inr no_it ↦ rw no_it (Listed-filter t x ys e h)
]

pub Listed-map :
    {A B : Type 0} (f : A → B) (x : A) (xs : List A) → Listed x xs → Listed (f x) (map f xs)
Listed-map f x [] h = absurd h
Listed-map f x (y ∷ ys) (inl e) = inl (ap f e)
Listed-map f x (y ∷ ys) (inr h) = inr (Listed-map f x ys h)
