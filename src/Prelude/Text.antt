-- ===== src/Prelude/Text.antt =====
-- Go strings as lists of bytes, with their Boolean equality.
use Prim.Native.Nat.{ℕ, suc}
use mathlib.Core.Path.{◌≡◌, refl}
use mathlib.Core.Bool.{Bool, true, false, ◌&&◌, ◌||◌}
use mathlib.Core.List.{List, [], ◌∷◌, ◌++◌}
use mathlib.Core.Option.{Option, none, some}
use native.Mathlib.Omega.{arith}
use sluice_go.Prelude.Tests.{◌==◌, if◌then◌else◌}
use sluice_go.Prelude.Lists.{All, length}

abbrev pub Bytes : Type 0
Bytes = List ℕ

abbrev pub bytes_eq : Bytes → Bytes → Bool
bytes_eq [] [] = true
bytes_eq (x ∷ xs) (y ∷ ys) = (x == y) && bytes_eq xs ys
bytes_eq _ _ = false

pub bytes_eq_refl : (xs : Bytes) → bytes_eq xs xs ≡ true
bytes_eq_refl [] = refl
bytes_eq_refl (x ∷ xs) = ground (arith, bytes_eq_refl xs)

pub bytes_eq→≡ : (xs ys : Bytes) → bytes_eq xs ys ≡ true → xs ≡ ys
bytes_eq→≡ [] [] h = refl
bytes_eq→≡ [] (y ∷ ys) h = cc
bytes_eq→≡ (x ∷ xs) [] h = cc
bytes_eq→≡ (x ∷ xs) (y ∷ ys) h = ground (arith, bytes_eq→≡ xs ys)

abbrev shifted : Option ℕ → Option ℕ
shifted none = none
shifted (some i) = some (suc i)

-- strings.IndexByte, with none for -1.
abbrev pub index_byte : ℕ → Bytes → Option ℕ
index_byte c [] = none
index_byte c (x ∷ xs) = if x == c then some 0 else shifted (index_byte c xs)

-- No byte of the text is c.
abbrev pub Free : ℕ → Bytes → Type 0
Free c = All (λ x. (x == c) ≡ false)

-- The first place of a byte stands right behind a text that is free of it.
pub index_byte-append :
    (c : ℕ) (xs ys : Bytes) → Free c xs → index_byte c (xs ++ c ∷ ys) ≡ some (length xs)
index_byte-append c [] ys h = ground arith
index_byte-append c (x ∷ xs) ys h = ground (arith, index_byte-append c xs ys h.1)

pub index_byte-none : (c : ℕ) (xs : Bytes) → index_byte c xs ≡ none → Free c xs
index_byte-none c [] h = tt
index_byte-none c (x ∷ xs) h = ground (arith, index_byte-none c xs)

abbrev prefix_of : Bytes → Bytes → Bool
prefix_of [] ys = true
prefix_of (x ∷ xs) [] = false
prefix_of (x ∷ xs) (y ∷ ys) = (x == y) && prefix_of xs ys

-- strings.Contains
abbrev pub contains_text : Bytes → Bytes → Bool
contains_text part [] = prefix_of part []
contains_text part (y ∷ ys) = prefix_of part (y ∷ ys) || contains_text part ys

prefix_of-append : (xs ys : Bytes) → prefix_of xs (xs ++ ys) ≡ true
prefix_of-append [] ys = refl
prefix_of-append (x ∷ xs) ys = ground (arith, prefix_of-append xs ys)

contains_text-prefix :
    (part text : Bytes) → prefix_of part text ≡ true → contains_text part text ≡ true
contains_text-prefix part [] h = h
contains_text-prefix part (y ∷ ys) h = ground (arith, h)

-- What a text contains, it contains behind any other.
pub contains_text-behind :
    (part pre text : Bytes)
    → contains_text part text ≡ true
    → contains_text part (pre ++ text) ≡ true
contains_text-behind part [] text h = h
contains_text-behind part (x ∷ pre) text h = ground (arith, contains_text-behind part pre text h)

pub contains_text-middle :
    (part pre post : Bytes) → contains_text part (pre ++ (part ++ post)) ≡ true
contains_text-middle part pre post =
    contains_text-behind part pre (part ++ post)
      (contains_text-prefix part _ (prefix_of-append part post))
