-- ===== src/Naming/Decimal.antt =====
-- The `%d` verb of fmt for a number that is not negative, and the reading of such a text
-- (fmt.Sprintf and fmt.Sscanf of the Go standard library, on digits).
use sluice_go.Prelude.{
  ℕ, zero, suc, ◌+◌, ◌-◌, ◌*◌, ◌/◌, ◌%◌, ◌≤◌, ◌<◌, ◌≡◌, ap, ◌∙◌, Bool, ◌&&◌, [], ◌∷◌, ◌++◌, Option,
  none, some, ltb, leb, if◌then◌else◌, All, All-append, Bytes, arith, Bool-cases, inl, inr, length,
  length-append,
}

-- The digits of n, on fuel.
digits : ℕ → ℕ → Bytes
digits zero n = []
digits (suc f) n =
    let rest = digits f (n / 10) ++ (48 + n % 10) ∷ [] in if ltb n 10 then (48 + n) ∷ [] else rest

-- fmt.Sprintf("%d", n): the fuel n + 1 is enough.
unfoldable pub itoa : ℕ → Bytes
unfolding digits
itoa n = digits (suc n) n

abbrev pub is_digit : ℕ → Bool
is_digit c = leb 48 c && leb c 57

unfoldable pub atoi : ℕ → Bytes → Option ℕ
atoi acc [] = some acc
atoi acc (c ∷ cs) = let rest = atoi (acc * 10 + (c - 48)) cs in if is_digit c then rest else none

abbrev pub IsDigit : ℕ → Type 0
IsDigit c = (48 ≤ c) × (c ≤ 57)

digits-IsDigit : (f n : ℕ) → All IsDigit (digits f n)
unfolding digits
digits-IsDigit zero n = tt
digits-IsDigit (suc f) n =
    ground (
      arith,
      All-append IsDigit (digits f (n / 10)) ((48 + n % 10) ∷ []) (digits-IsDigit f (n / 10)),
    )

pub itoa-IsDigit : (n : ℕ) → All IsDigit (itoa n)
unfolding itoa
itoa-IsDigit n = digits-IsDigit (suc n) n

pub length-itoa : (n : ℕ) → 0 < length (itoa n)
unfolding itoa digits
length-itoa n = ground (arith, length-append (digits n (n / 10)) ((48 + n % 10) ∷ []))

-- Reading a text and one more digit.
atoi-snoc :
    (acc m d : ℕ) (xs : Bytes)
    → d < 10
    → atoi acc xs ≡ some m
    → atoi acc (xs ++ (48 + d) ∷ []) ≡ some (m * 10 + d)
unfolding atoi
atoi-snoc acc m d [] h e = ground arith
atoi-snoc acc m d (x ∷ xs) h e = ground (arith, atoi-snoc (acc * 10 + (x - 48)) m d xs)

atoi-digits : (f n : ℕ) → n < f → atoi 0 (digits f n) ≡ some n
unfolding digits
atoi-digits zero n h = elim h [ ]
atoi-digits (suc f) n h = elim (Bool-cases (ltb n 10)) [
  | inl small ↦ rw small (unfold atoi in ground arith)
  | inr big ↦ rw big (
      atoi-snoc 0 (n / 10) (n % 10) (digits f (n / 10)) (omega arith)
        (atoi-digits f (n / 10) (ground arith))
      ∙ ap some (omega arith))
]

pub atoi-itoa : (n : ℕ) → atoi 0 (itoa n) ≡ some n
unfolding itoa
atoi-itoa n = atoi-digits (suc n) n (omega arith)

pub itoa-injective : (m n : ℕ) → itoa m ≡ itoa n → m ≡ n
itoa-injective m n e = cc (atoi-itoa m, atoi-itoa n)
