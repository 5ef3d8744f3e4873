-- ===== src/LocalJournal/Recency.antt =====
-- The LRU list of a shard: its keys are distinct, and what removals leave.
use sluice_go.LocalJournal.{without, back, but_back}
use sluice_go.Prelude.{
  suc, ◌≤◌, ◌≡◌, refl, Bool, true, false, not, ◌&&◌, ◌||◌, none, some, List, [], ◌∷◌, length, Bytes,
  bytes_eq, bytes_eq→≡, bytes_eq_refl, arith, Bool-cases, inl, inr, subst, sym,
}

abbrev pub listed : Bytes → List Bytes → Bool
listed k [] = false
listed k (j ∷ js) = bytes_eq j k || listed k js

abbrev pub Distinct : List Bytes → Type 0
Distinct [] = Unit
Distinct (k ∷ ks) = (listed k ks ≡ false) × Distinct ks

pub listed-without :
    (key k : Bytes) (ks : List Bytes)
    → listed k (without key ks) ≡ (listed k ks && not (bytes_eq key k))
unfolding without
listed-without key k [] = refl
listed-without key k (j ∷ js) =
    ground (arith, listed-without key k js, bytes_eq→≡ key j, bytes_eq→≡ j k)

pub without-Distinct : (key : Bytes) (ks : List Bytes) → Distinct ks → Distinct (without key ks)
unfolding without
without-Distinct key [] h = tt
without-Distinct key (j ∷ js) h =
    ground (arith, listed-without key j js, without-Distinct key js h.1)

pub length-without_le : (key : Bytes) (ks : List Bytes) → length (without key ks) ≤ length ks
unfolding without
length-without_le key [] = omega arith
length-without_le key (j ∷ js) = ground (arith, length-without_le key js)

pub length-without_lt :
    (key : Bytes) (ks : List Bytes)
    → listed key ks ≡ true
    → suc (length (without key ks)) ≤ length ks
unfolding without
length-without_lt key [] h = ground arith
length-without_lt key (j ∷ js) h =
    ground (
      arith,
      length-without_lt key js,
      length-without_le key js,
      bytes_eq→≡ j key,
      bytes_eq_refl key,
    )

back-listed : (b : Bytes) (ks : List Bytes) → back ks ≡ some b → listed b ks ≡ true
unfolding back
back-listed b [] e = ground arith
back-listed b (j ∷ []) e = ground (arith, bytes_eq_refl j)
back-listed b (j ∷ i ∷ ks) e = ground (arith, back-listed b (i ∷ ks) e)

pub other_back :
    (j b : Bytes) (ks : List Bytes) → listed j ks ≡ false → back ks ≡ some b → bytes_eq b j ≡ false
other_back j b ks h e = elim (Bool-cases (bytes_eq b j)) [
  | inl same ↦ cc (h, back-listed b ks e, bytes_eq→≡ b j same)
  | inr other ↦ other
]

-- The back of a list of distinct keys is listed once.
pub listed-but_back :
    (k b : Bytes) (ks : List Bytes)
    → Distinct ks
    → back ks ≡ some b
    → listed k (but_back ks) ≡ (listed k ks && not (bytes_eq b k))
unfolding back but_back
listed-but_back k b [] h e = ground arith
listed-but_back k b (j ∷ []) h e = ground (arith, bytes_eq→≡ j k, bytes_eq_refl k)
listed-but_back k b (j ∷ i ∷ ks) h e = elim (Bool-cases (bytes_eq j k)) [
  | inl same ↦
      let other : bytes_eq b k ≡ false =
        other_back k b (i ∷ ks) (subst (λ x. listed x (i ∷ ks) ≡ false) (bytes_eq→≡ j k same) h.0)
          e in
      rw (same, other)
  | inr other ↦ rw (other, listed-but_back k b (i ∷ ks) h.1 e)
]

pub but_back-Distinct :
    (b : Bytes) (ks : List Bytes) → Distinct ks → back ks ≡ some b → Distinct (but_back ks)
unfolding back but_back
but_back-Distinct b [] h e = tt
but_back-Distinct b (j ∷ []) h e = tt
but_back-Distinct b (j ∷ i ∷ ks) h e =
    (rw (listed-but_back j b (i ∷ ks) h.1 e, h.0), but_back-Distinct b (i ∷ ks) h.1 e)

length-but_back : (k : Bytes) (ks : List Bytes) → length (k ∷ ks) ≡ suc (length (but_back (k ∷ ks)))
unfolding but_back
length-but_back k [] = refl
length-but_back k (j ∷ ks) = ground (arith, length-but_back j ks)

pub back-none : (ks : List Bytes) → back ks ≡ none → length ks ≡ 0
unfolding back
back-none [] e = refl
back-none (k ∷ []) e = ground arith
back-none (k ∷ j ∷ ks) e = ground (arith, back-none (j ∷ ks) e)

pub suc-length-but_back :
    (b : Bytes) (ks : List Bytes) → back ks ≡ some b → suc (length (but_back ks)) ≡ length ks
unfolding back but_back
suc-length-but_back b [] e = ground arith
suc-length-but_back b (k ∷ ks) e = sym (length-but_back k ks)
