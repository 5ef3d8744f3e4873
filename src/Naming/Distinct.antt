-- ===== src/Naming/Distinct.antt =====
-- When two names of equality indexes are the same.
use sluice_go.Naming.{codes, index_key, index_values_key, range_index_key, index_expiry_key}
use sluice_go.Naming.Decimal.{itoa}
use sluice_go.Prelude.{
  ℕ, ◌≡◌, ◌≢◌, refl, Bool, true, false, bytes_eq, ap, sym, ◌∙◌, some, ◌∷◌, ◌++◌, length, take, drop,
  take-append, drop-append, Bytes, Free, index_byte, index_byte-append,
}

append-cancel : (xs ys zs : Bytes) → xs ++ ys ≡ xs ++ zs → ys ≡ zs
append-cancel xs ys zs h =
    sym (drop-append xs ys) ∙ ap (λ t. drop (length xs) t) h ∙ drop-append xs zs

some-injective : (m n : ℕ) → some m ≡ some n → m ≡ n
some-injective m n h = cc

same_length :
    (f g v w : Bytes) → Free 58 f → Free 58 g → f ++ 58 ∷ v ≡ g ++ 58 ∷ w → length f ≡ length g
same_length f g v w hf hg h =
    some-injective (length f) (length g) (
      sym (index_byte-append 58 f v hf) ∙ ap (λ t. index_byte 58 t) h ∙ index_byte-append 58 g w hg)

colon-injective :
    (f g v w : Bytes) → Free 58 f → Free 58 g → f ++ 58 ∷ v ≡ g ++ 58 ∷ w → (f ≡ g) × (v ≡ w)
colon-injective f g v w hf hg h =
    let n = same_length f g v w hf hg h in
    let same : f ≡ g =
      sym (take-append f (58 ∷ v))
      ∙ ap (λ t. take (length f) t) h
      ∙ ap (λ k. take k (g ++ 58 ∷ w)) n
      ∙ take-append g (58 ∷ w) in
    (
      same,
      ap (λ t. drop 1 t) (append-cancel g (58 ∷ v) (58 ∷ w) (ap (λ t. t ++ 58 ∷ v) (sym same) ∙ h)),
    )

-- Field names without a colon keep the names of equality indexes apart.
pub index_key-injective :
    (ns : Bytes) (band : ℕ) (f g v w : Bytes)
    → Free 58 f
    → Free 58 g
    → index_key ns band f v ≡ index_key ns band g w
    → (f ≡ g) × (v ≡ w)
unfolding index_key
index_key-injective ns band f g v w hf hg h = colon-injective f g v w hf hg (
    append-cancel (codes "}:") _ _ (
      append-cancel (itoa band) _ _ (
        append-cancel (codes ":idx:{") _ _
          (append-cancel ns _ _ (append-cancel (codes "sl:") _ _ h)))))

-- The hashes of indexed values of two keys are two.
pub index_values_key-injective :
    (ns : Bytes) (band : ℕ) (j k : Bytes)
    → index_values_key ns band j ≡ index_values_key ns band k
    → j ≡ k
unfolding index_values_key
index_values_key-injective ns band j k h = append-cancel (codes "}:") _ _ (
    append-cancel (itoa band) _ _ (
      append-cancel (codes ":idxv:{") _ _
        (append-cancel ns _ _ (append-cancel (codes "sl:") _ _ h))))

apart : true ≡ false → ⊥
apart h = cc

-- Behind the namespace, a test tells the names of two kinds apart.
other_kind :
    (ns : Bytes) (test : Bytes → Bool) (xs ys : Bytes)
    → test xs ≡ true
    → test ys ≡ false
    → codes "sl:" ++ (ns ++ xs) ≢ codes "sl:" ++ (ns ++ ys)
other_kind ns test xs ys yes_it no_it h =
    apart
      (sym yes_it ∙ ap test (append-cancel ns xs ys (append-cancel (codes "sl:") _ _ h)) ∙ no_it)

module _ (ns : Bytes) (band : ℕ) (field value : Bytes) where
  pub index_values_key-index_key :
      (ck : Bytes) → index_values_key ns band ck ≢ index_key ns band field value
  unfolding index_values_key index_key
  index_values_key-index_key ck =
      other_kind ns (λ t. bytes_eq (take 5 t) (codes ":idxv")) _ _ refl refl

  pub range_index_key-index_key :
      (f : Bytes) → range_index_key ns band f ≢ index_key ns band field value
  unfolding range_index_key index_key
  range_index_key-index_key f =
      other_kind ns (λ t. bytes_eq (take 5 t) (codes ":ridx")) _ _ refl refl

  pub index_expiry_key-index_key : index_expiry_key ns band ≢ index_key ns band field value
  unfolding index_expiry_key index_key
  index_expiry_key-index_key =
      other_kind ns (λ t. bytes_eq (take 5 t) (codes ":idxe")) _ _ refl refl
