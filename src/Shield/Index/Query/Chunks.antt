-- ===== src/Shield/Index/Query/Chunks.antt =====
-- The chunks of QueryBand against one pass over all candidates.
use sluice_go.Shield.Index.Query.{
  Resolved, in_ranges, range_fields, resolve_one, resolve, both, resolve_chunks, query_band,
}
use sluice_go.Prelude.{
  ℕ, zero, suc, ◌≤◌, ◌≡◌, refl, sym, ap, ◌∙◌, Bool, true, false, Option, none, some, List, [], ◌∷◌,
  ◌++◌, take, drop, length, if◌then◌else◌, Bytes, arith,
}

take-drop : (n : ℕ) (xs : List Bytes) → take n xs ++ drop n xs ≡ xs
take-drop zero xs = refl
take-drop (suc n) [] = refl
take-drop (suc n) (x ∷ xs) = ap (λ t. x ∷ t) (take-drop n xs)

length-drop_le : (n : ℕ) (xs : List Bytes) → length (drop n xs) ≤ length xs
length-drop_le zero xs = omega arith
length-drop_le (suc n) [] = omega arith
length-drop_le (suc n) (x ∷ xs) = omega (arith, length-drop_le n xs)

module _ {S : Type 0} (less : S → S → Bool) (payload_at : Bytes → Option Bytes)
    (score_at : Bytes → Bytes → Option S) (range_min range_max : List (Bytes × S)) where
  abbrev all : List Bytes → Resolved
  all = resolve less payload_at score_at range_min range_max

  if-both :
      (b : Bool) (p q t : Resolved)
      → (if b then both p t else both q t) ≡ both (if b then p else q) t
  if-both true p q t = refl
  if-both false p q t = refl

  resolve_one-both :
      (ck : Bytes) (o : Option Bytes) (a b : Resolved)
      → resolve_one less payload_at score_at range_min range_max ck o (both a b)
        ≡ both (resolve_one less payload_at score_at range_min range_max ck o a) b
  unfolding resolve_one
  resolve_one-both ck none a b = refl
  resolve_one-both ck (some []) a b = refl
  resolve_one-both ck (some (x ∷ xs)) a b =
      if-both
        (in_ranges less payload_at score_at range_min range_max ck
          (range_fields range_min range_max))
        (record a { matches = record { correlation_key = ck; payload = x ∷ xs } ∷ a.matches }) a b

  resolve-append : (xs ys : List Bytes) → all (xs ++ ys) ≡ both (all xs) (all ys)
  unfolding resolve
  resolve-append [] ys = refl
  resolve-append (ck ∷ xs) ys =
      ap (λ t. resolve_one less payload_at score_at range_min range_max ck (payload_at ck) t)
        (resolve-append xs ys)
      ∙ resolve_one-both ck (payload_at ck) (all xs) (all ys)

  module _ (fails : List Bytes → Bool) (up : (chunk : List Bytes) → fails chunk ≡ false) where
    resolve_chunks_lem :
        (fuel : ℕ) (cks : List Bytes)
        → length cks ≤ fuel
        → resolve_chunks less payload_at score_at range_min range_max fails fuel cks
          ≡ some (all cks)
    unfolding resolve_chunks
    resolve_chunks_lem fuel [] h = unfold resolve in refl
    resolve_chunks_lem zero (ck ∷ cks) h = elim h [ ]
    resolve_chunks_lem (suc fuel) (ck ∷ cks) h =
        rw
          (
            up (take 500 (ck ∷ cks)),
            resolve_chunks_lem fuel (drop 500 (ck ∷ cks)) (omega (arith, length-drop_le 499 cks)),
          )
          (ap some (
            sym (resolve-append (take 500 (ck ∷ cks)) (drop 500 (ck ∷ cks)))
            ∙ ap all (take-drop 500 (ck ∷ cks))))

    -- Where no pipeline fails, the loop ends after every candidate, and QueryBand gives the matches
    -- and the dead keys that one pass over all candidates gives.
    pub query_band-eq-resolve :
        (cks : List Bytes)
        → query_band less payload_at score_at range_min range_max fails cks
          ≡ some (resolve less payload_at score_at range_min range_max cks)
    unfolding query_band
    query_band-eq-resolve cks = resolve_chunks_lem (length cks) cks (omega arith)
