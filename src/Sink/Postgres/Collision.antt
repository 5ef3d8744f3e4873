-- ===== src/Sink/Postgres/Collision.antt =====
-- Two rows with different conflict columns that BulkWrite takes for duplicates.
use sluice_go.Naming.{codes}
use sluice_go.Sink.{class_permanent}
use sluice_go.Sink.Values.{object, Model, value_at, error_of, sorted_columns_from_map, same_columns}
use sluice_go.Sink.Postgres.Sql.{Config}
use sluice_go.Sink.Postgres.{
  unvetted, vet_key, vet_columns, vet_upsert, vet, build_conflict_key_from_map,
}
use sluice_go.Prelude.{
  ◌≡◌, refl, true, false, Option, some, List, [], ◌∷◌, ◌++◌, Bytes, bytes_eq_refl, append_assoc,
  arith,
}

same_columns_refl : (cs : List Bytes) → same_columns cs cs ≡ true
unfolding same_columns
same_columns_refl [] = refl
same_columns_refl (c ∷ cs) = ground (arith, bytes_eq_refl c, same_columns_refl cs)

module _ {A : Type 0} (show : Option A → Bytes) (c d : Bytes) where
  key-pair :
      (item : List (Bytes × A)) (a b : A)
      → value_at c item ≡ some a
      → value_at d item ≡ some b
      → build_conflict_key_from_map show item (c ∷ d ∷ [])
        ≡ show (some a) ++ (codes "|" ++ show (some b))
  unfolding build_conflict_key_from_map
  key-pair item a b h k = rw (h, k) refl

  collided :
      (x y z : Bytes) (item item' : List (Bytes × A)) (a b a' b' : A)
      → value_at c item ≡ some a
      → value_at d item ≡ some b
      → value_at c item' ≡ some a'
      → value_at d item' ≡ some b'
      → show (some a) ≡ x ++ (codes "|" ++ y)
      → show (some b) ≡ z
      → show (some a') ≡ x
      → show (some b') ≡ y ++ (codes "|" ++ z)
      → build_conflict_key_from_map show item (c ∷ d ∷ [])
        ≡ build_conflict_key_from_map show item' (c ∷ d ∷ [])
  collided x y z item item' a b a' b' h k h' k' e e2 e3 e4 =
      rw (key-pair item a b h k, key-pair item' a' b' h' k', e, e2, e3, e4)
        (append_assoc x (codes "|" ++ y) (codes "|" ++ z))

-- A batch of two upserts with the same columns, in which the values of the two conflict columns
-- differ, since the first value of one is the other's up to a "|" that it holds: the second model
-- is refused as a duplicate, with a permanent error.
pub vet-collided :
    {A : Type 0} (show : Option A → Bytes) (cfg : Config) (c d x y z : Bytes)
    (item item' : List (Bytes × A)) (a b a' b' : A) (m n : Model A)
    → cfg.conflict_columns ≡ c ∷ d ∷ []
    → sorted_columns_from_map item' ≡ sorted_columns_from_map item
    → value_at c item ≡ some a
    → value_at d item ≡ some b
    → value_at c item' ≡ some a'
    → value_at d item' ≡ some b'
    → show (some a) ≡ x ++ (codes "|" ++ y)
    → show (some b) ≡ z
    → show (some a') ≡ x
    → show (some b') ≡ y ++ (codes "|" ++ z)
    → m.many ≡ false
    → n.many ≡ false
    → m.update ≡ object item
    → n.update ≡ object item'
    → let v = vet show cfg (m ∷ n ∷ []) unvetted in
      (v.upsert_models ≡ m ∷ [])
      × (v.pre_errors ≡ error_of n class_permanent (codes "duplicate conflict key in batch") ∷ [])
unfolding vet vet_upsert vet_columns vet_key
vet-collided show cfg c d x y z item item' a b a' b' m n hc cols h k h' k' e e2 e3 e4 hm hn um un =
    rw
      (
        hm,
        hn,
        um,
        un,
        hc,
        cols,
        same_columns_refl (sorted_columns_from_map item),
        collided show c d x y z item item' a b a' b' h k h' k' e e2 e3 e4,
        bytes_eq_refl (build_conflict_key_from_map show item' (c ∷ d ∷ [])),
      )
      (refl, refl)
