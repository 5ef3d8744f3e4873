-- ===== src/Shield/Index/Current.antt =====
-- The index update spares the indexes of the values that a key now has.
use sluice_go.Naming.{index_key}
use sluice_go.Naming.Distinct.{
  index_key-injective, index_values_key-index_key, range_index_key-index_key,
  index_expiry_key-index_key,
}
use sluice_go.Shield.Index.{
  FieldValue, equality, score, unsupported, Queued, sadd, srem, zrem, zadd, zadd_expiry, expire,
  del, hset, value_of, stored_equality, next_values, cut_equality, is_current, add_field,
  add_fields, drop_range, drop_stale, drop_old, write_values, queue_index_update,
}
use sluice_go.Prelude.{
  ℕ, ◌<◌, ◌⊎◌, ◌≡◌, ◌≢◌, refl, ap, ◌∙◌, Bool, true, false, ◌&&◌, ◌==◌, ==→≡, &&_both, Option, none,
  some, List, [], ◌∷◌, if◌then◌else◌, Bytes, bytes_eq, bytes_eq_refl, All, All-append, Free,
  Bool-cases, inl, inr,
}

-- The command does not remove a member from this set, nor deletes it or writes another type there;
-- an expiry that it gets is later than now.
abbrev pub Spares : {S : Type 0} → Bytes → Queued S → Type 0
Spares key (srem k m) = k ≢ key
Spares key (sadd k m) = Unit
Spares key (zrem k m) = k ≢ key
Spares key (zadd k s m) = k ≢ key
Spares key (zadd_expiry k at m) = k ≢ key
Spares key (expire k t) = (k ≢ key) ⊎ (0 < t)
Spares key (del k) = k ≢ key
Spares key (hset k fs) = k ≢ key

cut_same : (v w : Bytes) → some v ≡ some w → v ≡ w
cut_same v w h = cc

clash : {b : Bool} → b ≡ true → b ≡ false → ⊥
clash h k = cc

if-cut : (b : Bool) (v w : Bytes) → (if b then some v else none) ≡ some w → (b ≡ true) × (v ≡ w)
if-cut true v w h = (refl, cut_same v w h)
if-cut false v w h = cc

cut_equality_lem : (prev w : Bytes) → cut_equality prev ≡ some w → prev ≡ stored_equality w
cut_equality_lem [] w h = cc
cut_equality_lem (a ∷ []) w h = cc
cut_equality_lem (a ∷ b ∷ v) w h =
    let (test, same) = if-cut ((a == 115) && (b == 58)) v w h in
    let (s, colon) = &&_both (a == 115) (b == 58) test in
    rw (==→≡ a 115 s, ==→≡ b 58 colon, same) refl

module _ (S : Type 0) (ns : Bytes) (band ttl : ℕ) (ck : Bytes) (f v : Bytes) (free : Free 58 f)
    (positive : 0 < ttl) where
  add_field-Spares :
      (g : Bytes) (x : FieldValue S)
      → All (Spares (index_key ns band f v)) (add_field ns band ttl ck g x)
  unfolding add_field
  add_field-Spares g (equality w) = (tt, (inr positive, (tt, tt)))
  add_field-Spares g (score s) = (range_index_key-index_key ns band f v g, (inr positive, (tt, tt)))
  add_field-Spares g unsupported = tt

  add_fields-Spares :
      (fields : List (Bytes × FieldValue S))
      → All (Spares (index_key ns band f v)) (add_fields ns band ttl ck fields)
  unfolding add_fields
  add_fields-Spares [] = tt
  add_fields-Spares ((g, x) ∷ rest) =
      All-append (Spares (index_key ns band f v)) _ _ (add_field-Spares g x)
        (add_fields-Spares rest)

  write_values-Spares :
      (now : ℕ) (next : List (Bytes × Bytes))
      → All (Spares {S = S} (index_key ns band f v)) (write_values ns band ttl ck now next)
  unfolding write_values
  write_values-Spares now [] = (index_expiry_key-index_key ns band f v, tt)
  write_values-Spares now (x ∷ xs) = (
    index_values_key-index_key ns band f v ck,
    (inr positive, (inr positive, (index_expiry_key-index_key ns band f v, tt))),
  )

  module _ (next : List (Bytes × Bytes))
      (current : value_of f next ≡ some (stored_equality v)) where
    -- An old value that is in the same index is current.
    same_current :
        (g prev w : Bytes)
        → Free 58 g
        → cut_equality prev ≡ some w
        → index_key ns band g w ≡ index_key ns band f v
        → is_current (value_of g next) prev ≡ true
    same_current g prev w free_g cut same =
        let (fields, values) = index_key-injective ns band g f w v free_g free same in
        let was : prev ≡ stored_equality v =
          cut_equality_lem prev w cut ∙ ap stored_equality values in
        let now : value_of g next ≡ some (stored_equality v) =
          ap (λ t. value_of t next) fields ∙ current in
        ap (λ t. is_current t prev) now
        ∙ ap (λ t. bytes_eq (stored_equality v) t) was
        ∙ bytes_eq_refl (stored_equality v)

    drop_range-Spares :
        (g : Bytes) (cur : Option Bytes)
        → All (Spares {S = S} (index_key ns band f v)) (drop_range ns band ttl ck g cur)
    unfolding drop_range
    drop_range-Spares g none = (range_index_key-index_key ns band f v g, tt)
    drop_range-Spares g (some cur) = tt

    drop_stale-Spares :
        (g prev : Bytes) (o : Option Bytes)
        → Free 58 g
        → cut_equality prev ≡ o
        → is_current (value_of g next) prev ≡ false
        → All
            (Spares {S = S} (index_key ns band f v))
            (drop_stale ns band ttl ck g o (value_of g next))
    unfolding drop_stale
    drop_stale-Spares g prev none free_g cut stale = drop_range-Spares g (value_of g next)
    drop_stale-Spares g prev (some w) free_g cut stale =
        (λ same. clash (same_current g prev w free_g cut same) stale, tt)

    drop_old-Spares :
        (old : List (Bytes × Bytes))
        → All (λ p. Free 58 p.0) old
        → All (Spares {S = S} (index_key ns band f v)) (drop_old ns band ttl ck next old)
    unfolding drop_old
    drop_old-Spares [] h = tt
    drop_old-Spares ((g, prev) ∷ rest) h = elim (Bool-cases (is_current (value_of g next) prev)) [
      | inl kept ↦ rw kept (drop_old-Spares rest h.1)
      | inr stale ↦ rw stale (
          All-append (Spares (index_key ns band f v)) _ _
            (drop_stale-Spares g prev (cut_equality prev) h.0 refl stale)
            (drop_old-Spares rest h.1))
    ]

  -- When neither the name of a field nor a name in idxv has a colon in it, the TTL is above 0, and
  -- the field now has a string value: the pipeline of the update removes no member from the index
  -- of that value, does not delete or overwrite it, and gives it no expiry but the TTL, whatever
  -- values idxv had.
  pub queue_index_update-Spares :
      (now : ℕ) (fields : List (Bytes × FieldValue S)) (old : List (Bytes × Bytes))
      → value_of f (next_values fields) ≡ some (stored_equality v)
      → All (λ p. Free 58 p.0) old
      → All (Spares (index_key ns band f v)) (queue_index_update ns band ttl ck now fields old)
  unfolding queue_index_update
  queue_index_update-Spares now fields old current h =
      All-append (Spares (index_key ns band f v)) _ _ (add_fields-Spares fields) (
        All-append (Spares (index_key ns band f v)) _ _
          (drop_old-Spares (next_values fields) current old h)
          (index_values_key-index_key ns band f v ck, write_values-Spares now (next_values fields)))
