-- ===== src/Sink/Postgres/Sorting.antt =====
-- How the first loop of BulkWrite sorts the models of a batch.
use sluice_go.Sink.{SinkError}
use sluice_go.Sink.Values.{
  Value, nothing, other, text, slice, object, Model, sorted_columns_from_map, same_columns,
}
use sluice_go.Sink.Postgres.Sql.{Config}
use sluice_go.Sink.Postgres.{
  Vetted, reject, vet_filter, vet_many, vet_key, vet_columns, vet_upsert, vet,
  build_conflict_key_from_map, columns_or_nil,
}
use sluice_go.Sink.Postgres.Rows.{IsRaw, IsRow}
use sluice_go.Engine.Partition.{named}
use sluice_go.Prelude.{
  ◌≡◌, refl, sym, subst, ◌∙◌, Bool-cases, &&_both, bytes_eq, bytes_eq→≡, ◌⊎◌, inl, inr, Bool, true,
  false, ◌||◌, Option, none, some, List, [], ◌∷◌, ◌++◌, Bytes, bytes_eq_refl, All, arith,
  if◌then◌else◌, Listed, Listed-append_left, Listed-last,
}

pub named-append :
    (xs ys : List SinkError) (k : Bytes) → named (xs ++ ys) k ≡ (named xs k || named ys k)
unfolding named
named-append [] ys k = refl
named-append (x ∷ xs) ys k = ground (arith, named-append xs ys k)

pub named_left :
    (xs ys : List SinkError) (k : Bytes) → named xs k ≡ true → named (xs ++ ys) k ≡ true
named_left xs ys k h = ground (arith, named-append xs ys k)

pub named_right :
    (xs ys : List SinkError) (k : Bytes) → named ys k ≡ true → named (xs ++ ys) k ≡ true
named_right xs ys k h = ground (arith, named-append xs ys k)

same_columns→≡ : (xs ys : List Bytes) → same_columns xs ys ≡ true → xs ≡ ys
unfolding same_columns
same_columns→≡ [] [] h = refl
same_columns→≡ [] (y ∷ ys) h = cc
same_columns→≡ (x ∷ xs) [] h = cc
same_columns→≡ (x ∷ xs) (y ∷ ys) h =
    let (first, later) = &&_both (bytes_eq x y) (same_columns xs ys) h in
    rw (bytes_eq→≡ x y first, same_columns→≡ xs ys later) refl

-- A row of the insert, whose columns are those that the loop expects.
abbrev RowOf : {A : Type 0} → Option (List Bytes) → Model A → Type 0
RowOf none m = ⊥
RowOf (some cols) m = IsRow cols m

pub RowOf-IsRow :
    {A : Type 0} (e : Option (List Bytes)) (m : Model A) → RowOf e m → IsRow (columns_or_nil e) m
RowOf-IsRow none m h = absurd h
RowOf-IsRow (some cols) m h = h

module _ {A : Type 0} (show : Option A → Bytes) (cfg : Config) where
  -- An error, a raw update or a row of the insert.
  unfoldable pub Sorted : Vetted A → Model A → Type 0
  Sorted v m =
      (named v.pre_errors m.correlation_key ≡ true)
      ⊎ ((Listed m v.many_models × IsRaw m) ⊎ (Listed m v.upsert_models × RowOf v.expected_cols m))

  Takes : Model A → Vetted A → Vetted A → Type 0
  Takes m v w = Sorted w m × ((n : Model A) → Sorted v n → Sorted w n)

  reject-Takes : (m : Model A) (why : Bytes) (v : Vetted A) → Takes m v (reject m why v)
  unfolding Takes Sorted named
  reject-Takes m why v = (
    inl (
        named_right v.pre_errors _ m.correlation_key
          (ground (arith, bytes_eq_refl m.correlation_key))),
    λ n. elim [ inl h ↦ inl (named_left v.pre_errors _ n.correlation_key h) | inr h ↦ inr h ],
  )

  many-Takes :
      (m : Model A) (v : Vetted A)
      → IsRaw m
      → Takes m v (record v { many_models = v.many_models ++ m ∷ [] })
  unfolding Takes Sorted
  many-Takes m v raw = (
    inr (inl (Listed-last m v.many_models, raw)),
    λ n. elim [
      | inl h ↦ inl h
      | inr (inl (h, r)) ↦ inr (inl (Listed-append_left n v.many_models _ h, r))
      | inr (inr h) ↦ inr (inr h)
    ],
  )

  upsert-Takes :
      (m : Model A) (keys : List Bytes) (v : Vetted A)
      → RowOf v.expected_cols m
      → Takes m v
          (record v { seen_conflict_keys = keys; upsert_models = v.upsert_models ++ m ∷ [] })
  unfolding Takes Sorted
  upsert-Takes m keys v row = (
    inr (inr (Listed-last m v.upsert_models, row)),
    λ n. elim [
      | inl h ↦ inl h
      | inr (inl h) ↦ inr (inl h)
      | inr (inr (h, r)) ↦ inr (inr (Listed-append_left n v.upsert_models _ h, r))
    ],
  )

  vet_filter-Takes :
      (m : Model A) (sql : Bytes) (f : Value A) (v : Vetted A)
      → m.update ≡ text sql
      → m.filter ≡ f
      → Takes m v (vet_filter m f v)
  unfolding vet_filter
  vet_filter-Takes m sql nothing v e h = many-Takes m v (sql, e, inl h)
  vet_filter-Takes m sql (slice xs) v e h = many-Takes m v (sql, e, inr (xs, h))
  vet_filter-Takes m sql other v e h = reject-Takes m _ v
  vet_filter-Takes m sql (text s) v e h = reject-Takes m _ v
  vet_filter-Takes m sql (object item) v e h = reject-Takes m _ v

  vet_many-Takes :
      (m : Model A) (u : Value A) (v : Vetted A) → m.update ≡ u → Takes m v (vet_many m u v)
  unfolding vet_many
  vet_many-Takes m (text sql) v e = vet_filter-Takes m sql m.filter v e refl
  vet_many-Takes m nothing v e = reject-Takes m _ v
  vet_many-Takes m other v e = reject-Takes m _ v
  vet_many-Takes m (slice xs) v e = reject-Takes m _ v
  vet_many-Takes m (object item) v e = reject-Takes m _ v

  if-Takes :
      (b : Bool) (m : Model A) (v w w' : Vetted A)
      → Takes m v w
      → Takes m v w'
      → Takes m v (if b then w else w')
  if-Takes true m v w w' h h' = h
  if-Takes false m v w w' h h' = h'

  vet_key-Takes :
      (m : Model A) (key : Bytes) (v : Vetted A)
      → RowOf v.expected_cols m
      → Takes m v (vet_key show m key v)
  unfolding vet_key
  vet_key-Takes m key v row = if-Takes _ m v _ _ (reject-Takes m _ v) (upsert-Takes m _ v row)

  -- While no columns are expected there is no row.
  expect-keeps :
      (cols : List Bytes) (e : Option (List Bytes)) (v : Vetted A) (n : Model A)
      → e ≡ none
      → v.expected_cols ≡ e
      → Sorted v n
      → Sorted (record v { expected_cols = some cols }) n
  unfolding Sorted
  expect-keeps cols e v n none_yet same (inl h) = inl h
  expect-keeps cols e v n none_yet same (inr (inl h)) = inr (inl h)
  expect-keeps cols e v n none_yet same (inr (inr (h, r))) =
      absurd (subst (λ o. RowOf o n) (same ∙ none_yet) r)

  vet_columns-Takes :
      (m : Model A) (item : List (Bytes × A)) (e : Option (List Bytes)) (v : Vetted A)
      → m.update ≡ object item
      → v.expected_cols ≡ e
      → Takes m v (vet_columns show cfg m item e v)
  unfolding vet_columns Takes
  vet_columns-Takes m item none v u same =
      let expecting : Vetted A = record v { expected_cols = some (sorted_columns_from_map item) } in
      let taken =
        vet_key-Takes m (build_conflict_key_from_map show item cfg.conflict_columns) expecting
          (item, u, refl) in
      (taken.0, λ n h. taken.1 n (expect-keeps _ none v n refl same h))
  vet_columns-Takes m item (some cols) v u same =
      elim (Bool-cases (same_columns cols (sorted_columns_from_map item))) [
        | inl e ↦ rw e (
            vet_key-Takes m _ v (
              subst (λ o. RowOf o m) (sym same)
                (item, u, same_columns→≡ cols (sorted_columns_from_map item) e)))
        | inr e ↦ rw e (reject-Takes m _ v)
      ]

  vet_upsert-Takes :
      (m : Model A) (u : Value A) (v : Vetted A)
      → m.update ≡ u
      → Takes m v (vet_upsert show cfg m u v)
  unfolding vet_upsert
  vet_upsert-Takes m (object item) v e = vet_columns-Takes m item v.expected_cols v e refl
  vet_upsert-Takes m nothing v e = reject-Takes m _ v
  vet_upsert-Takes m other v e = reject-Takes m _ v
  vet_upsert-Takes m (text s) v e = reject-Takes m _ v
  vet_upsert-Takes m (slice xs) v e = reject-Takes m _ v

  vet_one : Model A → Vetted A → Vetted A
  vet_one m v = if m.many then vet_many m m.update v else vet_upsert show cfg m m.update v

  vet_one-Takes : (m : Model A) (v : Vetted A) → Takes m v (vet_one m v)
  unfolding vet_one
  vet_one-Takes m v =
      if-Takes m.many m v _ _ (vet_many-Takes m m.update v refl)
        (vet_upsert-Takes m m.update v refl)

  vet-keeps :
      (ms : List (Model A)) (v : Vetted A) (n : Model A) → Sorted v n → Sorted (vet show cfg ms v) n
  unfolding vet vet_one Takes
  vet-keeps [] v n h = h
  vet-keeps (m ∷ ms) v n h = vet-keeps ms (vet_one m v) n ((vet_one-Takes m v).1 n h)

  pub vet-Sorted : (ms : List (Model A)) (v : Vetted A) → All (Sorted (vet show cfg ms v)) ms
  unfolding vet vet_one Takes
  vet-Sorted [] v = tt
  vet-Sorted (m ∷ ms) v =
      (vet-keeps ms (vet_one m v) m (vet_one-Takes m v).0, vet-Sorted ms (vet_one m v))
