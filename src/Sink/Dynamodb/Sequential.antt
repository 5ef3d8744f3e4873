-- ===== src/Sink/Dynamodb/Sequential.antt =====
-- The fallback of BulkWrite against Write, one model after the other.
use sluice_go.Sink.{SinkError}
use sluice_go.Sink.Values.{Value, nothing, other, text, slice, object, Model, item_of}
use sluice_go.Sink.Dynamodb.{
  Table, Item, Attributes, ApiError, Prepared, unprepared, reject, prepare, prepare_map,
  prepare_partition, prepare_sort, prepare_keyed, prepare_item, put_items, put_errors,
  put_marshalled, put_error_text, write, write_map, write_item, seen, no_many,
}
use sluice_go.Prelude.{
  ◌≡◌, refl, ap, Bool, true, false, Option, none, some, List, [], ◌∷◌, ◌++◌, map, Bytes, All,
  All-append, if◌then◌else◌, Bool-cases, inl, inr, bytes_eq, subst, sym,
}

abbrev IsObject : {A : Type 0} → Value A → Type 0
IsObject (object item) = Unit
IsObject nothing = ⊥
IsObject other = ⊥
IsObject (text s) = ⊥
IsObject (slice xs) = ⊥

-- An upsert of a map.
abbrev pub IsMap : {A : Type 0} → Model A → Type 0
IsMap m = (m.many ≡ false) × IsObject m.update

abbrev pub failed_key : {A : Type 0} → Model A → Option Bytes → List Bytes
failed_key m none = []
failed_key m (some t) = m.correlation_key ∷ []

module _ {A : Type 0} (show : Option A → Bytes) (attrs : Attributes)
    (marshal : List (Bytes × A) → Option Item) (table : Table) where
  open table use {State}

  -- `Write` of each model, in order: the keys of those that fail, and the table.
  abbrev pub write_all : List (Model A) → State → List Bytes × State
  write_all [] d = ([], d)
  write_all (m ∷ ms) d =
      let out = write show attrs marshal table m d in
      let rest = write_all ms out.1 in (failed_key m out.0 ++ rest.0, rest.1)

  write-IsMap :
      (m : Model A) (u : Value A) (d : State)
      → IsObject u
      → write_map show attrs marshal table u d
        ≡ write_item show attrs marshal table (marshal (item_of u)) d
  unfolding write_map
  write-IsMap m (object item) d h = refl
  write-IsMap m nothing d h = elim h [ ]
  write-IsMap m other d h = elim h [ ]
  write-IsMap m (text s) d h = elim h [ ]
  write-IsMap m (slice xs) d h = elim h [ ]

  write_lem :
      (m : Model A) (d : State)
      → IsMap m
      → write show attrs marshal table m d
        ≡ write_item show attrs marshal table (marshal (item_of m.update)) d
  unfolding write
  write_lem m d h = rw h.0 (write-IsMap m m.update d h.1)

  abbrev keys : List SinkError → List Bytes
  keys = map (λ e. e.correlation_key)

  keys-put_errors :
      (m : Model A) (o : Option ApiError) (rest : List SinkError) (ks : List Bytes)
      → keys rest ≡ ks
      → keys (put_errors show attrs marshal table m o ++ rest)
        ≡ failed_key m (put_error_text o) ++ ks
  keys-put_errors m none rest ks h = h
  keys-put_errors m (some e) rest ks h = ap (λ xs. m.correlation_key ∷ xs) h

  -- The errors and the table of the fallback, and of the single writes.
  Agree : List (Model A) → State → Type 0
  Agree ms d =
      (keys (put_items show attrs marshal table ms d).0 ≡ (write_all ms d).0)
      × ((put_items show attrs marshal table ms d).1.1 ≡ (write_all ms d).1)

  put_marshalled-Agree :
      (m : Model A) (item : Option Item) (ms : List (Model A)) (d : State)
      → ((d' : State) → Agree ms d')
      → let out = put_marshalled show attrs marshal table m item d in
        let one = write_item show attrs marshal table item d in
        (keys (
            put_errors show attrs marshal table m out.0
            ++ (put_items show attrs marshal table ms out.1).0)
          ≡ failed_key m one.0 ++ (write_all ms one.1).0)
        × ((put_items show attrs marshal table ms out.1).1.1 ≡ (write_all ms one.1).1)
  unfolding Agree write_item
  put_marshalled-Agree m none ms d ih = (ap (λ xs. m.correlation_key ∷ xs) (ih d).0, (ih d).1)
  put_marshalled-Agree m (some item) ms d ih =
      let out = table.put_item item d in (keys-put_errors m out.0 _ _ (ih out.1).0, (ih out.1).1)

  put_items-Agree : (ms : List (Model A)) (d : State) → All IsMap ms → Agree ms d
  unfolding Agree put_items
  put_items-Agree [] d h = (refl, refl)
  put_items-Agree (m ∷ ms) d h = rw (write_lem m d h.0) (
      put_marshalled-Agree m (marshal (item_of m.update)) ms d
        (λ d'. unfold Agree in put_items-Agree ms d' h.1))

  -- The models that the loop of BulkWrite keeps are upserts of maps.
  prepare_item-IsMap :
      (m : Model A) (item : Option Item) (p : Prepared A)
      → IsMap m
      → All IsMap p.valid_models
      → All IsMap (prepare_item show attrs marshal m item p).valid_models
  unfolding prepare_item
  prepare_item-IsMap m none p hm h = h
  prepare_item-IsMap m (some item) p hm h = All-append IsMap p.valid_models (m ∷ []) h (hm, tt)

  prepare_keyed-IsMap :
      (m : Model A) (item : List (Bytes × A)) (key : Bytes) (p : Prepared A)
      → IsMap m
      → All IsMap p.valid_models
      → All IsMap (prepare_keyed show attrs marshal m item key p).valid_models
  unfolding prepare_keyed
  prepare_keyed-IsMap m item key p hm h = elim (Bool-cases (seen p.seen_keys key)) [
    | inl dup ↦ rw dup h
    | inr new ↦ rw new (prepare_item-IsMap m (marshal item) _ hm h)
  ]

  prepare_sort-IsMap :
      (m : Model A) (item : List (Bytes × A)) (pk : Bytes) (sk : Option A) (p : Prepared A)
      → IsMap m
      → All IsMap p.valid_models
      → All IsMap (prepare_sort show attrs marshal m item pk sk p).valid_models
  unfolding prepare_sort
  prepare_sort-IsMap m item pk none p hm h = h
  prepare_sort-IsMap m item pk (some sk) p hm h = prepare_keyed-IsMap m item _ p hm h

  prepare_partition-IsMap :
      (m : Model A) (item : List (Bytes × A)) (pk : Option A) (p : Prepared A)
      → IsMap m
      → All IsMap p.valid_models
      → All IsMap (prepare_partition show attrs marshal m item pk p).valid_models
  unfolding prepare_partition
  prepare_partition-IsMap m item none p hm h = h
  prepare_partition-IsMap m item (some pk) p hm h = elim (Bool-cases (bytes_eq attrs.sk_attr [])) [
    | inl e ↦ rw e (prepare_keyed-IsMap m item _ p hm h)
    | inr e ↦ rw e (prepare_sort-IsMap m item _ _ p hm h)
  ]

  prepare_map-IsMap :
      (m : Model A) (u : Value A) (p : Prepared A)
      → m.many ≡ false
      → m.update ≡ u
      → All IsMap p.valid_models
      → All IsMap (prepare_map show attrs marshal m u p).valid_models
  unfolding prepare_map
  prepare_map-IsMap m (object item) p hm e h =
      prepare_partition-IsMap m item _ p (hm, subst IsObject (sym e) tt) h
  prepare_map-IsMap m nothing p hm e h = h
  prepare_map-IsMap m other p hm e h = h
  prepare_map-IsMap m (text s) p hm e h = h
  prepare_map-IsMap m (slice xs) p hm e h = h

  prepare_model-IsMap :
      (many : Bool) (m : Model A) (p : Prepared A)
      → m.many ≡ many
      → All IsMap p.valid_models
      → All IsMap
          (if many
            then reject m no_many p
            else prepare_map show attrs marshal m m.update p).valid_models
  prepare_model-IsMap true m p e h = h
  prepare_model-IsMap false m p e h = prepare_map-IsMap m m.update p e refl h

  prepare-IsMap :
      (ms : List (Model A)) (p : Prepared A)
      → All IsMap p.valid_models
      → All IsMap (prepare show attrs marshal ms p).valid_models
  unfolding prepare
  prepare-IsMap [] p h = h
  prepare-IsMap (m ∷ ms) p h = prepare-IsMap ms _ (prepare_model-IsMap m.many m p refl h)

  -- For the models that the loop of BulkWrite keeps of any batch, the fallback leaves the table as
  -- Write does on one model after the other, and its errors name, in order, exactly the keys whose
  -- Write fails.
  pub put_items-eq-write :
      (batch : List (Model A)) (d : State)
      → let valid = (prepare show attrs marshal batch unprepared).valid_models in
        (map (λ e. e.correlation_key) (put_items show attrs marshal table valid d).0
          ≡ (write_all valid d).0)
        × ((put_items show attrs marshal table valid d).1.1 ≡ (write_all valid d).1)
  unfolding Agree
  put_items-eq-write batch d = put_items-Agree _ d (prepare-IsMap batch unprepared tt)
