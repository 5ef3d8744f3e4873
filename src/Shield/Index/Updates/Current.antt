-- ===== src/Shield/Index/Updates/Current.antt =====
-- UpdateIndexes of internal/shield/shield.go spares the indexes of the values that a key now has.
use sluice_go.Naming.{index_key}
use sluice_go.Band.{band_for_key}
use sluice_go.Shield.Index.{next_values, stored_equality, value_of}
use sluice_go.Shield.Index.Current.{Spares, queue_index_update-Spares}
use sluice_go.Shield.Index.Updates.{
  BulkIndexItem, UpdateReplies, queue_item, queue_items, update_items, update_indexes,
}
use sluice_go.Prelude.{
  ℕ, ◌<◌, ◌≡◌, sym, subst, Bool, Option, none, some, List, [], ◌∷◌, append-nil, Bytes, All, Free,
}

-- No name of a field in what idxv has of a key, where it is answered, has a colon in it.
abbrev pub FreeNames : Bytes → Option (Bytes → List (Bytes × Bytes)) → Type 0
FreeNames ck none = Unit
FreeNames ck (some values) = All (λ p. Free 58 p.0) (values ck)

module _ (S : Type 0) (ns : Bytes) (band_count ttl : ℕ) (f v : Bytes) (free : Free 58 f)
    (positive : 0 < ttl) (item : BulkIndexItem S)
    (current : value_of f (next_values item.fields) ≡ some (stored_equality v)) where
  abbrev own_index : Bytes
  own_index = index_key ns (band_for_key item.correlation_key band_count) f v

  update_items-Spares :
      (updated : Bool) (o : Option (Bytes → List (Bytes × Bytes)))
      → FreeNames item.correlation_key o
      → All (Spares own_index) (update_items ns band_count ttl (item ∷ []) updated o).commands
  unfolding update_items queue_items queue_item
  update_items-Spares updated none h = tt
  update_items-Spares updated (some values) h =
      subst (All (Spares own_index)) (sym (append-nil _)) (
        queue_index_update-Spares S ns (band_for_key item.correlation_key band_count) ttl
          item.correlation_key f v free positive item.now item.fields (values item.correlation_key)
          current h)

  -- When neither the name of a field nor a name in idxv has a colon in it, the TTL is above 0, and
  -- the field now has a string value: nothing that UpdateIndexes sends removes any member from the
  -- index of that value in the band of its key, deletes or overwrites it, or lets it expire at once,
  -- whatever values idxv had and whatever fails.
  pub update_indexes-Spares :
      (replies : UpdateReplies)
      → FreeNames item.correlation_key replies.values
      → All (Spares own_index) (update_indexes ns band_count ttl replies item).commands
  unfolding update_indexes
  update_indexes-Spares replies h = update_items-Spares replies.updated replies.values h
