-- ===== src/Shield/Index/Updates.antt =====
-- UpdateIndexes of internal/shield/shield.go and BulkUpdateIndexes of bulk.go: one pipeline reads
-- what idxv has of the keys, a second one carries the updates. What Redis answers is a parameter.
pub mod Current
use sluice_go.Band.{band_for_key}
use sluice_go.Shield.Index.{FieldValue, Queued, queue_index_update}
use sluice_go.Shield.Index.Prune.{Sent}
use sluice_go.Prelude.{ℕ, Bool, true, false, not, Option, none, some, List, [], ◌∷◌, ◌++◌, Bytes}

-- An item, and the time at which its update is queued.
pub record BulkIndexItem (S : Type 0) : Type 0 where
  pub correlation_key : Bytes
  pub fields : List (Bytes × FieldValue S)
  pub now : ℕ

-- The answers of the HGETALLs, none for an error, and whether the updates are answered.
pub record UpdateReplies : Type 0 where
  pub values : Option (Bytes → List (Bytes × Bytes))
  pub updated : Bool

module _ {S : Type 0} (ns : Bytes) (band_count ttl : ℕ) where
  unfoldable pub queue_item : (Bytes → List (Bytes × Bytes)) → BulkIndexItem S → List (Queued S)
  unfolding queue_index_update
  queue_item values item =
      let ck = item.correlation_key in
      queue_index_update ns (band_for_key ck band_count) ttl ck item.now item.fields (values ck)

  unfoldable pub queue_items :
      (Bytes → List (Bytes × Bytes)) → List (BulkIndexItem S) → List (Queued S)
  unfolding queue_item
  queue_items values [] = []
  queue_items values (item ∷ items) = queue_item values item ++ queue_items values items

  unfoldable pub update_items :
      List (BulkIndexItem S) → Bool → Option (Bytes → List (Bytes × Bytes)) → Sent S
  unfolding queue_items
  update_items items updated none = record { failed = true; commands = [] }
  update_items items updated (some values) = record {
    failed = not updated;
    commands = queue_items values items;
  }

  unfoldable pub bulk_update_indexes : UpdateReplies → List (BulkIndexItem S) → Sent S
  unfolding update_items
  bulk_update_indexes replies [] = record { failed = false; commands = [] }
  bulk_update_indexes replies (item ∷ items) =
      update_items (item ∷ items) replies.updated replies.values

  -- `UpdateIndexes`
  unfoldable pub update_indexes : UpdateReplies → BulkIndexItem S → Sent S
  unfolding update_items
  update_indexes replies item = update_items (item ∷ []) replies.updated replies.values
