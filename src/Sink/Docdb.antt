-- ===== src/Sink/Docdb.antt =====
-- sink/docdb/docdb.go: BulkWrite and Write of the DocumentDB sink. The collection is a parameter.
pub mod Attributed
use sluice_go.Naming.{codes, ℤ, pos, negsuc}
use sluice_go.Sink.{
  WriteModel, SinkError, ErrorClass, class_transient, class_permanent, BulkWriteResult, Answer,
  failed, answered,
}
use sluice_go.Prelude.{
  ℕ, zero, suc, Bool, true, false, ◌&&◌, ◌||◌, Option, none, some, List, [], ◌∷◌, map, ◌==◌,
  if◌then◌else◌, Bytes, contains_text,
}

-- mongo.UpdateOneModel and mongo.UpdateManyModel.
pub data MongoModel (V : Type 0) : Type 0 where
  update_one update_many : V → V → Bool → MongoModel V

-- mongo.BulkWriteError: the index of the model, the code and the message.
pub record WriteError : Type 0 where
  pub index : ℤ
  pub code : ℤ
  pub message : Bytes

pub record Counts : Type 0 where
  pub inserted_count : ℕ
  pub matched_count : ℕ
  pub modified_count : ℕ
  pub upserted_count : ℕ

-- What the collection answers: success with its counts, a BulkWriteException, with a result or
-- nil, whether it has a WriteConcernError, and its WriteErrors, or any other error.
pub data BulkAnswer : Type 0 where
  succeeded : Counts → BulkAnswer
  exception : Option Counts → Bool → List WriteError → BulkAnswer
  other_error : BulkAnswer

pub record Collection (V : Type 0) : Type 1 where
  pub State : Type 0
  pub bulk_write : List (MongoModel V) → State → BulkAnswer × State
  -- UpdateOne and UpdateMany, with true for an error
  pub update : MongoModel V → State → Bool × State

abbrev duplicate_key : ℤ → Bool
duplicate_key (pos n) = n == 11000
duplicate_key (negsuc n) = false

unfoldable pub classify_bulk_err : WriteError → Bool → ErrorClass
classify_bulk_err we is_upsert =
    if duplicate_key we.code && (is_upsert && contains_text (codes "_id_") we.message)
    then class_transient
    else class_permanent

abbrev pub mongo_model : {V : Type 0} → WriteModel V → MongoModel V
mongo_model m =
    if m.many then update_many m.filter m.update m.upsert else update_one m.filter m.update m.upsert

abbrev nth : {A : Type 0} → ℕ → List A → Option A
nth i [] = none
nth zero (x ∷ xs) = some x
nth (suc i) (x ∷ xs) = nth i xs

-- The model of an index, none where it is out of range.
abbrev pub model_at : {A : Type 0} → ℤ → List A → Option A
model_at (pos i) ms = nth i ms
model_at (negsuc i) ms = none

unfoldable pub sink_error : {V : Type 0} → WriteError → Option (WriteModel V) → SinkError
unfolding classify_bulk_err
sink_error we none = record {
  correlation_key = [];
  code = we.code;
  message = we.message;
  class = classify_bulk_err we false;
}
sink_error we (some m) = record {
  correlation_key = m.correlation_key;
  code = we.code;
  message = we.message;
  class = classify_bulk_err we m.upsert;
}

unfoldable pub sink_errors : {V : Type 0} → List (WriteModel V) → List WriteError → List SinkError
unfolding sink_error
sink_errors ms [] = []
sink_errors ms (we ∷ wes) = sink_error we (model_at we.index ms) ∷ sink_errors ms wes

abbrev no_counts : Counts
no_counts = record { inserted_count = 0; matched_count = 0; modified_count = 0; upserted_count = 0 }

abbrev pub counts_or_zero : Option Counts → Counts
counts_or_zero none = no_counts
counts_or_zero (some n) = n

abbrev pub result_of : Counts → List SinkError → BulkWriteResult
result_of n es = record {
  inserted_count = n.inserted_count;
  matched_count = n.matched_count;
  modified_count = n.modified_count;
  upserted_count = n.upserted_count;
  errors = es;
}

unfoldable pub interpret : {V : Type 0} → List (WriteModel V) → BulkAnswer → Answer
unfolding sink_errors
interpret ms (succeeded n) = answered (some (result_of n []))
interpret ms (exception res true wes) = failed none
interpret ms (exception res false wes) =
    answered (some (result_of (counts_or_zero res) (sink_errors ms wes)))
interpret ms other_error = failed none

module _ {V : Type 0} (collection : Collection V) where
  open collection use {State}

  -- Unordered: the collection goes on after an error.
  unfoldable pub bulk_write : List (WriteModel V) → State → Answer × State
  unfolding interpret
  bulk_write [] d = (answered (some (result_of no_counts [])), d)
  bulk_write (m ∷ ms) d =
      let out = collection.bulk_write (map mongo_model (m ∷ ms)) d in
      (interpret (m ∷ ms) out.0, out.1)

  -- `Write`: true for an error.
  unfoldable pub write : WriteModel V → State → Bool × State
  write m d = collection.update (mongo_model m) d
