-- ===== src/Sink.antt =====
-- sink/types.go and sink/sink.go: what the engine hands to a sink and what comes back.
pub mod Errors
pub mod Values
pub mod Database
pub mod Postgres
pub mod Docdb
pub mod Dynamodb
use sluice_go.Naming.{ℤ, pos, negsuc}
use sluice_go.Prelude.{
  ℕ, Bool, true, false, Option, none, some, List, [], ◌∷◌, Bytes, ◌==◌, if◌then◌else◌,
}

-- Filter and Update are interface{}: a type V of the datastore's values.
pub record WriteModel (V : Type 0) : Type 0 where
  pub correlation_key : Bytes
  pub filter : V
  pub update : V
  pub upsert : Bool
  pub many : Bool

pub data ErrorClass : Type 0 where
  class_unknown class_transient class_permanent : ErrorClass

pub record SinkError : Type 0 where
  pub correlation_key : Bytes
  pub code : ℤ
  pub message : Bytes
  pub class : ErrorClass

pub record BulkWriteResult : Type 0 where
  pub inserted_count : ℕ
  pub matched_count : ℕ
  pub modified_count : ℕ
  pub upserted_count : ℕ
  pub errors : List SinkError

-- MongoDB's duplicate key error.
abbrev is_duplicate : ℤ → Bool
is_duplicate (pos n) = n == 11000
is_duplicate (negsuc n) = false

unfoldable pub permanent_class : ErrorClass → ℤ → Bool
permanent_class class_permanent code = true
permanent_class class_unknown code = is_duplicate code
permanent_class class_transient code = false

unfoldable pub is_permanent : SinkError → Bool
unfolding permanent_class
is_permanent e = permanent_class e.class e.code

abbrev pub is_empty : Bytes → Bool
is_empty [] = true
is_empty (x ∷ xs) = false

-- The loop of `CheckAttribution`: the first error with no key.
unfoldable pub first_unattributed : List SinkError → Option SinkError
first_unattributed [] = none
first_unattributed (e ∷ es) =
    let rest = first_unattributed es in if is_empty e.correlation_key then some e else rest

unfoldable pub check_attribution :
    {V : Type 0} → List (WriteModel V) → Option BulkWriteResult → Option SinkError
unfolding first_unattributed
check_attribution models none = none
check_attribution models (some result) = first_unattributed result.errors

-- What BulkWrite returns: a top-level error, maybe with a result, or a result that may be nil.
pub data Answer : Type 0 where
  failed : Option BulkWriteResult → Answer
  answered : Option BulkWriteResult → Answer
