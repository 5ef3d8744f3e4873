-- ===== src/Engine/Types.antt =====
-- The data of a flush in engine.go: the batch that is built from the drained records, and how the
-- errors of a sink part it.
use sluice_go.Shield.Calls.{Config}
use sluice_go.Shield.World.{World, Error}
use sluice_go.Shield.Flush.{VersionedKey}
use sluice_go.Sink.{WriteModel, SinkError, BulkWriteResult, is_permanent}
use sluice_go.Prelude.{
  ℕ, Bool, false, not, ◌||◌, Option, none, some, List, [], ◌∷◌, ◌++◌, filter, Bytes, bytes_eq,
  if◌then◌else◌,
}

pub record EngineConfig : Type 0 where
  pub shield : Config
  pub max_batch_size : ℕ
  pub key_ttl : ℕ
  pub activity_window : ℕ
  pub hot_aware_flush : Bool

pub data FlushError : Type 0 where
  contract_violation payload_missing sink_failed : FlushError
  unattributed : SinkError → FlushError
  redis_error : Error → FlushError

-- One call of the OnFlush callback.
pub record Report : Type 0 where
  pub keys : List Bytes
  pub error : Option FlushError

abbrev pub Contract : Type 0 → Type 0
Contract V = Bytes → Bytes → Option (WriteModel V)

-- The world of a flush, and the callbacks made so far, the first one first.
pub record Run (S : Type 0) : Type 0 where
  pub world : World S
  pub reports : List Report

pub record Batch (V : Type 0) : Type 0 where
  pub missing : List VersionedKey
  pub seqs : List (Bytes × Bytes)
  pub models : List (WriteModel V)

abbrev pub no_batch : {V : Type 0} → Batch V
no_batch = record { missing = []; seqs = []; models = [] }

-- seqs[k], with "" for a key that is not there.
unfoldable pub seq_of : List (Bytes × Bytes) → Bytes → Bytes
seq_of [] k = []
seq_of ((j, s) ∷ rest) k = if bytes_eq j k then s else seq_of rest k

unfoldable pub contains : List Bytes → Bytes → Bool
contains [] k = false
contains (j ∷ js) k = bytes_eq j k || contains js k

unfoldable pub keys_of : {V : Type 0} → List (WriteModel V) → List Bytes
keys_of [] = []
keys_of (m ∷ ms) = m.correlation_key ∷ keys_of ms

abbrev pub errors_of : Option BulkWriteResult → List SinkError
errors_of none = []
errors_of (some result) = result.errors

unfoldable pub permanent_keys : List SinkError → List Bytes
permanent_keys [] = []
permanent_keys (e ∷ es) =
    let rest = permanent_keys es in if is_permanent e then e.correlation_key ∷ rest else rest

unfoldable pub transient_keys : List SinkError → List Bytes
transient_keys [] = []
transient_keys (e ∷ es) =
    let rest = transient_keys es in if is_permanent e then rest else e.correlation_key ∷ rest

-- The keys of the batch that no error names.
unfoldable pub success_keys : List Bytes → List SinkError → List Bytes
unfolding permanent_keys transient_keys contains
success_keys keys es = filter (λ k. not (contains (permanent_keys es ++ transient_keys es) k)) keys
