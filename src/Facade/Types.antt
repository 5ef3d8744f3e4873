-- ===== src/Facade/Types.antt =====
-- sluice.go and errors.go: the state of a Sluice, its configuration, and what its operations answer.
-- A Sluice without an index contract is modelled.
use sluice_go.LocalJournal.{Cache}
use sluice_go.Shield.Calls.{Config}
use sluice_go.Shield.World.{World, Error}
use sluice_go.Sink.{WriteModel}
use sluice_go.Engine.Types.{Contract}
use sluice_go.Prelude.{ℕ, Bool, Option, List, Bytes}

pub record SluiceConfig : Type 0 where
  pub shield : Config
  pub max_batch_size : ℕ
  pub hot_aware_flush : Bool
  pub content_dedup : Bool
  pub batched_writes : Bool
  pub degraded_mode_direct : Bool
  pub idempotency_ttl : ℕ

-- What the Source answers to a read.
pub data SourceAnswer : Type 0 where
  record_found : Bytes → SourceAnswer
  record_missing source_failed : SourceAnswer

-- The collaborators that the builder was given; xxhash is the content hash.
pub record Wiring (V : Type 0) : Type 0 where
  pub write_contract : Option (Contract V)
  pub sink_write : Option (WriteModel V → Bool)
  pub source : Option (Bytes → SourceAnswer)
  pub read_contract : Option (Bytes → Option Bytes)
  pub content_hash : Bytes → Bytes

-- What a goroutine that an operation started still has to do.
pub data Job : Type 0 where
  refresh_ttl : Bytes → Job
  hydrate_read : (ck body : Bytes) (ts : ℕ) (with_l1 : Bool) → Job
  hot_load_read : Bytes → Job

pub record Sluice (S : Type 0) : Type 0 where
  pub world : World S
  pub local : Option Cache
  pub closed : Bool
  pub jobs : List Job
  -- the bands that SignalVolume was called for
  pub signals : List ℕ

pub data OpError : Type 0 where
  library_closed missing_write_contract missing_sink missing_source missing_read_contract : OpError
  empty_correlation_key redis_unavailable degraded_write_unsafe contract_violation : OpError
  sink_unavailable duplicate_idempotency_key record_not_found read_contract_failed : OpError
  source_unavailable : OpError
  redis_error : Error → OpError

pub data Outcome (A : Type 0) : Type 0 where
  done : A → Outcome A
  failed : OpError → Outcome A
