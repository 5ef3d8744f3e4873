-- ===== src/Engine.antt =====
-- internal/engine/engine.go: one flush of a band. The write contract and the sink are the
-- caller's; traffic may come between any two round trips, and while the sink writes.
pub mod Types
pub mod Commit
pub mod Partition
pub mod Durable
pub mod Flushed
pub mod Stored
pub mod Progress
pub mod Loop
pub mod Size
use sluice_go.Redis.{Redis}
use sluice_go.Naming.{codes}
use sluice_go.Shield.World.{World, Result, ok, err, wait}
use sluice_go.Shield.Flush.{FlushRecord, VersionedKey, drain_band, dirty_queue_depth}
use sluice_go.Sink.{
  WriteModel, SinkError, BulkWriteResult, Answer, failed, answered, check_attribution,
}
use Types.{
  EngineConfig, contract_violation, sink_failed, unattributed, Contract, Run, Batch, no_batch,
  keys_of, errors_of, permanent_keys, success_keys,
}
use Commit.{dead_letter, report, with_world, handle_missing_payloads, commit_flushed, versioned}
use sluice_go.Prelude.{ℕ, Option, none, some, List, [], ◌∷◌, ◌++◌, Bytes}

module _ {V : Type 0} (r : Redis) (c : EngineConfig) where
  open r use {State}

  unfoldable pub accept_record :
      FlushRecord → Option (WriteModel V) → ℕ → ℕ → Batch V × Run State → Batch V × Run State
  unfolding dead_letter
  accept_record rec none now band (batch, run) =
      let items : List VersionedKey =
        record { correlation_key = rec.correlation_key; seq = rec.seq } ∷ [] in
      (
        record batch { seqs = (rec.correlation_key, rec.seq) ∷ batch.seqs },
        report r c (rec.correlation_key ∷ []) (some contract_violation) (
            with_world r c run
              (dead_letter r c now band items (codes "contract_violation") run.world)),
      )
  accept_record rec (some wm) now band (batch, run) = (
    record batch {
      seqs = (rec.correlation_key, rec.seq) ∷ batch.seqs;
      models = batch.models ++ record wm { correlation_key = rec.correlation_key } ∷ [];
    },
    run,
  )

  unfoldable pub take_body :
      Contract V → FlushRecord → Option Bytes → ℕ → ℕ → Batch V × Run State → Batch V × Run State
  unfolding accept_record
  take_body contract rec none now band (batch, run) =
      let item : VersionedKey = record { correlation_key = rec.correlation_key; seq = rec.seq } in
      (record batch { missing = batch.missing ++ item ∷ [] }, run)
  take_body contract rec (some body) now band p =
      accept_record rec (contract rec.correlation_key body) now band p

  -- The loop over the drained records.
  unfoldable pub take_records :
      Contract V → ℕ → ℕ → List FlushRecord → Batch V × Run State → Batch V × Run State
  unfolding take_body
  take_records contract now band [] p = p
  take_records contract now band (rec ∷ rest) p =
      take_records contract now band rest (take_body contract rec rec.body now band p)

  -- The commit and the dead letters of an answer that names a key in every error.
  unfoldable pub settle : ℕ → ℕ → Batch V → List SinkError → Run State → Run State
  unfolding commit_flushed versioned dead_letter success_keys permanent_keys keys_of
  settle now band batch errors run =
      let keys = keys_of batch.models in
      let w1 = commit_flushed r c now band (success_keys keys errors) batch.seqs run.world in
      report r c keys none (
        with_world r c run (
          dead_letter r c now band (versioned r c batch.seqs (permanent_keys errors))
            (codes "permanent_sink_error") w1))

  unfoldable pub check_and_settle :
      ℕ → ℕ → Batch V → Option BulkWriteResult → Option SinkError → Run State → Run State
  unfolding settle
  check_and_settle now band batch result (some e) run =
      report r c (keys_of batch.models) (some (unattributed e)) run
  check_and_settle now band batch result none run = settle now band batch (errors_of result) run

  -- Phase 2, once the sink has answered.
  unfoldable pub after_bulk_write : ℕ → ℕ → Batch V → Answer → Run State → Run State
  unfolding check_and_settle check_attribution
  after_bulk_write now band batch (failed result) run =
      report r c (keys_of batch.models) (some sink_failed) run
  after_bulk_write now band batch (answered result) run =
      check_and_settle now band batch result (check_attribution batch.models result) run

  -- The sink writes while traffic goes on.
  unfoldable pub bulk_write :
      (List (WriteModel V) → Answer) → ℕ → ℕ → Batch V → List (WriteModel V) → Run State → Run State
  unfolding after_bulk_write
  bulk_write sink now band batch [] run = run
  bulk_write sink now band batch (m ∷ ms) run =
      after_bulk_write now band batch (sink (m ∷ ms))
        (with_world r c run (wait r c.shield run.world).1)

  unfoldable pub write_batch :
      (List (WriteModel V) → Answer) → ℕ → ℕ → Batch V × Run State → Run State
  unfolding bulk_write handle_missing_payloads
  write_batch sink now band (batch, run) =
      bulk_write sink now band batch batch.models
        (handle_missing_payloads r c now band batch.missing run)

  unfoldable pub flush_records :
      Contract V
      → (List (WriteModel V) → Answer)
      → ℕ
      → ℕ
      → Result (List FlushRecord) × World State
      → Run State
  unfolding take_records write_batch
  flush_records contract sink now band (err e, w) = record { world = w; reports = [] }
  flush_records contract sink now band (ok records, w) =
      write_batch sink now band
        (take_records contract now band records (no_batch, record { world = w; reports = [] }))

  unfoldable pub flush_band :
      Contract V → (List (WriteModel V) → Answer) → ℕ → ℕ → World State → Run State
  unfolding drain_band flush_records dirty_queue_depth
  flush_band contract sink now band w =
      let w1 = (dirty_queue_depth r c.shield band w).1 in
      flush_records contract sink now band (drain_band r c.shield now band c.max_batch_size w1)

  -- The models that a flush hands to the sink, given the drained records.
  unfoldable pub models_of :
      Contract V → ℕ → ℕ → Result (List FlushRecord) × World State → List (WriteModel V)
  unfolding take_records
  models_of contract now band (err e, w) = []
  models_of contract now band (ok records, w) =
      (take_records contract now band records
        (no_batch, record { world = w; reports = [] })).0.models

  unfoldable pub flush_models : Contract V → ℕ → ℕ → World State → List (WriteModel V)
  unfolding models_of drain_band dirty_queue_depth
  flush_models contract now band w =
      models_of contract now band
        (drain_band r c.shield now band c.max_batch_size (dirty_queue_depth r c.shield band w).1)
