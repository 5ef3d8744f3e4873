-- ===== src/Engine/Flushed.antt =====
-- One flush of a band, seen from a key that waits when it starts.
use sluice_go.Shield.Traffic.{Foreign}
use sluice_go.Redis.{Redis}
use sluice_go.Naming.{codes}
use sluice_go.Shield.Calls.{band_for}
use sluice_go.Shield.World.{World, Result, ok, err}
use sluice_go.Shield.World.Keeps.{Kept, wait-Kept}
use sluice_go.Shield.Flush.{FlushRecord, drain_band, dirty_queue_depth}
use sluice_go.Shield.Flush.Held.{IsHeld}
use sluice_go.Shield.Flush.Keeps.{dirty_queue_depth-Kept, drain_band-Kept}
use sluice_go.Sink.{
  WriteModel, SinkError, BulkWriteResult, Answer, failed, answered, check_attribution,
}
use sluice_go.Engine.Types.{
  EngineConfig, Contract, Run, Batch, no_batch, keys_of, errors_of, permanent_keys, success_keys,
  contains,
}
use sluice_go.Sink.Errors.{Attributed, check_attribution_iff}
use sluice_go.Engine.Partition.{named, success_keys-contains}
use sluice_go.Engine.Commit.{handle_missing_payloads, versioned}
use sluice_go.Engine.Durable.{
  HeldOr, HeldOr-IsSafe, Later, MayCommit, dead_letter-Kept, handle_missing-Kept,
  commit_flushed-Kept,
}
use sluice_go.Engine.{
  accept_record, take_body, take_records, settle, check_and_settle, after_bulk_write, bulk_write,
  write_batch, flush_records, flush_band, models_of, flush_models,
}
use sluice_go.Prelude.{
  sym, ◌∙◌, arith, false, not, ◌&&◌, ℕ, ◌≡◌, refl, true, Option, none, some, List, [], ◌∷◌, Bytes,
  Bool-cases, ◌⊎◌, inl, inr,
}

-- The sink answered the batch with no top-level error, every error names a key, the key is among
-- the models, and no error names it.
abbrev pub AcceptedOf :
    {V : Type 0} → (List (WriteModel V) → Answer) → Bytes → List (WriteModel V) → Type 0
AcceptedOf sink ck models =
    (result : Option BulkWriteResult) × (sink models ≡ answered result)
    × Attributed (errors_of result)
    × (contains (keys_of models) ck ≡ true)
    × (named (errors_of result) ck ≡ false)

attributed :
    {V : Type 0} (models : List (WriteModel V)) (result : Option BulkWriteResult)
    → check_attribution models result ≡ none
    → Attributed (errors_of result)
attributed models none a = tt
attributed models (some result) a = (check_attribution_iff models result).0.0 a

module _ {V : Type 0} (r : Redis) (c : EngineConfig) (ck : Bytes) (contract : Contract V)
    (sink : List (WriteModel V) → Answer) (now : ℕ) where
  open r use {State}

  abbrev band : ℕ
  band = band_for c.shield ck

  module _ (E : Type 0) where
    accept_record-Kept :
        (rec : FlushRecord) (o : Option (WriteModel V)) (p : Batch V × Run State)
        → Later r c ck E p.1.world
        → Later r c ck E (accept_record r c rec o now band p).1.world
    unfolding accept_record
    accept_record-Kept rec none (batch, run) k =
        dead_letter-Kept r c ck E now
          (record { correlation_key = rec.correlation_key; seq = rec.seq } ∷ [])
          (codes "contract_violation") run.world k
    accept_record-Kept rec (some wm) (batch, run) k = k

    take_body-Kept :
        (rec : FlushRecord) (body : Option Bytes) (p : Batch V × Run State)
        → Later r c ck E p.1.world
        → Later r c ck E (take_body r c contract rec body now band p).1.world
    unfolding take_body
    take_body-Kept rec none (batch, run) k = k
    take_body-Kept rec (some body) p k =
        accept_record-Kept rec (contract rec.correlation_key body) p k

    take_records-Kept :
        (records : List FlushRecord) (p : Batch V × Run State)
        → Later r c ck E p.1.world
        → Later r c ck E (take_records r c contract now band records p).1.world
    unfolding take_records
    take_records-Kept [] p k = k
    take_records-Kept (rec ∷ rest) p k =
        take_records-Kept rest (take_body r c contract rec rec.body now band p)
          (take_body-Kept rec rec.body p k)

    settle-Kept :
        (batch : Batch V) (errors : List SinkError) (run : Run State)
        → MayCommit r c ck E (success_keys (keys_of batch.models) errors)
        → Later r c ck E run.world
        → Later r c ck E (settle r c now band batch errors run).world
    unfolding settle
    settle-Kept batch errors run m k =
        dead_letter-Kept r c ck E now (versioned r c batch.seqs (permanent_keys errors)) _ _ (
          commit_flushed-Kept r c ck E now (success_keys (keys_of batch.models) errors) batch.seqs
            run.world m k)

  -- The sink's answer decides whether a commit may name the key.
  may_commit :
      (models : List (WriteModel V)) (result : Option BulkWriteResult)
      → sink models ≡ answered result
      → check_attribution models result ≡ none
      → MayCommit r c ck
          (AcceptedOf sink ck models)
          (success_keys (keys_of models) (errors_of result))
  may_commit models result e a =
      elim (Bool-cases (contains (success_keys (keys_of models) (errors_of result)) ck)) [
        | inl y ↦
            let c : (contains (keys_of models) ck && not (named (errors_of result) ck)) ≡ true =
              sym (success_keys-contains (keys_of models) (errors_of result) ck) ∙ y in
            inr (result, e, attributed models result a, ground arith, ground arith)
        | inr n ↦ inl n
      ]

  check_and_settle-Kept :
      (batch : Batch V) (result : Option BulkWriteResult) (o : Option SinkError) (run : Run State)
      → sink batch.models ≡ answered result
      → check_attribution batch.models result ≡ o
      → Later r c ck (AcceptedOf sink ck batch.models) run.world
      → Later r c ck
          (AcceptedOf sink ck batch.models)
          (check_and_settle r c now band batch result o run).world
  unfolding check_and_settle
  check_and_settle-Kept batch result (some x) run e a k = k
  check_and_settle-Kept batch result none run e a k =
      settle-Kept (AcceptedOf sink ck batch.models) batch (errors_of result) run
        (may_commit batch.models result e a) k

  after_bulk_write-Kept :
      (batch : Batch V) (answer : Answer) (run : Run State)
      → sink batch.models ≡ answer
      → Later r c ck (AcceptedOf sink ck batch.models) run.world
      → Later r c ck
          (AcceptedOf sink ck batch.models)
          (after_bulk_write r c now band batch answer run).world
  unfolding after_bulk_write
  after_bulk_write-Kept batch (failed result) run e k = k
  after_bulk_write-Kept batch (answered result) run e k =
      check_and_settle-Kept batch result (check_attribution batch.models result) run e refl k

  bulk_write-Kept :
      (batch : Batch V) (models : List (WriteModel V)) (run : Run State)
      → batch.models ≡ models
      → Later r c ck (AcceptedOf sink ck batch.models) run.world
      → Later r c ck
          (AcceptedOf sink ck batch.models)
          (bulk_write r c sink now band batch models run).world
  unfolding bulk_write
  bulk_write-Kept batch [] run e k = k
  bulk_write-Kept batch (m ∷ ms) run e k =
      let E : Type 0 = AcceptedOf sink ck batch.models in
      after_bulk_write-Kept batch (sink (m ∷ ms)) _ (rw e) (
        wait-Kept r c.shield (Foreign ck) (HeldOr r c ck E) (HeldOr-IsSafe r c ck E).stable
          run.world k)

  write_batch-Kept :
      (p : Batch V × Run State)
      → Later r c ck (AcceptedOf sink ck p.0.models) p.1.world
      → Later r c ck (AcceptedOf sink ck p.0.models) (write_batch r c sink now band p).world
  unfolding write_batch
  write_batch-Kept (batch, run) k =
      bulk_write-Kept batch batch.models (handle_missing_payloads r c now band batch.missing run)
        refl (handle_missing-Kept r c ck (AcceptedOf sink ck batch.models) now batch.missing run k)

  abbrev AcceptedFrom : Result (List FlushRecord) × World State → Type 0
  AcceptedFrom out = AcceptedOf sink ck (models_of r c contract now band out)

  flush_records-Kept :
      (out : Result (List FlushRecord)) (w : World State)
      → Later r c ck (AcceptedFrom (out, w)) w
      → Later r c ck
          (AcceptedFrom (out, w))
          (flush_records r c contract sink now band (out, w)).world
  unfolding flush_records models_of
  flush_records-Kept (err e) w k = k
  flush_records-Kept (ok records) w k =
      write_batch-Kept (take_records r c contract now band records (no_batch, _))
        (take_records-Kept (AcceptedFrom (ok records, w)) records (no_batch, _) k)

  -- What is left of the world is no worse than before.
  pub flush_band-Later :
      (w : World State)
      → Kept r c.shield (Foreign ck) (IsHeld r c.shield ck) w
      → Later r c ck
          (AcceptedOf sink ck (flush_models r c contract now band w))
          (flush_band r c contract sink now band w).world
  unfolding flush_band flush_models
  flush_band-Later w k =
      let E : Type 0 = AcceptedOf sink ck (flush_models r c contract now band w) in
      let safe = HeldOr-IsSafe r c ck E in
      let w1 = (dirty_queue_depth r c.shield band w).1 in
      let out = drain_band r c.shield now band c.max_batch_size w1 in
      let k0 : Later r c ck E w = record { now = inl k.now; later = k.later } in
      let k1 : Later r c ck E w1 =
        dirty_queue_depth-Kept r c.shield ck (HeldOr r c ck E) safe band w k0 in
      flush_records-Kept out.0 out.1
        (drain_band-Kept r c.shield ck (HeldOr r c ck E) safe now band c.max_batch_size w1 k1)

  -- A key of the band waits, or has a dead-letter entry, when its band is flushed; no other client
  -- commits or dead-letters the key meanwhile. Then, whatever the contract and the sink answer,
  -- whatever else other clients do between the round trips and whichever of these fail, afterwards
  -- the key still waits, or has a dead-letter entry, or was a model of the batch, which the sink
  -- answered with every error attributed and none for the key.
  pub flush_band-IsHeld :
      (w : World State)
      → Kept r c.shield (Foreign ck) (IsHeld r c.shield ck) w
      → IsHeld r c.shield ck (flush_band r c contract sink now band w).world.redis
        ⊎ AcceptedOf sink ck (flush_models r c contract now band w)
  flush_band-IsHeld w k = (flush_band-Later w k).now
